-- ===== src/Analysis.antt =====
-- internal/analysis: the engine that runs the mutations and assembles the report.
pub mod Window
pub mod Score
