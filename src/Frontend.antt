-- ===== src/Frontend.antt =====
-- internal/frontend/frontend.go: which mutations an incremental analysis keeps.
pub mod Selection
pub mod Diff
use mutation_judge.Base.{ℕ, zero, suc, Bool, true, false, Option, none, some, if◌then◌else◌}
use mutation_judge.Base.Int.{ℤ, int_inc, int_count, int_bits}
use mutation_judge.Model.{Span}
use mutation_judge.GitDiff.{Lines}

-- The loop over the lines of a span. It ends behind the last line, so the number of lines is fuel.
unfoldable pub any_line : (ℕ → Bool) → ℕ → ℤ → Bool
unfolding int_inc int_bits
any_line lines zero l = false
any_line lines (suc left) l =
    let rest = any_line lines left (int_inc l) in if lines (int_bits l) then true else rest

-- `overlapsChanged`, where a slash separates the names of a path. A file that is not in the map has
-- no line in it.
unfoldable pub overlaps_changed : Span → Option Lines → Bool
unfolding any_line int_count
overlaps_changed sp none = true
overlaps_changed sp (some changed) =
    if changed sp.file 0
    then true
    else any_line (changed sp.file) (int_count sp.start_line sp.end_line) sp.start_line
