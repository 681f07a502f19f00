-- ===== src/Model.antt =====
-- internal/model/model.go: the data that every other package shares. A `float64` is its bit
-- pattern; what the program computes with floats is a parameter where it is used.
pub mod Validate
pub mod Valid
use mutation_judge.Base.{
  ℕ, Bool, true, false, List, Option, ◌≡◌, ◌↔◌, Text, codes, text_eq, text_eq_iff, arith,
}
use mutation_judge.Base.Int.{ℤ}

pub record Span : Type 0 where
  pub file : Text
  pub start_byte : ℤ
  pub end_byte : ℤ
  pub start_line : ℤ
  pub start_col : ℤ
  pub end_line : ℤ
  pub end_col : ℤ

pub record Mutation : Type 0 where
  pub id : Text
  pub operator : Text
  pub rule_id : Text
  pub span : Span
  pub original : Text
  pub replacement : Text
  pub description : Text
  pub suggestion : Text
  pub diff : Text
  pub equivalent_reason : Text

-- A `Verdict` is a string: `other` is every string but the seven that the program names.
pub data Verdict : Type 0 where
  killed survived invalid timeout unknown unsupported equivalent : Verdict
  other : Text → Verdict

pub record Assertion : Type 0 where
  pub test : Text
  pub file : Text
  pub line : ℤ
  pub message : Text

pub record Panic : Type 0 where
  pub test : Text
  pub message : Text

pub record Timing : Type 0 where
  pub parsing_ms : ℤ
  pub baseline_ms : ℤ
  pub execution_ms : ℤ
  pub rendering_ms : ℤ
  pub total_ms : ℤ

abbrev pub Float64 : Type 0
Float64 = ℕ

-- A value of type `any`, as far as the program looks into it: an `int`, a `float64`, a
-- `json.Number`, a `string`, or anything else.
pub data AnyValue : Type 0 where
  int : ℤ → AnyValue
  float : Float64 → AnyValue
  number : Text → AnyValue
  text : Text → AnyValue
  opaque : AnyValue

pub record Diagnostic : Type 0 where
  pub id : Text
  pub location : Span
  pub statement : Text
  pub evidence : List (Text × AnyValue)
  pub assumptions : List Text
  pub suggestion : Text

pub record Result : Type 0 where
  pub mutation : Mutation
  pub verdict : Verdict
  pub responsible : List Text
  pub assertions : List Assertion
  pub panics : List Panic
  pub covered : Bool
  pub coverage_known : Bool
  pub cached : Bool
  pub duration_ms : ℤ
  pub output : Text
  pub output_truncated : Bool
  pub diagnostic : Diagnostic

pub record Summary : Type 0 where
  pub generated : ℤ
  pub killed : ℤ
  pub survived : ℤ
  pub invalid : ℤ
  pub timeout : ℤ
  pub unknown : ℤ
  pub unsupported : ℤ
  pub equivalent : ℤ
  pub score : Float64
  pub score_text : Text

-- The equality of two verdicts, which are strings.
unfoldable pub verdict_eq : Verdict → Verdict → Bool
verdict_eq killed killed = true
verdict_eq survived survived = true
verdict_eq invalid invalid = true
verdict_eq timeout timeout = true
verdict_eq unknown unknown = true
verdict_eq unsupported unsupported = true
verdict_eq equivalent equivalent = true
verdict_eq (other a) (other b) = text_eq a b
verdict_eq _ _ = false

abbrev pub schema_version : Text
schema_version = codes "mutation-judge.report/v1"

pub record Report : Type 0 where
  pub schema_version : Text
  pub tool_version : Text
  pub go_version : Text
  pub generated_at : ℤ
  pub complete : Bool
  pub patterns : List Text
  pub effective_config : Option (List (Text × AnyValue))
  pub bounds : Option (List (Text × AnyValue))
  pub semantics : Option (List Text)
  pub warnings : List Text
  pub summary : Summary
  pub results : List Result
  pub timing : Timing

pub verdict_eq_iff : (v w : Verdict) → (verdict_eq v w ≡ true) ↔ (v ≡ w)
unfolding verdict_eq
verdict_eq_iff (other a) (other b) = ground (arith, text_eq_iff a b)
verdict_eq_iff _ _ = ground arith
