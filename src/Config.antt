-- ===== src/Config.antt =====
-- internal/config/config.go: the settings of a run and the file that holds them.
pub mod Quotes
pub mod Load
pub mod Find
pub mod Valid
pub mod Trimmed
pub mod Quoted
pub mod Pair
pub mod Listed
pub mod Written
pub mod Block
pub mod Nearest
mod Tests
use mutation_judge.Base.{
  ℕ, Bool, true, false, not, ◌&&◌, ◌||◌, List, [], ◌∷◌, Option, none, some, Text, codes, text_eq,
  ◌*◌,
}
use mutation_judge.Base.Int.{ℤ, pos, negsuc, int_lt}
use mutation_judge.Model.{Float64}
use mutation_judge.Model.Validate.{◌then◌, refuse, is_empty}

-- A duration is a number of nanoseconds.
pub record Config : Type 0 where
  pub operators : List Text
  pub timeout : ℤ
  pub preparation_timeout : ℤ
  pub total_timeout : ℤ
  pub test_run : Text
  pub format : Text
  pub output : Text
  pub cache_dir : Text
  pub cache : Bool
  pub max_mutants : ℤ
  pub ci_min_score : Float64
  pub ci_exit_code : ℤ
  pub include_generated : Bool
  pub changed_base : Text
  pub progress : Bool
  pub narrow_test_scope : Bool
  pub coverage_test_selection : Bool
  pub workers : ℤ

-- What the code uses of strconv and time, and of floating-point numbers: `unquote` is
-- `strconv.Unquote`, `below_zero` and `above_hundred` the two comparisons of a score.
pub record Std : Type 0 where
  pub unquote : Text → Option Text
  pub parse_duration : Text → Option ℤ
  pub duration_text : ℤ → Text
  pub parse_float : Text → Option Float64
  pub below_zero : Float64 → Bool
  pub above_hundred : Float64 → Bool

abbrev second : ℕ
second = 1000000000

unfoldable pub default_config : Config
default_config = record {
  operators = codes "boundary" ∷ codes "boolean" ∷ [];
  timeout = pos (20 * second);
  preparation_timeout = pos (120 * second);
  total_timeout = pos 0;
  test_run = [];
  format = codes "text";
  output = [];
  cache_dir = codes ".mutation-judge/cache";
  cache = true;
  max_mutants = pos 0;
  ci_min_score = 0;
  ci_exit_code = pos 10;
  include_generated = false;
  changed_base = [];
  progress = true;
  narrow_test_scope = false;
  coverage_test_selection = false;
  workers = pos 1;
}

pub data InvalidConfig : Type 0 where
  no_operator negative_preparation_or_total timeout_not_positive negative_max_mutants :
      InvalidConfig
  score_out_of_range exit_code_out_of_range negative_workers : InvalidConfig
  unknown_operator unsupported_format : Text → InvalidConfig

abbrev pub known_operators : List Text
known_operators =
    codes "boundary"
    ∷ codes "boolean"
    ∷ codes "arithmetic"
    ∷ codes "errorreturn"
    ∷ codes "switch"
    ∷ codes "loop"
    ∷ codes "channel"
    ∷ codes "assignment"
    ∷ codes "relational"
    ∷ codes "literal"
    ∷ codes "statement"
    ∷ codes "condition"
    ∷ codes "returnvalue"
    ∷ codes "connective"
    ∷ codes "bounds"
    ∷ []

abbrev pub known_formats : List Text
known_formats = codes "text" ∷ codes "json" ∷ codes "html" ∷ codes "sarif" ∷ codes "github" ∷ []

unfoldable pub is_one_of : Text → List Text → Bool
is_one_of t [] = false
is_one_of t (u ∷ us) = text_eq t u || is_one_of t us

unfoldable pub unknown_in : List Text → Option InvalidConfig
unknown_in [] = none
unknown_in (o ∷ os) =
    refuse (not (is_one_of o known_operators)) (unknown_operator o) then unknown_in os

-- `ValidExitCode`
unfoldable pub valid_exit_code : ℤ → Bool
valid_exit_code code = not (not (int_lt (pos 0) code) || int_lt (pos 125) code)

-- `Validate`, the first error.
unfoldable pub validate : Std → Config → Option InvalidConfig
validate std c =
    refuse (is_empty c.operators) no_operator
    then unknown_in c.operators
    then refuse (int_lt c.preparation_timeout (pos 0) || int_lt c.total_timeout (pos 0))
        negative_preparation_or_total
    then refuse (not (int_lt (pos 0) c.timeout)) timeout_not_positive
    then refuse (not (is_one_of c.format known_formats)) (unsupported_format c.format)
    then refuse (int_lt c.max_mutants (pos 0)) negative_max_mutants
    then refuse (std.below_zero c.ci_min_score || std.above_hundred c.ci_min_score)
        score_out_of_range
    then refuse (not (valid_exit_code c.ci_exit_code)) exit_code_out_of_range
    then refuse (int_lt c.workers (pos 0)) negative_workers
