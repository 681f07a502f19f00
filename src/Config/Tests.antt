-- ===== src/Config/Tests.antt =====
-- Files that are read, and files that are refused.
use mutation_judge.Base.{
  ◌≡◌, ◌↔◌, map, refl, arith, text_eq, true, false, List, [], ◌∷◌, ◌++◌, none, some, Text, codes,
}
use mutation_judge.Base.Int.{pos, int_lt}
use mutation_judge.Base.Outcome.{ok, ◌>>=◌}
use mutation_judge.Config.{
  Std, default_config, unknown_in, is_one_of, valid_exit_code, validate, exit_code_out_of_range,
}
use mutation_judge.Model.Validate.{parse_int}
use mutation_judge.Config.Load.{load, checked, test_run, workers}
use mutation_judge.Config.Valid.{IsValid, validate-IsValid, load-IsValid}
use mutation_judge.Config.Written.{Entry, scalar, list, entry_line, apply_all, load-written}
use mutation_judge.Config.Block.{block_lines, load-block}
use mutation_judge.Config.Find.{Dir, content, absent, load_found, find_and_load}
use mutation_judge.Config.Nearest.{find_and_load-nearest}
use mutation_judge.GitDiff.RoundTrip.{unlines}
use mutation_judge.GitDiff.Scan.{drop_cr}

abbrev std : Std
std = record {
  unquote = λ t. none;
  parse_duration = λ t. some (pos 5);
  duration_text = λ d. codes "5ns";
  parse_float = λ t. none;
  below_zero = λ x. false;
  above_hundred = λ x. false;
}

abbrev newline : Text
newline = b'\n' ∷ []

toml_run :
    load std false
      (codes "# run"
        ++ (newline ++ (codes "test_run = 'a = #1' # only" ++ (newline ++ codes "workers=3"))))
      default_config
    ≡ ok (record default_config { test_run = codes "a = #1"; workers = pos 3 })
unfolding load default_config parse_int unknown_in int_lt valid_exit_code
toml_run = refl

yaml_run :
    load std true
      (codes "operators:"
        ++ (newline
            ++ (codes "  - loop"
                ++ (newline ++ (codes "  - 'switch'" ++ (newline ++ codes "cache: false"))))))
      default_config
    ≡ ok (record default_config { operators = codes "loop" ∷ codes "switch" ∷ []; cache = false })
unfolding load default_config unknown_in int_lt valid_exit_code
yaml_run = refl

validate_example : (validate std default_config ≡ none) ↔ IsValid std default_config
validate_example = validate-IsValid std default_config

validate_default : validate std default_config ≡ none
unfolding validate default_config unknown_in int_lt valid_exit_code is_one_of text_eq
validate_default = refl

exit_code_126 :
    validate std (record default_config { ci_exit_code = pos 126 }) ≡ some exit_code_out_of_range
unfolding validate default_config unknown_in int_lt valid_exit_code is_one_of text_eq
exit_code_126 = refl

load-IsValid_example :
    IsValid std (record default_config { test_run = codes "a = #1"; workers = pos 3 })
load-IsValid_example =
    load-IsValid std false
      (codes "# run"
        ++ (newline ++ (codes "test_run = 'a = #1' # only" ++ (newline ++ codes "workers=3"))))
      default_config (record default_config { test_run = codes "a = #1"; workers = pos 3 }) toml_run

abbrev entries : List Entry
entries = scalar test_run (codes "a = \"#1") ∷ scalar workers (codes "3") ∷ []

load-written_example :
    load std false (unlines (map (entry_line b'=') entries)) default_config
    ≡ (apply_all std 1 default_config entries >>= checked std)
unfolding drop_cr
load-written_example = load-written std false entries default_config (ground arith) (ground arith)

load-block_example :
    load std true
      (unlines (
        map (entry_line b':') (scalar workers (codes "3") ∷ [])
        ++ block_lines (codes "loop") (codes "switch" ∷ [])))
      default_config
    ≡ load std true
        (unlines (
          map (entry_line b':') (scalar workers (codes "3") ∷ [])
          ++ entry_line b':' (list (codes "loop") (codes "switch" ∷ [])) ∷ []))
        default_config
unfolding drop_cr
load-block_example =
    load-block std (scalar workers (codes "3") ∷ []) (codes "loop") (codes "switch" ∷ [])
      default_config (ground arith) (ground arith) (ground arith) (ground arith)

abbrev root : Dir
root name = elim (text_eq name (codes ".mutation-judge.toml")) [
  | true ↦ content (codes "workers = 3")
  | false ↦ absent
]

abbrev nothing_there : Dir
nothing_there name = absent

find_and_load_example : find_and_load std 0 (nothing_there ∷ root ∷ []) ≡ (
  load_found std (codes ".mutation-judge.toml") (content (codes "workers = 3")),
  some (1, codes ".mutation-judge.toml"),
)
unfolding text_eq
find_and_load_example =
    find_and_load-nearest std 0 (nothing_there ∷ []) root [] (codes "mutation-judge.toml" ∷ [])
      (codes ".mutation-judge.toml")
      (codes "mutation-judge.yaml"
        ∷ codes ".mutation-judge.yaml"
        ∷ codes "mutation-judge.yml"
        ∷ codes ".mutation-judge.yml"
        ∷ [])
      (ground arith) refl (refl, tt) refl
