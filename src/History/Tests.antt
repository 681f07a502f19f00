-- ===== src/History/Tests.antt =====
-- A log with one entry, and one with a broken line.
use mutation_judge.Base.{◌≡◌, refl, true, false, List, [], ◌∷◌, subst, none, some, codes, text_eq}
use mathlib.Core.Option.{some-injective}
use mutation_judge.Base.Int.{pos}
use mutation_judge.Base.Outcome.{ok, fail}
use mutation_judge.Base.Trim.{skip_space, cut_space}
use mutation_judge.GitDiff.RoundTrip.{unlines}
use mutation_judge.GitDiff.Scan.{drop_cr}
use mutation_judge.History.{Entry, Codec, Env, append, read, bad_line}
use mutation_judge.History.Reading.{
  IsEncoded, AllEncoded, append_all, read-append_all, read-bad_line,
}

abbrev first_run : Entry
first_run = record {
  time = pos 5;
  label = codes "PR 1";
  score = 0;
  score_text = codes "0%";
  generated = pos 1;
  killed = pos 0;
  survived = pos 1;
  invalid = pos 0;
  timeout = pos 0;
  unknown = pos 0;
  unsupported = pos 0;
  equivalent = pos 0;
  complete = true;
  discovered = pos 1;
  retained = pos 1;
  completed = pos 1;
  patterns = [];
  working_directory = [];
  operator_semantics = [];
  operator_selection = none;
  test_run = none;
  coverage_selection = none;
  narrow_test_scope = none;
}

-- A codec that knows this entry, as one text.
abbrev one_entry : Codec
one_entry = record {
  marshal = λ e. some (codes "{}");
  unmarshal = λ t. elim (text_eq t (codes "{}")) [ true ↦ some first_run | false ↦ none ];
}

abbrev all_well : Env
all_well = record { can_mkdir = true; can_open = true; written = none }

first_run-IsEncoded : IsEncoded one_entry first_run (codes "{}")
unfolding skip_space cut_space drop_cr text_eq
first_run-IsEncoded = record {
  one_line = (refl, (refl, tt));
  trimmed = refl;
  there = refl;
  short = refl;
  reads_back = refl;
}

abbrev one_run : List (Env × Entry)
one_run = (all_well, first_run) ∷ []

one_run-AllEncoded : AllEncoded one_entry one_run
one_run-AllEncoded =
    (λ t e. subst (IsEncoded one_entry first_run) (some-injective _ _ e) first_run-IsEncoded, tt)

read-append_all_example :
    read one_entry true (append_all one_entry none one_run).0 ≡ ok (first_run ∷ [])
unfolding append append_all
read-append_all_example = read-append_all one_entry one_run one_run-AllEncoded refl

read-bad_line_example :
    read one_entry true (some (unlines (codes "{}" ∷ codes "x" ∷ []))) ≡ fail (bad_line 2)
unfolding drop_cr skip_space cut_space text_eq
read-bad_line_example =
    read-bad_line one_entry one_run (codes "{}" ∷ []) (codes "x") [] one_run-AllEncoded (refl, tt)
      (((refl, tt), refl), tt) refl refl refl
