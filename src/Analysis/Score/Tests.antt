-- ===== src/Analysis/Score/Tests.antt =====
-- A report with one killed and one surviving mutant, and the theorems on scores and validation at it.
use mutation_judge.Base.{
  ◌≡◌, refl, true, false, List, [], ◌∷◌, none, some, inr, Text, codes, text_eq, arith, ◌==◌,
}
use mutation_judge.Base.Blank.{blank_from}
use mutation_judge.Base.Int.{pos, negsuc, int_eq, int_lt}
use mutation_judge.Model.{Verdict, killed, survived, int, Result, Report, schema_version}
use mutation_judge.Model.Validate.{
  Floats, Counts, bump, bound, lookup, nonnegative_integer, any_blank, validate_header,
  validate_bounds, validate_result, validate_results, validate_report,
}
use mutation_judge.Model.Valid.{IsConsistent, validate_report-IsConsistent}
use mutation_judge.Analysis.Score.{no_results, add_all, finish, summarize}
use mutation_judge.Analysis.Score.Agree.{finish-summarize}
use mutation_judge.Analysis.Score.Accepted.{IsLawful, summarize-accepted}

-- Percentages rounded down, compared exactly.
abbrev whole_percents : Floats
whole_percents = record {
  percent = λ a b. elim a [ pos n ↦ n | negsuc n ↦ 0 ];
  score_text = λ x. x ∷ [];
  is_close = λ x y. x == y;
  whole = λ x. some x;
}

whole_percents-IsLawful : IsLawful whole_percents
whole_percents-IsLawful = record { close_percent = λ a b h k. ground arith; close_zero = refl }

abbrev result_of : Text → Verdict → Result
result_of id v = record {
  mutation = record {
    id = id;
    operator = codes "boundary";
    rule_id = codes "B1";
    span = record {
      file = codes "x.go";
      start_byte = pos 3;
      end_byte = pos 4;
      start_line = pos 1;
      start_col = pos 4;
      end_line = pos 1;
      end_col = pos 5;
    };
    original = codes "<";
    replacement = codes "<=";
    description = [];
    suggestion = [];
    diff = [];
    equivalent_reason = [];
  };
  verdict = v;
  responsible = [];
  assertions = [];
  panics = [];
  covered = true;
  coverage_known = true;
  cached = false;
  duration_ms = pos 7;
  output = [];
  output_truncated = false;
  diagnostic = record {
    id = codes "D";
    location = record {
      file = codes "x.go";
      start_byte = pos 3;
      end_byte = pos 4;
      start_line = pos 1;
      start_col = pos 4;
      end_line = pos 1;
      end_col = pos 5;
    };
    statement = codes "s";
    evidence = [];
    assumptions = [];
    suggestion = [];
  };
}

abbrev two_results : List Result
two_results = result_of (codes "M-1") killed ∷ result_of (codes "M-2") survived ∷ []

abbrev report : Report
report = record {
  schema_version = schema_version;
  tool_version = codes "1";
  go_version = codes "1";
  generated_at = pos 9;
  complete = true;
  patterns = codes "./..." ∷ [];
  effective_config = some ((codes "workers", int (pos 1)) ∷ []);
  bounds = some (
      (codes "discovered_before_bound", int (pos 2))
      ∷ (codes "retained_after_bound", int (pos 2))
      ∷ (codes "completed_mutants", int (pos 2))
      ∷ []);
  semantics = some (codes "s" ∷ []);
  warnings = [];
  summary = summarize whole_percents two_results;
  results = two_results;
  timing = record {
    parsing_ms = pos 0;
    baseline_ms = pos 0;
    execution_ms = pos 0;
    rendering_ms = pos 0;
    total_ms = pos 0;
  };
}

abbrev found : Counts
found = bump survived (bump killed (λ _. 0))

header_ok : validate_header report ≡ none
unfolding validate_header blank_from text_eq int_eq int_lt any_blank
header_ok = refl

bounds_ok : validate_bounds whole_percents report ≡ none
unfolding validate_bounds bound lookup nonnegative_integer text_eq
bounds_ok = refl

results_ok : validate_results 0 (λ _. false) (λ _. 0) two_results ≡ inr found
unfolding validate_results validate_result int_lt text_eq
results_ok = refl

summarize-accepted_example : validate_report whole_percents report ≡ none
summarize-accepted_example =
    summarize-accepted whole_percents whole_percents-IsLawful report found header_ok bounds_ok
      results_ok refl

report_ok : validate_report whole_percents report ≡ none
report_ok =
    summarize-accepted whole_percents whole_percents-IsLawful report found header_ok bounds_ok
      results_ok refl

validate_report-IsConsistent_example : IsConsistent report
validate_report-IsConsistent_example = validate_report-IsConsistent whole_percents report report_ok

finish-summarize_example :
    finish whole_percents (add_all two_results no_results) ≡ summarize whole_percents two_results
finish-summarize_example = finish-summarize whole_percents two_results
