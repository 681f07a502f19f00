-- ===== src/Compare/Tests.antt =====
-- Two reports at which the theorems about `Compare` are applied, and runs of the code on them.
use mutation_judge.Base.{
  ℕ, ◌+◌, ◌++◌, ◌≡◌, refl, true, false, ◌&&◌, List, [], ◌∷◌, none, some, Text, codes, text_eq,
  if◌then◌else◌, count_if, length, All, split,
}
use mutation_judge.Base.Int.{pos, int_eq, int_lt}
use mutation_judge.Base.Sort.{IsSorted}
use mutation_judge.Model.{
  Span, Mutation, Result, Summary, Report, Timing, Diagnostic, Verdict, killed, survived, timeout,
  verdict_eq,
}
use mutation_judge.Compare.{
  by_id, by_id_onto, location_less, sorted, collect, consider, consider_all, classify,
}
use mutation_judge.Compare.Buckets.{new, fixed, entries, is_in, bucket_of, mem}
use mutation_judge.Compare.Partition.{
  all_ids, size, distinct, compare-bucket, compare-size, compare-entries, Carries,
}
use mutation_judge.Compare.Correlate.{Correlates, Has, compare-Correlates, compare-Has}
use mutation_judge.Compare.Shift.{compare, candidate, shift_fingerprint}

abbrev span_at : ℕ → Span
span_at l = record {
  file = codes "a.go";
  start_byte = pos l;
  end_byte = pos (l + 1);
  start_line = pos l;
  start_col = pos 7;
  end_line = pos l;
  end_col = pos 8;
}

abbrev diagnostic_at : ℕ → Diagnostic
diagnostic_at l = record {
  id = [];
  location = span_at l;
  statement = [];
  evidence = [];
  assumptions = [];
  suggestion = [];
}

abbrev mutant : Text → ℕ → Text → Mutation
mutant id l old = record {
  id = id;
  operator = codes "boundary";
  rule_id = codes "gt";
  span = span_at l;
  original = codes ">";
  replacement = codes ">=";
  description = [];
  suggestion = [];
  diff = codes "--- a/a.go\n+++ b/a.go\n@@ -1,1 +1,1 @@\n-" ++ (old ++ codes "\n+changed\n");
  equivalent_reason = [];
}

abbrev result : Text → ℕ → Text → Verdict → Result
result id l old v = record {
  mutation = mutant id l old;
  verdict = v;
  responsible = [];
  assertions = [];
  panics = [];
  covered = true;
  coverage_known = true;
  cached = false;
  duration_ms = pos 1;
  output = [];
  output_truncated = false;
  diagnostic = diagnostic_at l;
}

abbrev summary : Summary
summary = record {
  generated = pos 0;
  killed = pos 0;
  survived = pos 0;
  invalid = pos 0;
  timeout = pos 0;
  unknown = pos 0;
  unsupported = pos 0;
  equivalent = pos 0;
  score = 0;
  score_text = [];
}

abbrev timing : Timing
timing = record {
  parsing_ms = pos 0;
  baseline_ms = pos 0;
  execution_ms = pos 0;
  rendering_ms = pos 0;
  total_ms = pos 0;
}

abbrev report : List Result → Report
report rs = record {
  schema_version = codes "mutation-judge.report/v1";
  tool_version = codes "1";
  go_version = codes "go1.22";
  generated_at = pos 1;
  complete = true;
  patterns = codes "./..." ∷ [];
  effective_config = some [];
  bounds = some [];
  semantics = some [];
  warnings = [];
  summary = summary;
  results = rs;
  timing = timing;
}

-- `M-1` moved from line 3 to line 9 as `M-2`; `M-3` was fixed; `M-4` timed out and now survives.
abbrev moved_before : Result
moved_before = result (codes "M-1") 3 (codes "if n > 0 {") killed

abbrev moved_after : Result
moved_after = result (codes "M-2") 9 (codes "if n > 0 {") survived

abbrev before : Report
before = report (
    moved_before
    ∷ result (codes "M-3") 5 (codes "x") survived
    ∷ result (codes "M-4") 6 (codes "y") timeout
    ∷ [])

abbrev after : Report
after = report (
    moved_after
    ∷ result (codes "M-3") 5 (codes "x") killed
    ∷ result (codes "M-4") 6 (codes "y") survived
    ∷ [])

compare_new :
    entries new (compare before after)
    ≡ record {
      id = codes "M-4";
      baseline = some (result (codes "M-4") 6 (codes "y") timeout);
      current = some (result (codes "M-4") 6 (codes "y") survived);
    }
      ∷ record { id = codes "M-2"; baseline = none; current = some moved_after }
      ∷ []
unfolding compare sorted collect consider_all consider text_eq classify by_id_onto verdict_eq int_eq
    int_lt
compare_new = refl

-- `M-1` is gone and `M-2` is new, with one fingerprint.
compare_shifted :
    (compare before after).likely_shifted
    ≡ candidate (codes "M-1") (codes "M-2") moved_before moved_after ∷ []
unfolding compare sorted collect consider_all consider text_eq classify by_id_onto verdict_eq int_eq
    int_lt shift_fingerprint split
compare_shifted = refl

compare-bucket_example :
    count_if (λ md. text_eq md.id (codes "M-3")) (entries fixed (compare before after)) ≡ (
      if mem (codes "M-3") (all_ids before after)
        && is_in fixed
            (bucket_of (by_id before.results (codes "M-3")) (by_id after.results (codes "M-3")))
      then 1
      else 0)
compare-bucket_example = compare-bucket before after fixed (codes "M-3")

compare-size_example : size (compare before after) ≡ length (distinct (all_ids before after))
compare-size_example = compare-size before after

compare-entries_example :
    IsSorted location_less (entries new (compare before after))
    × All
        (Carries (by_id before.results) (by_id after.results))
        (entries new (compare before after))
compare-entries_example = compare-entries before after new

compare-Correlates_example :
    All
      (Correlates (compare before after).removed_mutants (compare before after).new_survivors)
      (compare before after).likely_shifted
compare-Correlates_example = compare-Correlates before after

compare-Has_example :
    Has
      (candidate (codes "M-1") (codes "M-2") moved_before moved_after)
      (compare before after).likely_shifted
unfolding compare sorted collect consider_all consider text_eq classify by_id_onto verdict_eq int_eq
    int_lt shift_fingerprint split
compare-Has_example =
    compare-Has before after (shift_fingerprint moved_before.mutation)
      (record { id = codes "M-1"; baseline = some moved_before; current = none })
      (record { id = codes "M-2"; baseline = none; current = some moved_after }) moved_before
      moved_after refl refl refl refl
