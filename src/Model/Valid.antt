-- ===== src/Model/Valid.antt =====
-- What a report that passes internal/model/validate.go is known to satisfy.
use mutation_judge.Base.{
  ℕ, suc, ◌+◌, ◌≤◌, ◌≡◌, ◌≢◌, ◌⊎◌, refl, inl, inr, Bool, true, false, not, ◌||◌, List, [], ◌∷◌,
  Option, none, some, Text, text_eq, text_eq_iff, length, if◌then◌else◌, arith, All, count_if,
  Option-cases,
}
use mutation_judge.Base.Int.{ℤ, pos, int_eq_iff}
use mutation_judge.Model.{
  Verdict, killed, survived, invalid, timeout, unknown, unsupported, equivalent, other, verdict_eq,
  Result, Report,
}
use mutation_judge.Model.Validate.{
  Floats, ReportError, ◌then◌, refuse, is_empty, negative, bad_span, is_named, Counts, bump, see,
  disagrees, validate_header, validate_bounds, validate_result, validate_results, validate_counts,
  validate_score, validate_summary, validate_report,
}

abbrev pub with_verdict : Verdict → List Result → ℕ
with_verdict v = count_if (λ r. verdict_eq r.verdict v)

abbrev pub with_id : Text → List Result → ℕ
with_id id = count_if (λ r. text_eq r.mutation.id id)

-- The results of the seven verdicts.
abbrev pub by_verdict : List Result → ℕ
by_verdict rs =
    with_verdict killed rs
    + with_verdict survived rs
    + with_verdict invalid rs
    + with_verdict timeout rs
    + with_verdict unknown rs
    + with_verdict unsupported rs
    + with_verdict equivalent rs

-- A result with an ID, one of the seven verdicts, a span of the source and a duration.
pub record IsResult (r : Result) : Type 0 where
  pub has_id : r.mutation.id ≢ []
  pub named : is_named r.verdict ≡ true
  pub good_span : bad_span r.mutation.span ≡ false
  pub duration : negative r.duration_ms ≡ false

pub record IsConsistent (r : Report) : Type 0 where
  pub results_ok : All IsResult r.results
  pub distinct : (id : Text) → with_id id r.results ≤ 1
  pub generated_ok : r.summary.generated ≡ pos (length r.results)
  pub killed_ok : r.summary.killed ≡ pos (with_verdict killed r.results)
  pub survived_ok : r.summary.survived ≡ pos (with_verdict survived r.results)
  pub invalid_ok : r.summary.invalid ≡ pos (with_verdict invalid r.results)
  pub timeout_ok : r.summary.timeout ≡ pos (with_verdict timeout r.results)
  pub unknown_ok : r.summary.unknown ≡ pos (with_verdict unknown r.results)
  pub unsupported_ok : r.summary.unsupported ≡ pos (with_verdict unsupported r.results)
  pub equivalent_ok : r.summary.equivalent ≡ pos (with_verdict equivalent r.results)
  pub all_counted : by_verdict r.results ≡ length r.results

refuse_then {ℓ} :
    {E : Type ℓ} (b : Bool) (e : E) (rest : Option E)
    → (refuse b e then rest) ≡ none
    → (b ≡ false) × (rest ≡ none)
refuse_then true e rest h = absurd (ground (arith, h))
refuse_then false e rest h = (refl, h)

refuse_last {ℓ} : {E : Type ℓ} (b : Bool) (e : E) → refuse b e ≡ none → b ≡ false
refuse_last b e h = ground (arith, h)

is_empty-false {ℓ} : {A : Type ℓ} (xs : List A) → is_empty xs ≡ false → xs ≢ []
is_empty-false xs h e = ground (arith, h, e)

validate_result-IsResult :
    (seen : Text → Bool) (r : Result)
    → validate_result seen r ≡ none
    → IsResult r × (seen r.mutation.id ≡ false)
unfolding validate_result
validate_result-IsResult seen r h =
    let (id, h1) = refuse_then (is_empty r.mutation.id) _ _ h in
    let (fresh, h2) = refuse_then (seen r.mutation.id) _ _ h1 in
    let (named, h3) = refuse_then (not (is_named r.verdict)) _ _ h2 in
    let (span, h4) = refuse_then (bad_span r.mutation.span) _ _ h3 in
    let (op, h5) =
      refuse_then (is_empty r.mutation.operator || is_empty r.mutation.rule_id) _ _ h4 in
    let (diagnostic, h6) =
      refuse_then (is_empty r.diagnostic.id || is_empty r.diagnostic.statement) _ _ h5 in
    (
      record {
        has_id = is_empty-false r.mutation.id id;
        named = ground (arith, named);
        good_span = span;
        duration = refuse_last (negative r.duration_ms) _ h6;
      },
      fresh,
    )

-- What the loop over the results has found when it ends.
pub record Loop (seen : Text → Bool) (counts found : Counts) (rs : List Result) : Type 0 where
  pub each : All IsResult rs
  pub once : (id : Text) → with_id id rs ≤ (if seen id then 0 else 1)
  pub total : (v : Verdict) → found v ≡ counts v + with_verdict v rs

pub validate_results-Loop :
    (i : ℕ) (seen : Text → Bool) (counts found : Counts) (rs : List Result)
    → validate_results i seen counts rs ≡ inr found
    → Loop seen counts found rs
unfolding validate_results
validate_results-Loop i seen counts found [] h = record {
  each = tt;
  once = λ id. ground arith;
  total = λ v. let same : counts ≡ found = cc in rw (← same) (omega arith);
}
validate_results-Loop i seen counts found (r ∷ rs) h =
    elim (Option-cases (validate_result seen r)) [
      | inr (e, q) ↦ absurd (let bad = rw (q, validate_results) at h in cc)
      | inl q ↦
          let (good, fresh) = validate_result-IsResult seen r q in
          let rest =
            validate_results-Loop (i + 1) (see r.mutation.id seen) (bump r.verdict counts) found rs
              (rw (q, validate_results) at h) in
          record {
            each = (good, rest.each);
            once = λ id. ground (arith, rest.once id, fresh, text_eq_iff r.mutation.id id);
            total = λ v. ground (arith, rest.total v);
          }
    ]

one_verdict :
    (v : Verdict) (r : Result) (rs : List Result)
    → r.verdict ≡ v
    → is_named v ≡ true
    → by_verdict (r ∷ rs) ≡ suc (by_verdict rs)
unfolding verdict_eq
one_verdict (other t) r rs e n = absurd (ground arith)
one_verdict _ r rs e n = rw e (omega arith)

by_verdict-length : (rs : List Result) → All IsResult rs → by_verdict rs ≡ length rs
by_verdict-length [] h = omega arith
by_verdict-length (r ∷ rs) h =
    omega (arith, one_verdict r.verdict r rs refl h.0.named, by_verdict-length rs h.1)

then_none {ℓ} : {E : Type ℓ} (a b : Option E) → (a then b) ≡ none → (a ≡ none) × (b ≡ none)
then_none none b h = (refl, h)
then_none (some e) b h = absurd (ground (arith, h))

agrees : (a : ℤ) (n : ℕ) → disagrees a n ≡ false → a ≡ pos n
agrees a n h = (int_eq_iff a (pos n)).0 (ground (arith, h))

summary_IsConsistent :
    (f : Floats) (r : Report) (loop : ReportError ⊎ Counts)
    → validate_results 0 (λ _. false) (λ _. 0) r.results ≡ loop
    → validate_summary f r loop ≡ none
    → IsConsistent r
unfolding validate_counts
summary_IsConsistent f r (inl e) q h = absurd (ground (arith, h))
summary_IsConsistent f r (inr counts) q h =
    let loop = validate_results-Loop 0 (λ _. false) (λ _. 0) counts r.results q in
    let (c, score) =
      then_none (validate_counts r.summary (length r.results) counts) (validate_score f r.summary)
        h in
    let total = loop.total in
    record {
      results_ok = loop.each;
      distinct = λ id. loop.once id;
      generated_ok = agrees r.summary.generated (length r.results) (ground (arith, c));
      killed_ok = agrees r.summary.killed _ (ground (arith, c, total killed));
      survived_ok = agrees r.summary.survived _ (ground (arith, c, total survived));
      invalid_ok = agrees r.summary.invalid _ (ground (arith, c, total invalid));
      timeout_ok = agrees r.summary.timeout _ (ground (arith, c, total timeout));
      unknown_ok = agrees r.summary.unknown _ (ground (arith, c, total unknown));
      unsupported_ok = agrees r.summary.unsupported _ (ground (arith, c, total unsupported));
      equivalent_ok = agrees r.summary.equivalent _ (ground (arith, c, total equivalent));
      all_counted = by_verdict-length r.results loop.each;
    }

-- A report that is accepted has results with IDs, named verdicts, spans and durations, no two of them
-- with one ID; its summary has the number of results of each verdict, and these are all of them.
pub validate_report-IsConsistent :
    (f : Floats) (r : Report) → validate_report f r ≡ none → IsConsistent r
unfolding validate_report
validate_report-IsConsistent f r h =
    let loop = validate_results 0 (λ _. false) (λ _. 0) r.results in
    let (header, h1) =
      then_none (validate_header r) (validate_bounds f r then validate_summary f r loop) h in
    let (bounds, h2) = then_none (validate_bounds f r) (validate_summary f r loop) h1 in
    summary_IsConsistent f r loop refl h2
