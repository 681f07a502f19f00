-- ===== src/Analysis/Score/Accepted.antt =====
-- The summary that internal/analysis computes is the one that internal/model/validate.go expects.
use mutation_judge.Base.{
  ℕ, ◌+◌, ◌≡◌, ◌≤◌, ◌<◌, refl, ap, ◌∙◌, true, false, List, [], ◌∷◌, none, inl, inr, text_eq_refl,
  length, ltb, ◌==◌, arith, All, Bool-cases,
}
use mutation_judge.Base.Int.{pos, int_eq, int_lt, int_add}
use mutation_judge.Model.{
  Verdict, killed, survived, invalid, timeout, unknown, unsupported, equivalent, Result, Report,
}
use mutation_judge.Model.Validate.{
  Floats, Counts, is_named, expected_score, validate_header, validate_bounds, validate_results,
  validate_counts, validate_score, validate_report,
}
use mutation_judge.Model.Valid.{with_verdict, IsResult, validate_results-Loop}
use mutation_judge.Analysis.Score.{tallies, summarize}
use mutation_judge.Analysis.Score.Agree.{scored_of, tally_all-tallies, tallies_cong}

-- A percentage is a number, and so is zero: the tolerance accepts it for itself.
pub record IsLawful (f : Floats) : Type 0 where
  pub close_percent :
      (a b : ℕ)
      → a ≤ b
      → 0 < b
      → f.is_close (f.percent (pos a) (pos b)) (f.percent (pos a) (pos b)) ≡ true
  pub close_zero : f.is_close 0 0 ≡ true

named-All : (rs : List Result) → All IsResult rs → All (λ r. is_named r.verdict ≡ true) rs
named-All [] h = tt
named-All (r ∷ rs) h = (h.0.named, named-All rs h.1)

module _ (f : Floats) (law : IsLawful f) where
  scored_of-valid_score :
      (g k s i t u n e : ℕ) → validate_score f (scored_of f (tallies g k s i t u n e)) ≡ none
  unfolding validate_score expected_score scored_of int_add int_lt int_eq
  scored_of-valid_score g k s i t u n e = elim (Bool-cases (k + s == 0)) [
    | inl h ↦
        let none_left : ltb 0 (k + s) ≡ false = ground arith in
        rw (h, none_left, law.close_zero) refl
    | inr h ↦
        let some_left : ltb 0 (k + s) ≡ true = ground arith in
        rw
          (
            h,
            some_left,
            law.close_percent k (k + s) (omega arith) (ground arith),
            text_eq_refl (f.score_text (f.percent (pos k) (pos (k + s)))),
          )
          refl
  ]

  scored_of-valid_counts :
      (g k s i t u n e : ℕ) (counts : Counts)
      → counts killed ≡ k
      → counts survived ≡ s
      → counts invalid ≡ i
      → counts timeout ≡ t
      → counts unknown ≡ u
      → counts unsupported ≡ n
      → counts equivalent ≡ e
      → validate_counts (scored_of f (tallies g k s i t u n e)) g counts ≡ none
  unfolding validate_counts scored_of int_add int_lt int_eq
  scored_of-valid_counts g k s i t u n e counts a b c d p q r = elim (Bool-cases (k + s == 0)) [
    | inl h ↦ rw h (ground arith)
    | inr h ↦ rw h (ground arith)
  ]

  summarize-tallies :
      (rs : List Result)
      → All IsResult rs
      → summarize f rs
        ≡ scored_of f (
            tallies
              (length rs)
              (with_verdict killed rs)
              (with_verdict survived rs)
              (with_verdict invalid rs)
              (with_verdict timeout rs)
              (with_verdict unknown rs)
              (with_verdict unsupported rs)
              (with_verdict equivalent rs))
  unfolding summarize scored_of
  summarize-tallies rs h = ap (scored_of f) (
      tally_all-tallies rs (length rs) 0 0 0 0 0 0 0 (named-All rs h)
      ∙ tallies_cong (omega arith) (omega arith) (omega arith) (omega arith) (omega arith)
          (omega arith) (omega arith))

  -- A report whose summary is the one that the engine computes from its results is accepted, where its
  -- header, its bounds and its results are.
  pub summarize-accepted :
      (r : Report) (counts : Counts)
      → validate_header r ≡ none
      → validate_bounds f r ≡ none
      → validate_results 0 (λ _. false) (λ _. 0) r.results ≡ inr counts
      → r.summary ≡ summarize f r.results
      → validate_report f r ≡ none
  unfolding validate_report
  summarize-accepted r counts header bounds results same =
      let loop = validate_results-Loop 0 (λ _. false) (λ _. 0) counts r.results results in
      let total : (v : Verdict) → counts v ≡ with_verdict v r.results =
        λ v. omega (arith, loop.total v) in
      let summary = same ∙ summarize-tallies r.results loop.each in
      let counted : validate_counts r.summary (length r.results) counts ≡ none =
        ap (λ s. validate_counts s (length r.results) counts) summary
        ∙ scored_of-valid_counts (length r.results) _ _ _ _ _ _ _ counts (total killed)
            (total survived) (total invalid) (total timeout) (total unknown) (total unsupported)
            (total equivalent) in
      let scored : validate_score f r.summary ≡ none =
        ap (validate_score f) summary ∙ scored_of-valid_score (length r.results) _ _ _ _ _ _ _ in
      rw (header, bounds, results, counted, scored) refl
