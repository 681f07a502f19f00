-- ===== src/Analysis/Score/Agree.antt =====
-- The two ways in which internal/analysis counts verdicts agree.
use mutation_judge.Base.{
  ℕ, ◌+◌, ◌≡◌, refl, sym, ap, ◌∙◌, true, List, [], ◌∷◌, length, if◌then◌else◌, arith, All,
  Bool-cases, inl, inr,
}
use mutation_judge.Base.Int.{pos, int_inc, int_eq, int_add}
use mutation_judge.Model.{
  Verdict, killed, survived, invalid, timeout, unknown, unsupported, equivalent, other, verdict_eq,
  Result, Summary,
}
use mutation_judge.Model.Validate.{Floats, is_named, no_score}
use mutation_judge.Model.Valid.{with_verdict}
use mutation_judge.Analysis.Score.{
  tallies, no_results, add_verdict, tally, add, add_all, finish, tally_all, summarize,
}

pub tallies_cong :
    {g k s i t u n e k' s' i' t' u' n' e' : ℕ}
    → k ≡ k'
    → s ≡ s'
    → i ≡ i'
    → t ≡ t'
    → u ≡ u'
    → n ≡ n'
    → e ≡ e'
    → tallies g k s i t u n e ≡ tallies g k' s' i' t' u' n' e'
tallies_cong p q r v w x y = rw (p, q, r, v, w, x, y) refl

-- Whether a verdict is the one that is counted.
abbrev hit : Verdict → Verdict → ℕ
hit w v = if verdict_eq v w then 1 else 0

tally_one :
    (v : Verdict) (g k s i t u n e : ℕ)
    → is_named v ≡ true
    → tally v (tallies g k s i t u n e)
      ≡ tallies g
          (k + hit killed v)
          (s + hit survived v)
          (i + hit invalid v)
          (t + hit timeout v)
          (u + hit unknown v)
          (n + hit unsupported v)
          (e + hit equivalent v)
unfolding tally int_inc verdict_eq
tally_one (other x) g k s i t u n e h = absurd (ground arith)
tally_one _ g k s i t u n e h =
    tallies_cong (omega arith) (omega arith) (omega arith) (omega arith) (omega arith) (omega arith)
      (omega arith)

pub tally_all-tallies :
    (rs : List Result) (g k s i t u n e : ℕ)
    → All (λ r. is_named r.verdict ≡ true) rs
    → tally_all rs (tallies g k s i t u n e)
      ≡ tallies g
          (k + with_verdict killed rs)
          (s + with_verdict survived rs)
          (i + with_verdict invalid rs)
          (t + with_verdict timeout rs)
          (u + with_verdict unknown rs)
          (n + with_verdict unsupported rs)
          (e + with_verdict equivalent rs)
unfolding tally_all
tally_all-tallies [] g k s i t u n e h =
    tallies_cong (omega arith) (omega arith) (omega arith) (omega arith) (omega arith) (omega arith)
      (omega arith)
tally_all-tallies (r ∷ rs) g k s i t u n e h =
    ap (tally_all rs) (tally_one r.verdict g k s i t u n e h.0)
    ∙ (tally_all-tallies rs g _ _ _ _ _ _ _ h.1
        ∙ tallies_cong (omega arith) (omega arith) (omega arith) (omega arith) (omega arith)
            (omega arith) (omega arith))

tally_generated :
    (v : Verdict) (s : Summary) (g : ℕ)
    → tally v (record s { generated = pos g }) ≡ record (tally v s) { generated = pos g }
unfolding tally
tally_generated killed s g = refl
tally_generated _ s g = refl

-- The two switches count alike.
add_verdict-tally : (v : Verdict) (s : Summary) → add_verdict v s ≡ tally v s
unfolding add_verdict tally
add_verdict-tally killed s = refl
add_verdict-tally _ s = refl

add_all-tally_all :
    (rs : List Result) (s : Summary) (g : ℕ)
    → add_all rs (record s { generated = pos g })
      ≡ tally_all rs (record s { generated = pos (g + length rs) })
unfolding add_all add tally_all int_inc
add_all-tally_all [] s g = ap (λ n. record s { generated = pos n }) (omega arith)
add_all-tally_all (r ∷ rs) s g =
    ap (add_all rs) (add_verdict-tally r.verdict _ ∙ tally_generated r.verdict s (g + 1))
    ∙ (add_all-tally_all rs (tally r.verdict s) (g + 1)
        ∙ ap (tally_all rs) (
            sym (tally_generated r.verdict s (g + 1 + length rs))
            ∙ ap (λ n. tally r.verdict (record s { generated = pos n })) (omega arith)))

tally-score : (v : Verdict) (s : Summary) → ((tally v s).score ≡ s.score)
unfolding tally
tally-score killed s = refl
tally-score _ s = refl

tally_all-score : (rs : List Result) (s : Summary) → (tally_all rs s).score ≡ s.score
unfolding tally_all
tally_all-score [] s = refl
tally_all-score (r ∷ rs) s = tally_all-score rs (tally r.verdict s) ∙ tally-score r.verdict s

unfoldable pub scored_of : Floats → Summary → Summary
unfolding int_add int_eq
scored_of f s =
    let den = int_add s.killed s.survived in
    if int_eq den (pos 0) then record s { score = 0; score_text = no_score } else record s {
      score = f.percent s.killed den;
      score_text = f.score_text (f.percent s.killed den);
    }

finish-scored_of : (f : Floats) (s : Summary) → s.score ≡ 0 → finish f s ≡ scored_of f s
unfolding finish scored_of
finish-scored_of f s e = elim (Bool-cases (int_eq (int_add s.killed s.survived) (pos 0))) [
  | inl h ↦ rw h (ap (λ x. record s { score = x; score_text = no_score }) e)
  | inr h ↦ rw h refl
]

-- A counter that is given one result after another ends with the summary of the list of them.
pub finish-summarize :
    (f : Floats) (rs : List Result) → finish f (add_all rs no_results) ≡ summarize f rs
unfolding summarize scored_of
finish-summarize f rs =
    let start : Summary = record no_results { generated = pos (length rs) } in
    let same : add_all rs no_results ≡ tally_all rs start =
      add_all-tally_all rs no_results 0
      ∙ ap (λ n. tally_all rs (record no_results { generated = pos n })) (omega arith) in
    ap (finish f) same ∙ finish-scored_of f (tally_all rs start) (tally_all-score rs start)
