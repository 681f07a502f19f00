-- ===== src/Config/Valid.antt =====
-- What `Validate` of internal/config/config.go lets pass.
use mutation_judge.Base.{
  ℕ, ◌≤◌, ◌≡◌, ◌≢◌, ◌↔◌, refl, Bool, true, false, List, [], ◌∷◌, Option, none, some, Text, All,
  arith, Bool-cases, inl, inr, not, ◌||◌, Option-cases, subst, map, if◌then◌else◌,
}
use mutation_judge.Base.Int.{ℤ, pos, negsuc, int_lt}
use mutation_judge.Base.Outcome.{Outcome, ok, fail, ◌>>=◌}
use mutation_judge.Model.Validate.{◌then◌, refuse, is_empty}
use mutation_judge.Config.{
  Config, Std, known_operators, known_formats, is_one_of, unknown_in, no_operator,
  negative_preparation_or_total, timeout_not_positive, unsupported_format, negative_max_mutants,
  score_out_of_range, exit_code_out_of_range, negative_workers, valid_exit_code, validate,
}
use mutation_judge.Config.Load.{load, load_lines, any_long, LoadError, too_long, checked}
use mutation_judge.GitDiff.Scan.{raw_lines, drop_cr}

-- A whole number from the first to the second.
abbrev pub InRange : ℕ → ℕ → ℤ → Type 0
InRange low high x = (n : ℕ) × (x ≡ pos n) × (low ≤ n) × (n ≤ high)

abbrev pub AtLeast : ℕ → ℤ → Type 0
AtLeast low x = (n : ℕ) × (x ≡ pos n) × (low ≤ n)

pub record IsValid (std : Std) (c : Config) : Type 0 where
  pub has_operator : c.operators ≢ []
  pub operators_known : All (λ o. is_one_of o known_operators ≡ true) c.operators
  pub preparation : AtLeast 0 c.preparation_timeout
  pub total : AtLeast 0 c.total_timeout
  pub timeout : AtLeast 1 c.timeout
  pub format_known : is_one_of c.format known_formats ≡ true
  pub max_mutants : AtLeast 0 c.max_mutants
  pub score_low : std.below_zero c.ci_min_score ≡ false
  pub score_high : std.above_hundred c.ci_min_score ≡ false
  pub exit_code : InRange 1 125 c.ci_exit_code
  pub workers : AtLeast 0 c.workers

-- Two checks in a row, and one check, pass exactly where their conditions hold.
both {ℓ κ μ} :
    {E : Type ℓ} {P : Type κ} {Q : Type μ} {a b : Option E}
    → (a ≡ none) ↔ P
    → (b ≡ none) ↔ Q
    → ((a then b) ≡ none) ↔ (P × Q)
both {a = none} p q = (λ h. (p.0 refl, q.0 h), λ h. q.1 h.1)
both {a = some e} p q = (λ h. absurd (ground (arith, h)), λ h. absurd (ground (arith, p.1 h.0)))

passes {ℓ κ} :
    {E : Type ℓ} {P : Type κ} {b : Bool} (e : E) → (b ≡ false) ↔ P → (refuse b e ≡ none) ↔ P
passes {b = true} e p = (λ h. absurd (ground (arith, h)), λ h. absurd (ground (arith, p.1 h)))
passes {b = false} e p = (λ h. p.0 refl, λ h. refl)

neither {ℓ κ} :
    {P : Type ℓ} {Q : Type κ} {a b : Bool}
    → (a ≡ false) ↔ P
    → (b ≡ false) ↔ Q
    → ((a || b) ≡ false) ↔ (P × Q)
neither {a = true} p q = (λ h. absurd (ground (arith, h)), λ h. absurd (ground (arith, p.1 h.0)))
neither {a = false} p q = (λ h. (p.0 refl, q.0 h), λ h. q.1 h.1)

same {ℓ} : {P : Type ℓ} → P ↔ P
same = (λ h. h, λ h. h)

known_iff : (b : Bool) → (not b ≡ false) ↔ (b ≡ true)
known_iff true = ground arith
known_iff false = ground arith

negative_iff : (x : ℤ) → (int_lt x (pos 0) ≡ false) ↔ AtLeast 0 x
unfolding int_lt
negative_iff (pos n) = (λ h. (n, refl, ground arith), λ h. ground arith)
negative_iff (negsuc n) = (λ h. absurd (ground arith), λ (m, e, l). absurd (ground arith))

positive_iff : (x : ℤ) → (not (int_lt (pos 0) x) ≡ false) ↔ AtLeast 1 x
unfolding int_lt
positive_iff (pos n) = (λ h. (n, refl, ground arith), λ (m, e, l). ground arith)
positive_iff (negsuc n) = (λ h. absurd (ground arith), λ (m, e, l). absurd (ground arith))

exit_code_iff : (x : ℤ) → (not (valid_exit_code x) ≡ false) ↔ InRange 1 125 x
unfolding valid_exit_code int_lt
exit_code_iff (pos n) = (λ h. (n, refl, ground arith, ground arith), λ (m, e, l, k). ground arith)
exit_code_iff (negsuc n) = (λ h. absurd (ground arith), λ (m, e, l, k). absurd (ground arith))

empty_iff {ℓ} : {A : Type ℓ} (xs : List A) → (is_empty xs ≡ false) ↔ (xs ≢ [])
empty_iff [] = (λ h. absurd (ground arith), λ h. absurd (h refl))
empty_iff (x ∷ xs) = (λ h. ground arith, λ h. refl)

unknown_in_iff :
    (os : List Text) → (unknown_in os ≡ none) ↔ All (λ o. is_one_of o known_operators ≡ true) os
unfolding unknown_in
unknown_in_iff [] = (λ h. tt, λ h. refl)
unknown_in_iff (o ∷ os) = elim (Bool-cases (is_one_of o known_operators)) [
  | inl e ↦
      rw (e, unknown_in) (λ h. (refl, (unknown_in_iff os).0 h), λ h. (unknown_in_iff os).1 h.1)
  | inr e ↦ ground (arith, e)
]

validate_iff :
    (std : Std) (c : Config)
    → (validate std c ≡ none) ↔ (
        c.operators ≢ []
        × (All (λ o. is_one_of o known_operators ≡ true) c.operators
            × ((AtLeast 0 c.preparation_timeout × AtLeast 0 c.total_timeout)
                × (AtLeast 1 c.timeout
                    × ((is_one_of c.format known_formats ≡ true)
                        × (AtLeast 0 c.max_mutants
                            × (((std.below_zero c.ci_min_score ≡ false)
                                  × (std.above_hundred c.ci_min_score ≡ false))
                                × (InRange 1 125 c.ci_exit_code × AtLeast 0 c.workers))))))))
unfolding validate
validate_iff std c = both (passes no_operator (empty_iff c.operators)) (
    both (unknown_in_iff c.operators) (
      both
        (passes negative_preparation_or_total
          (neither (negative_iff c.preparation_timeout) (negative_iff c.total_timeout)))
        (both (passes timeout_not_positive (positive_iff c.timeout)) (
          both (passes (unsupported_format c.format) (known_iff (is_one_of c.format known_formats)))
            (both (passes negative_max_mutants (negative_iff c.max_mutants)) (
              both (passes score_out_of_range (neither same same)) (
                both (passes exit_code_out_of_range (exit_code_iff c.ci_exit_code))
                  (passes negative_workers (negative_iff c.workers)))))))))

-- `Validate` gives no error exactly where there is an operator, every operator and the format are known,
-- no time and no limit is negative, the timeout is positive, the exit code is from 1 to 125, and of the
-- score neither comparison holds, with 0 and with 100: it is from 0 to 100, or a NaN.
pub validate-IsValid : (std : Std) (c : Config) → (validate std c ≡ none) ↔ IsValid std c
validate-IsValid std c = (
  λ h.
      let (o, (k, ((p, a), (t, (f, (m, ((l, u), (x, w)))))))) = (validate_iff std c).0 h in
      record {
        has_operator = o;
        operators_known = k;
        preparation = p;
        total = a;
        timeout = t;
        format_known = f;
        max_mutants = m;
        score_low = l;
        score_high = u;
        exit_code = x;
        workers = w;
      },
  λ v. (validate_iff std c).1 (
    v.has_operator,
    (
      v.operators_known,
      (
        (v.preparation, v.total),
        (
          v.timeout,
          (
            v.format_known,
            (v.max_mutants, ((v.score_low, v.score_high), (v.exit_code, v.workers))),
          ),
        ),
      ),
    ),
  ),
)

checked-IsValid : (std : Std) (c d : Config) → checked std d ≡ ok c → IsValid std c
unfolding checked
checked-IsValid std c d h = elim (Option-cases (validate std d)) [
  | inl e ↦
      let same_config : d ≡ c = ground (arith, h, e) in
      subst (IsValid std) same_config ((validate-IsValid std d).0 e)
  | inr (e, some_error) ↦ absurd (ground (arith, h, some_error))
]

-- Settings that `Load` returns without an error, from whatever file and whatever settings to begin with,
-- are valid ones.
pub load-IsValid :
    (std : Std) (is_yaml : Bool) (content : Text) (base c : Config)
    → load std is_yaml content base ≡ ok c
    → IsValid std c
unfolding load
load-IsValid std is_yaml content base c h =
    go (any_long (raw_lines content))
      (load_lines std is_yaml 1 0 base (map drop_cr (raw_lines content))) h
  where
    go :
        (long : Bool) (o : Outcome LoadError Config)
        → (if long then fail too_long else (o >>= checked std)) ≡ ok c
        → IsValid std c
    go true o h = absurd (ground (arith, h))
    go false (fail e) h = absurd (ground (arith, h))
    go false (ok d) h = checked-IsValid std c d h
