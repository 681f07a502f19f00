-- ===== src/Model/Validate.antt =====
-- internal/model/validate.go: what a decoded report must satisfy. A time is counted from the zero
-- time; what the code computes with floating-point numbers is a parameter.
use mutation_judge.Base.{
  ℕ, ◌+◌, ◌-◌, Bool, true, false, not, ◌&&◌, ◌||◌, ◌⊎◌, inl, inr, List, [], ◌∷◌, Option, none, some,
  Text, codes, text_eq, length, ltb, ◌==◌, if◌then◌else◌,
}
use mutation_judge.Base.Blank.{is_blank}
use mutation_judge.Base.Decimal.{is_digit, decimal_value}
use mutation_judge.Base.Int.{ℤ, pos, negsuc, int_eq, int_lt, int_add}
use mutation_judge.Model.{
  Span, Verdict, killed, survived, invalid, timeout, unknown, unsupported, equivalent, other,
  verdict_eq, Float64, AnyValue, int, float, number, Result, Summary, Report, schema_version,
}

-- `percent a b` is `100 * float64(a) / float64(b)`, `score_text` its `Sprintf`, `is_close` the test for a
-- number at a distance of at most 1e-8, and `whole` the conversion of a whole number in the range.
pub record Floats : Type 0 where
  pub percent : ℤ → ℤ → Float64
  pub score_text : Float64 → Text
  pub is_close : Float64 → Float64 → Bool
  pub whole : Float64 → Option ℕ

pub data ResultError : Type 0 where
  empty_id duplicate_id invalid_verdict invalid_span missing_operator missing_diagnostic :
      ResultError
  negative_duration : ResultError

pub data ReportError : Type 0 where
  bad_schema empty_version zero_time no_patterns empty_pattern missing_section empty_section :
      ReportError
  negative_timing inconsistent_bounds incomplete counts_disagree score_disagrees : ReportError
  bad_bound : Text → ReportError
  in_result : ℕ → ResultError → ReportError

-- The first error of two checks in a row.
infixr 3 ◌then◌
abbrev pub ◌then◌ {ℓ} : {E : Type ℓ} → Option E → Option E → Option E
none then f = f
some e then f = some e

abbrev pub refuse {ℓ} : {E : Type ℓ} → Bool → E → Option E
refuse b e = if b then some e else none

abbrev pub is_empty {ℓ} : {A : Type ℓ} → List A → Bool
is_empty [] = true
is_empty (x ∷ xs) = false

abbrev all_digits : Text → Bool
all_digits [] = true
all_digits (c ∷ s) = is_digit c && all_digits s

-- `strconv.ParseInt(t, 10, 64)`
abbrev signed : Bool → Text → Option ℤ
signed negative t =
    let n = decimal_value 0 t in
    if is_empty t || not (all_digits t)
    then none
    else if negative
    then (if ltb 9223372036854775808 n
        then none
        else if n == 0
        then some (pos 0)
        else some (negsuc (n - 1)))
    else if ltb n 9223372036854775808
    then some (pos n)
    else none

unfoldable pub parse_int : Text → Option ℤ
unfolding decimal_value
parse_int [] = none
parse_int (c ∷ s) =
    if c == b'-' then signed true s else if c == b'+' then signed false s else signed false (c ∷ s)

abbrev not_negative : Option ℤ → Option ℕ
not_negative (some (pos n)) = some n
not_negative _ = none

unfoldable pub nonnegative_integer : Floats → Option AnyValue → Option ℕ
unfolding parse_int
nonnegative_integer f (some (int n)) = not_negative (some n)
nonnegative_integer f (some (float x)) = f.whole x
nonnegative_integer f (some (number t)) = not_negative (parse_int t)
nonnegative_integer f _ = none

unfoldable pub lookup : Text → List (Text × AnyValue) → Option AnyValue
lookup key [] = none
lookup key ((k, v) ∷ m) = if text_eq k key then some v else lookup key m

abbrev pub no_entries {ℓ} : {A : Type ℓ} → Option (List A) → Bool
no_entries none = true
no_entries (some xs) = is_empty xs

abbrev pub is_nil {ℓ} : {A : Type ℓ} → Option A → Bool
is_nil none = true
is_nil (some x) = false

abbrev pub negative : ℤ → Bool
negative n = int_lt n (pos 0)

unfoldable pub any_blank : List Text → Bool
any_blank [] = false
any_blank (p ∷ ps) = is_blank p || any_blank ps

unfoldable pub validate_header : Report → Option ReportError
unfolding any_blank text_eq
validate_header r =
    refuse (not (text_eq r.schema_version schema_version)) bad_schema
    then refuse (is_blank r.tool_version || is_blank r.go_version) empty_version
    then refuse (int_eq r.generated_at (pos 0)) zero_time
    then refuse (is_empty r.patterns) no_patterns
    then refuse (any_blank r.patterns) empty_pattern
    then refuse (is_nil r.effective_config || is_nil r.bounds || is_nil r.semantics) missing_section
    then refuse (no_entries r.effective_config || no_entries r.semantics) empty_section
    then refuse
        (negative r.timing.parsing_ms
          || negative r.timing.baseline_ms
          || negative r.timing.execution_ms
          || negative r.timing.rendering_ms
          || negative r.timing.total_ms)
        negative_timing

abbrev pub entries : Option (List (Text × AnyValue)) → List (Text × AnyValue)
entries none = []
entries (some m) = m

-- The three counts, read in this order.
abbrev consistent : Report → ℕ → ℕ → ℕ → Option ReportError
consistent r discovered retained completed =
    refuse
      (ltb discovered retained || ltb retained completed || not (completed == length r.results))
      inconsistent_bounds
    then refuse (r.complete && not (retained == completed)) incomplete

unfoldable pub bound : Floats → Report → Text → Option ℕ
unfolding nonnegative_integer lookup
bound f r key = nonnegative_integer f (lookup key (entries r.bounds))

unfoldable pub validate_bounds : Floats → Report → Option ReportError
unfolding bound
validate_bounds f r = elim (bound f r (codes "discovered_before_bound")) [
  | none ↦ some (bad_bound (codes "discovered_before_bound"))
  | some d ↦ elim (bound f r (codes "retained_after_bound")) [
    | none ↦ some (bad_bound (codes "retained_after_bound"))
    | some k ↦ elim (bound f r (codes "completed_mutants")) [
      | none ↦ some (bad_bound (codes "completed_mutants"))
      | some c ↦ consistent r d k c
    ]
  ]
]

abbrev pub is_named : Verdict → Bool
is_named (other t) = false
is_named _ = true

abbrev pub bad_span : Span → Bool
bad_span s =
    is_empty s.file
    || negative s.start_byte
    || not (int_lt s.start_byte s.end_byte)
    || int_lt s.start_line (pos 1)
    || int_lt s.end_line s.start_line
    || int_lt s.start_col (pos 1)
    || int_lt s.end_col (pos 1)

-- The body of the loop over the results, with the IDs that were seen.
unfoldable pub validate_result : (Text → Bool) → Result → Option ResultError
unfolding int_lt
validate_result seen r =
    refuse (is_empty r.mutation.id) empty_id
    then refuse (seen r.mutation.id) duplicate_id
    then refuse (not (is_named r.verdict)) invalid_verdict
    then refuse (bad_span r.mutation.span) invalid_span
    then refuse (is_empty r.mutation.operator || is_empty r.mutation.rule_id) missing_operator
    then refuse (is_empty r.diagnostic.id || is_empty r.diagnostic.statement) missing_diagnostic
    then refuse (negative r.duration_ms) negative_duration

abbrev pub Counts : Type 0
Counts = Verdict → ℕ

abbrev pub bump : Verdict → Counts → Counts
bump v counts w = if verdict_eq v w then counts w + 1 else counts w

abbrev pub see : Text → (Text → Bool) → Text → Bool
see id seen j = if text_eq id j then true else seen j

-- The loop, from result `i`: an error, or the counts.
unfoldable pub validate_results : ℕ → (Text → Bool) → Counts → List Result → ReportError ⊎ Counts
unfolding validate_result
validate_results i seen counts [] = inr counts
validate_results i seen counts (r ∷ rs) = elim (validate_result seen r) [
  | some e ↦ inl (in_result i e)
  | none ↦ validate_results (i + 1) (see r.mutation.id seen) (bump r.verdict counts) rs
]

abbrev pub disagrees : ℤ → ℕ → Bool
disagrees a n = not (int_eq a (pos n))

unfoldable pub validate_counts : Summary → ℕ → Counts → Option ReportError
unfolding int_eq
validate_counts s n counts =
    refuse
      (disagrees s.generated n
        || disagrees s.killed (counts killed)
        || disagrees s.survived (counts survived)
        || disagrees s.invalid (counts invalid)
        || disagrees s.timeout (counts timeout)
        || disagrees s.unknown (counts unknown)
        || disagrees s.unsupported (counts unsupported)
        || disagrees s.equivalent (counts equivalent))
      counts_disagree

abbrev pub no_score : Text
no_score = codes "n/a (no scoreable mutants)"

-- The score and its text that the counts of a summary give.
unfoldable pub expected_score : Floats → Summary → Float64 × Text
unfolding int_lt int_add
expected_score f s =
    let den = int_add s.killed s.survived in
    let score = f.percent s.killed den in
    if int_lt (pos 0) den then (score, f.score_text score) else (0, no_score)

unfoldable pub validate_score : Floats → Summary → Option ReportError
unfolding expected_score text_eq
validate_score f s =
    let (score, t) = expected_score f s in
    refuse (not (f.is_close s.score score) || not (text_eq s.score_text t)) score_disagrees

abbrev pub validate_summary : Floats → Report → ReportError ⊎ Counts → Option ReportError
validate_summary f r (inl e) = some e
validate_summary f r (inr counts) =
    validate_counts r.summary (length r.results) counts then validate_score f r.summary

unfoldable pub validate_report : Floats → Report → Option ReportError
unfolding validate_header validate_bounds validate_results validate_counts validate_score
validate_report f r =
    validate_header r
    then validate_bounds f r
    then validate_summary f r (validate_results 0 (λ _. false) (λ _. 0) r.results)
