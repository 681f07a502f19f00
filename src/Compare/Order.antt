-- ===== src/Compare/Order.antt =====
-- `sortByLocation` sorts: its comparison is a strict total order on file, line, column and ID.
use mutation_judge.Base.{
  ◌≡◌, refl, ◌↔◌, Bool, true, false, not, Option, none, some, Text, text_eq, text_eq_iff, text_lt,
  text_lt-asym, text_lt-ge_trans, text_lt_trans, text_lt-total, if◌then◌else◌, arith, List,
}
use mutation_judge.Base.Int.{int_eq, int_eq_iff, int_lt, int_lt-asym, int_lt_trans, int_lt-total}
use mutation_judge.Base.Sort.{IsSorted, sort-IsSorted}
use mutation_judge.Model.{Mutation}
use mutation_judge.Compare.{MutantDiff, mutation, mutation_less, location_less, sort_by_location}

-- One level of a lexicographic comparison.
abbrev pub level : Bool → Bool → Bool → Bool
level eq lt rest = if not eq then lt else rest

module _ {ℓ} {K : Type ℓ} (eq lt : K → K → Bool) (eq_iff : (a b : K) → (eq a b ≡ true) ↔ (a ≡ b))
    (asym : (a b : K) → lt a b ≡ true → lt b a ≡ false)
    (trans : (a b c : K) → lt a b ≡ true → lt b c ≡ true → lt a c ≡ true)
    (total : (a b : K) → lt a b ≡ false → lt b a ≡ false → a ≡ b) where
  pub level-asym :
      (a b : K) (r s : Bool)
      → (r ≡ true → s ≡ false)
      → level (eq a b) (lt a b) r ≡ true
      → level (eq b a) (lt b a) s ≡ false
  level-asym a b r s h k = ground (arith, eq_iff a b, eq_iff b a, asym a b)

  pub level-ge_trans :
      (a b c : K) (r s t : Bool)
      → (r ≡ false → s ≡ false → t ≡ false)
      → level (eq b a) (lt b a) r ≡ false
      → level (eq c b) (lt c b) s ≡ false
      → level (eq c a) (lt c a) t ≡ false
  level-ge_trans a b c r s t h k l = ground (
    arith,
    eq_iff b a,
    eq_iff c b,
    eq_iff c a,
    asym a b,
    asym b c,
    trans c a b,
    trans b c a,
    trans c b a,
    total a b,
    total b c,
    total c a,
    asym c a,
  )

-- Three levels, on text, line and column, and the ID below them.
mutation_less-asym :
    (i j : Text) (x y : Option Mutation)
    → mutation_less i j x y ≡ true
    → mutation_less j i y x ≡ false
mutation_less-asym i j none none h = text_lt-asym i j h
mutation_less-asym i j none (some b) h = refl
mutation_less-asym i j (some a) none h = cc
mutation_less-asym i j (some a) (some b) h =
    level-asym text_eq text_lt text_eq_iff text_lt-asym text_lt_trans text_lt-total _ _ _ _
      (level-asym int_eq int_lt int_eq_iff int_lt-asym int_lt_trans int_lt-total _ _ _ _ (
        level-asym int_eq int_lt int_eq_iff int_lt-asym int_lt_trans int_lt-total _ _ _ _
          (text_lt-asym i j)))
      h

mutation_less-ge_trans :
    (i j k : Text) (x y z : Option Mutation)
    → mutation_less j i y x ≡ false
    → mutation_less k j z y ≡ false
    → mutation_less k i z x ≡ false
mutation_less-ge_trans i j k none none none h l = text_lt-ge_trans i j k h l
mutation_less-ge_trans i j k none none (some c) h l = refl
mutation_less-ge_trans i j k none (some b) none h l = cc
mutation_less-ge_trans i j k none (some b) (some c) h l = refl
mutation_less-ge_trans i j k (some a) none z h l = cc
mutation_less-ge_trans i j k (some a) (some b) none h l = cc
mutation_less-ge_trans i j k (some a) (some b) (some c) h l =
    level-ge_trans text_eq text_lt text_eq_iff text_lt-asym text_lt_trans text_lt-total _ _ _ _ _ _
      (level-ge_trans int_eq int_lt int_eq_iff int_lt-asym int_lt_trans int_lt-total _ _ _ _ _ _ (
        level-ge_trans int_eq int_lt int_eq_iff int_lt-asym int_lt_trans int_lt-total _ _ _ _ _ _
          (text_lt-ge_trans i j k)))
      h l

pub sort_by_location-IsSorted :
    (mds : List MutantDiff) → IsSorted location_less (sort_by_location mds)
unfolding sort_by_location location_less
sort_by_location-IsSorted =
    sort-IsSorted location_less (λ x y. mutation_less-asym x.id y.id (mutation x) (mutation y))
      (λ x y z. mutation_less-ge_trans x.id y.id z.id (mutation x) (mutation y) (mutation z))
