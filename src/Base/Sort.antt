-- ===== src/Base/Sort.antt =====
-- `sort.Slice` on a comparison: the model is insertion sort. The code sorts by comparisons that
-- are total on the elements at hand, where every correct sort gives the same list.
use mathlib.Core.Path.{◌≡◌, refl}
use mathlib.Core.Bool.{Bool, true, false}
use mathlib.Core.List.{List, [], ◌∷◌}
use mathlib.Core.Logic.{inl, inr}
use native.Mathlib.Omega.{arith}
use mutation_judge.Base.Tests.{if◌then◌else◌, Bool-cases}
use mutation_judge.Base.Lists.{count_if, length, All}

module _ {ℓ} {A : Type ℓ} (less : A → A → Bool) where
  unfoldable pub insert : A → List A → List A
  insert x [] = x ∷ []
  insert x (y ∷ ys) = if less x y then x ∷ y ∷ ys else y ∷ insert x ys

  unfoldable pub sort : List A → List A
  unfolding insert
  sort [] = []
  sort (x ∷ xs) = insert x (sort xs)

  -- No element stands before a smaller one.
  pub data IsSorted : List A → Type ℓ where
    nil : IsSorted []
    cons : {x : A} {xs : List A} → All (λ y. less y x ≡ false) xs → IsSorted xs → IsSorted (x ∷ xs)

  count_if-insert :
      (p : A → Bool) (x : A) (xs : List A) → count_if p (insert x xs) ≡ count_if p (x ∷ xs)
  unfolding insert
  count_if-insert p x [] = refl
  count_if-insert p x (y ∷ ys) = ground (arith, count_if-insert p x ys)

  -- Sorting keeps every element, as often as it stood there.
  pub count_if-sort : (p : A → Bool) (xs : List A) → count_if p (sort xs) ≡ count_if p xs
  unfolding sort
  count_if-sort p [] = refl
  count_if-sort p (x ∷ xs) = omega (arith, count_if-insert p x (sort xs), count_if-sort p xs)

  module _ {κ} (P : A → Type κ) where
    All-insert : (x : A) (xs : List A) → P x → All P xs → All P (insert x xs)
    unfolding insert
    All-insert x [] h a = (h, tt)
    All-insert x (y ∷ ys) h a = elim (Bool-cases (less x y)) [
      | inl e ↦ rw e (h, a)
      | inr e ↦ rw e (a.0, All-insert x ys h a.1)
    ]

    pub All-sort : (xs : List A) → All P xs → All P (sort xs)
    unfolding sort
    All-sort [] a = tt
    All-sort (x ∷ xs) a = All-insert x (sort xs) a.0 (All-sort xs a.1)

  -- A comparison that is asymmetric, and whose negation is transitive, sorts.
  module _ (asym : (x y : A) → less x y ≡ true → less y x ≡ false)
      (ge_trans : (x y z : A) → less y x ≡ false → less z y ≡ false → less z x ≡ false) where
    All-ge :
        (x y : A) (ys : List A)
        → less y x ≡ false
        → All (λ z. less z y ≡ false) ys
        → All (λ z. less z x ≡ false) ys
    All-ge x y [] h a = tt
    All-ge x y (z ∷ zs) h a = (ge_trans x y z h a.0, All-ge x y zs h a.1)

    pub insert-IsSorted : (x : A) {xs : List A} → IsSorted xs → IsSorted (insert x xs)
    unfolding insert
    insert-IsSorted x nil = cons tt nil
    insert-IsSorted x (cons {x = y} {xs = ys} a s) = elim (Bool-cases (less x y)) [
      | inl e ↦ rw e (cons (asym x y e, All-ge x y ys (asym x y e) a) (cons a s))
      | inr e ↦ rw e (cons (All-insert (λ z. less z y ≡ false) x ys e a) (insert-IsSorted x s))
    ]

    pub sort-IsSorted : (xs : List A) → IsSorted (sort xs)
    unfolding sort
    sort-IsSorted [] = nil
    sort-IsSorted (x ∷ xs) = insert-IsSorted x (sort-IsSorted xs)

  length-insert : (x : A) (xs : List A) → length (insert x xs) ≡ length (x ∷ xs)
  unfolding insert
  length-insert x [] = refl
  length-insert x (y ∷ ys) = ground (arith, length-insert x ys)

  pub length-sort : (xs : List A) → length (sort xs) ≡ length xs
  unfolding sort
  length-sort [] = refl
  length-sort (x ∷ xs) = omega (arith, length-insert x (sort xs), length-sort xs)
