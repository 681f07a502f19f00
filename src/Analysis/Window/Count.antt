-- ===== src/Analysis/Window/Count.antt =====
-- Counting by index, and the arithmetic of window slots.
use mutation_judge.Base.{
  ℕ, zero, suc, ◌+◌, ◌%◌, ◌≤◌, ◌<◌, ◌≡◌, refl, sym, ap, map, not, ◌&&◌, List, [], ◌∷◌, length,
  count_if, ltb, leb, ◌==◌, if◌then◌else◌, arith, select,
}
use native.Mathlib.Decide.{dec_le}
use native.Mathlib.Nat.{div-add-mod}

-- Two numbers less than a window apart have different slots.
pub slot_inj : (w a b : ℕ) → a ≤ b → b < a + w → a % w ≡ b % w → a ≡ b
slot_inj w a b h k e = grind (arith, div-add-mod a w, div-add-mod b w)

pub same_slot : (w c a b : ℕ) → c ≤ a → a < c + w → c ≤ b → b < c + w → a % w ≡ b % w → a ≡ b
same_slot w c a b h k l m e = elim (dec_le a b) [
  | yes p ↦ slot_inj w a b p (omega arith) e
  | no p ↦ sym (slot_inj w b a (omega arith) (omega arith) (sym e))
]

module _ {ℓ} {A : Type ℓ} (f : A → ℕ) where
  -- The elements with another index than `k`.
  abbrev without : ℕ → List A → List A
  without k = select (λ x. not (f x == k))

  abbrev pub times : ℕ → List A → ℕ
  times i = count_if (λ x. f x == i)

  pub times-le-length : (i : ℕ) (xs : List A) → times i xs ≤ length xs
  times-le-length i [] = omega arith
  times-le-length i (x ∷ xs) = ground (arith, times-le-length i xs)

  length-without : (k : ℕ) (xs : List A) → length xs ≡ times k xs + length (without k xs)
  length-without k [] = omega arith
  length-without k (x ∷ xs) = ground (arith, length-without k xs)

  times-without :
      (k i : ℕ) (xs : List A) → times i (without k xs) ≡ (if k == i then 0 else times i xs)
  times-without k i [] = ground arith
  times-without k i (x ∷ xs) = ground (arith, times-without k i xs)

  -- Indices that stand at most once, and only in a range, are at most as many as the range.
  pub length-le-range :
      (lo n : ℕ) (xs : List A)
      → ((i : ℕ) → times i xs ≤ (if leb lo i && ltb i (lo + n) then 1 else 0))
      → length xs ≤ n
  length-le-range lo zero [] h = omega arith
  length-le-range lo zero (x ∷ xs) h = absurd (ground (arith, h (f x)))
  length-le-range lo (suc n) xs h =
      let ys = without (lo + n) xs in
      let rest = length-le-range lo n ys (λ i. ground (arith, h i, times-without (lo + n) i xs)) in
      omega (arith, length-without (lo + n) xs, rest, last_le lo n xs (h (lo + n)))
    where
      last_le :
          (lo n : ℕ) (xs : List A)
          → times (lo + n) xs ≤ (if leb lo (lo + n) && ltb (lo + n) (lo + suc n) then 1 else 0)
          → times (lo + n) xs ≤ 1
      last_le lo n xs h = ground arith

pub times-map {ℓ} :
    {A : Type ℓ} (f : A → ℕ) (i : ℕ) (xs : List A)
    → times (λ (n : ℕ). n) i (map f xs) ≡ times f i xs
times-map f i [] = refl
times-map f i (x ∷ xs) = ap (◌+◌ (if f x == i then 1 else 0)) (times-map f i xs)

pub length-map {ℓ} : {A : Type ℓ} (f : A → ℕ) (xs : List A) → length (map f xs) ≡ length xs
length-map f [] = refl
length-map f (x ∷ xs) = ap suc (length-map f xs)
