-- ===== src/Base/Sets.antt =====
-- A Go map that is used as a set of strings: its keys in the order of their insertion.
use mathlib.Core.Bool.{Bool, false, ◌||◌}
use mathlib.Core.List.{List, [], ◌∷◌, ◌++◌}
use mathlib.Core.Logic.{inl, inr}
use mathlib.Core.Path.{◌≡◌, refl, ap, sym, ◌∙◌}
use native.Mathlib.Omega.{arith}
use mutation_judge.Base.Lists.{count_if}
use mutation_judge.Base.Sort.{sort, count_if-sort}
use mutation_judge.Base.Strings.{Text, text_eq, text_eq_iff, text_lt}
use mutation_judge.Base.Tests.{ltb, if◌then◌else◌, Bool-cases}

unfoldable pub member : Text → List Text → Bool
member k [] = false
member k (x ∷ xs) = text_eq x k || member k xs

unfoldable pub insert : Text → List Text → List Text
unfolding member
insert k s = if member k s then s else s ++ k ∷ []

member-append :
    (k : Text) (s : List Text) (x : Text) → member k (s ++ x ∷ []) ≡ (member k s || text_eq x k)
unfolding member
member-append k [] x = ground arith
member-append k (y ∷ s) x = ground (arith, member-append k s x)

pub member-insert :
    (k x : Text) (s : List Text) → member k (insert x s) ≡ (member k s || text_eq x k)
unfolding insert
member-insert k x s = elim (Bool-cases (member x s)) [
  | inl m ↦
      rw (m, insert)
        (elim (Bool-cases (text_eq x k)) [
          | inl e ↦
              let same : x ≡ k = (text_eq_iff x k).0 e in ground (arith, ap (λ y. member y s) same)
          | inr e ↦ ground arith
        ])
  | inr m ↦ rw (m, insert) (member-append k s x)
]

member-count : (k : Text) (xs : List Text) → member k xs ≡ ltb 0 (count_if (λ x. text_eq x k) xs)
unfolding member
member-count k [] = refl
member-count k (x ∷ xs) = ground (arith, member-count k xs)

pub member-sort : (k : Text) (xs : List Text) → member k (sort text_lt xs) ≡ member k xs
member-sort k xs =
    member-count k (sort text_lt xs)
    ∙ (ap (ltb 0) (count_if-sort text_lt (λ x. text_eq x k) xs) ∙ sym (member-count k xs))
