-- ===== src/Frontend/Selection/Ordering.antt =====
-- The order in which the mutations of internal/frontend/selection.go are sorted, and what it says of the
-- same items in another sequence.
use mathlib.Core.List.{Permᴰ}
use mathlib.Core.List.Permᴰ.{nil, cons, swap, trans}
use mutation_judge.Base.{
  suc, ◌≡◌, refl, ap, ◌∙◌, subst, Bool, true, false, List, [], ◌∷◌, ◌++◌, some, All, length, inl,
  inr,
}
use mutation_judge.Base.Sort.{insert, sort, All-sort}
use mutation_judge.Frontend.Selection.Keep.{Differ, AllDiffer, insert_comm, last_of, but_last}

All-Perm {ℓ κ} : {A : Type ℓ} (P : A → Type κ) {xs ys : List A} → Permᴰ xs ys → All P xs → All P ys
All-Perm P nil h = tt
All-Perm P (cons e p) h = (subst P e h.0, All-Perm P p h.1)
All-Perm P (swap e f) h = (subst P f h.1.0, (subst P e h.0, h.1.1))
All-Perm P (trans p q) h = All-Perm P q (All-Perm P p h)

pub length-Perm {ℓ} : {A : Type ℓ} {xs ys : List A} → Permᴰ xs ys → length xs ≡ length ys
length-Perm nil = refl
length-Perm (cons e p) = ap suc (length-Perm p)
length-Perm (swap e f) = refl
length-Perm (trans p q) = length-Perm p ∙ length-Perm q

pub last_of-append {ℓ} : {A : Type ℓ} (s : List A) (r : A) → last_of (s ++ r ∷ []) ≡ some r
last_of-append [] r = refl
last_of-append (x ∷ []) r = refl
last_of-append (x ∷ y ∷ s) r = last_of-append (y ∷ s) r

pub but_last-append {ℓ} : {A : Type ℓ} (s : List A) (r : A) → but_last (s ++ r ∷ []) ≡ s
but_last-append [] r = refl
but_last-append (x ∷ []) r = refl
but_last-append (x ∷ y ∷ s) r = ap (λ t. x ∷ t) (but_last-append (y ∷ s) r)

module _ {ℓ} {A : Type ℓ} (less : A → A → Bool)
    (asym : (x y : A) → less x y ≡ true → less y x ≡ false)
    (ge_trans : (x y z : A) → less y x ≡ false → less z y ≡ false → less z x ≡ false) where
  Differ-sym : (x y : A) → Differ less x y → Differ less y x
  Differ-sym x y (inl h) = inr h
  Differ-sym x y (inr h) = inl h

  pub AllDiffer-Perm : {xs ys : List A} → Permᴰ xs ys → AllDiffer less xs → AllDiffer less ys
  AllDiffer-Perm nil h = tt
  AllDiffer-Perm (cons {b = b} {l₂ = l} e p) h =
      (subst (λ x. All (Differ less x) l) e (All-Perm (Differ less _) p h.0), AllDiffer-Perm p h.1)
  AllDiffer-Perm (swap {a} {b} {a'} {b'} {l} e f) (d, h) =
      let one : Differ less a' b' =
        subst (λ x. Differ less a' x) e (subst (λ x. Differ less x a) f (Differ-sym a b d.0)) in
      (
        (one, subst (λ x. All (Differ less x) l) f h.0),
        (subst (λ x. All (Differ less x) l) e d.1, h.1),
      )
  AllDiffer-Perm (trans p q) h = AllDiffer-Perm q (AllDiffer-Perm p h)

  -- The same items, all different, are sorted alike.
  pub sort-Perm : {xs ys : List A} → Permᴰ xs ys → AllDiffer less xs → sort less xs ≡ sort less ys
  unfolding sort
  sort-Perm nil h = refl
  sort-Perm (cons {a} {b} {l₁} {l₂} e p) h =
      ap (λ x. insert less x (sort less l₁)) e ∙ ap (insert less b) (sort-Perm p h.1)
  sort-Perm (swap {a} {b} {a'} {b'} {l} e f) h =
      insert_comm less asym ge_trans a b (sort less l) h.0.0
      ∙ (ap (λ x. insert less x (insert less a (sort less l))) f
          ∙ ap (λ x. insert less a' (insert less x (sort less l))) e)
  sort-Perm (trans p q) h = sort-Perm p h ∙ sort-Perm q (AllDiffer-Perm p h)

  insert-last : (r : A) (s : List A) → All (λ y. less r y ≡ false) s → insert less r s ≡ s ++ r ∷ []
  unfolding insert
  insert-last r [] h = refl
  insert-last r (y ∷ s) h = rw (h.0, insert) (ap (λ t. y ∷ t) (insert-last r s h.1))

  -- The item that is before none of the others comes last.
  pub sort-root :
      (r : A) (xs : List A)
      → All (λ y. less r y ≡ false) xs
      → sort less (r ∷ xs) ≡ sort less xs ++ r ∷ []
  unfolding sort
  sort-root r xs h = insert-last r (sort less xs) (All-sort less (λ y. less r y ≡ false) xs h)
