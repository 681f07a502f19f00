-- ===== src/Base/Heap/Swap.antt =====
-- Two items of a heap change places.
use mathlib.Core.List.{Permᴰ}
use mathlib.Core.List.Permᴰ
use mutation_judge.Base.{
  ℕ, zero, suc, ◌≤◌, ◌<◌, ◌≡◌, ◌≢◌, refl, sym, ap, ◌∙◌, subst, List, [], ◌∷◌, ◌++◌, none, some,
  arith, length, get_elem?,
}
use mutation_judge.Base.Heap.{set, swap}

module _ {ℓ} {A : Type ℓ} where
  set-Perm : (h : List A) (i : ℕ) (x v : A) → get_elem? h i ≡ some x → Permᴰ (v ∷ h) (x ∷ set h i v)
  set-Perm [] i x v e = absurd (ground (arith, e))
  set-Perm (z ∷ h) zero x v e = Permᴰ.swap refl (ground (arith, e))
  set-Perm (z ∷ h) (suc i) x v e =
      Permᴰ.trans (Permᴰ.swap refl refl)
        (Permᴰ.trans (Permᴰ.cons refl (set-Perm h i x v e)) (Permᴰ.swap refl refl))

  exchange-Perm :
      (h : List A) (i j : ℕ) (x y : A)
      → i < j
      → get_elem? h i ≡ some x
      → get_elem? h j ≡ some y
      → Permᴰ h (set (set h i y) j x)
  exchange-Perm [] i j x y l e f = absurd (ground (arith, e))
  exchange-Perm (z ∷ h) zero zero x y l e f = absurd (omega (arith, l))
  exchange-Perm (z ∷ h) zero (suc j) x y l e f =
      subst (λ w. Permᴰ (z ∷ h) (y ∷ set h j w)) (ground (arith, e)) (set-Perm h j y z f)
  exchange-Perm (z ∷ h) (suc i) zero x y l e f = absurd (omega (arith, l))
  exchange-Perm (z ∷ h) (suc i) (suc j) x y l e f =
      Permᴰ.cons refl (exchange-Perm h i j x y (omega (arith, l)) e f)

  get-set : (h : List A) (i k : ℕ) (v : A) → k ≢ i → get_elem? (set h i v) k ≡ get_elem? h k
  get-set [] i k v n = refl
  get-set (x ∷ h) zero zero v n = absurd (n refl)
  get-set (x ∷ h) zero (suc k) v n = refl
  get-set (x ∷ h) (suc i) zero v n = refl
  get-set (x ∷ h) (suc i) (suc k) v n = get-set h i k v (λ e. n (ap suc e))

  get-set_there :
      (h : List A) (i : ℕ) (v x : A) → get_elem? h i ≡ some x → get_elem? (set h i v) i ≡ some v
  get-set_there [] i v x e = absurd (ground (arith, e))
  get-set_there (z ∷ h) zero v x e = refl
  get-set_there (z ∷ h) (suc i) v x e = get-set_there h i v x e

  length-set : (h : List A) (i : ℕ) (v : A) → length (set h i v) ≡ length h
  length-set [] i v = refl
  length-set (x ∷ h) zero v = refl
  length-set (x ∷ h) (suc i) v = ap suc (length-set h i v)

  pub get-beyond : (h : List A) (i : ℕ) → length h ≤ i → get_elem? h i ≡ none
  get-beyond [] i l = refl
  get-beyond (x ∷ h) zero l = absurd (omega (arith, l))
  get-beyond (x ∷ h) (suc i) l = get-beyond h i (omega (arith, l))

  pub get-there : (h : List A) (i : ℕ) → i < length h → (x : A) × (get_elem? h i ≡ some x)
  get-there [] i l = absurd (omega (arith, l))
  get-there (x ∷ h) zero l = (x, refl)
  get-there (x ∷ h) (suc i) l = get-there h i (omega (arith, l))

  pub get-append : (h t : List A) (i : ℕ) → i < length h → get_elem? (h ++ t) i ≡ get_elem? h i
  get-append [] t i l = absurd (omega (arith, l))
  get-append (x ∷ h) t zero l = refl
  get-append (x ∷ h) t (suc i) l = get-append h t i (omega (arith, l))

  -- What a swap of the items at `i` and `j` leaves.
  pub record Swapped (h t : List A) (i j : ℕ) (x y : A) : Type ℓ where
    pub at_i : get_elem? t i ≡ some y
    pub at_j : get_elem? t j ≡ some x
    pub other : (k : ℕ) → k ≢ i → k ≢ j → get_elem? t k ≡ get_elem? h k
    pub items : Permᴰ t h
    pub many : length t ≡ length h

  pub swap-Swapped :
      (h : List A) (i j : ℕ) (x y : A)
      → i < j
      → get_elem? h i ≡ some x
      → get_elem? h j ≡ some y
      → Swapped h (swap h i j) i j x y
  swap-Swapped h i j x y l e f =
      let apart : i ≢ j = λ k. omega (arith, l, k) in
      let apart2 : j ≢ i = λ k. omega (arith, l, k) in
      let j_there = get-set h i j y apart2 ∙ f in
      let same : swap h i j ≡ set (set h i y) j x = rw (e, f) refl in
      subst (λ t. Swapped h t i j x y) (sym same)
        (record {
          at_i = get-set (set h i y) j i x apart ∙ get-set_there h i y x e;
          at_j = get-set_there (set h i y) j x y j_there;
          other = λ k n m. get-set (set h i y) j k x m ∙ get-set h i k y n;
          items = Permᴰ.symm (exchange-Perm h i j x y l e f);
          many = length-set (set h i y) j x ∙ length-set h i y;
        })
