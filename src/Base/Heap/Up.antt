-- ===== src/Base/Heap/Up.antt =====
-- An item of a heap moves up, and `heap.Push`.
use mathlib.Core.List.{Permᴰ}
use mathlib.Core.List.Permᴰ
use mutation_judge.Base.{
  ℕ, zero, suc, ◌+◌, ◌≤◌, ◌<◌, ◌≡◌, ◌≢◌, refl, sym, ap, ◌∙◌, subst, Bool, true, false, List, [],
  ◌∷◌, ◌++◌, Option, none, some, arith, length, get_elem?, ltb, ◌==◌, inl, inr, Bool-cases,
  length-append, append-nil,
}
use mutation_judge.Base.Heap.{swap, either_less, less_at, parent, up, push, IsHeap}
use mutation_judge.Base.Heap.Swap.{Swapped, swap-Swapped, get-beyond, get-append}

module _ {ℓ} {A : Type ℓ} (less : A → A → Bool) where
  -- A heap but for the edge from `j` to its parent.
  abbrev UpInv : List A → ℕ → Type 0
  UpInv h j =
      ((c : ℕ) → 0 < c → c ≢ j → less_at less h c (parent c) ≡ false)
      × ((c : ℕ) → 0 < c → parent c ≡ j → 0 < j → less_at less h c (parent j) ≡ false)

  pub less_at-there :
      (h : List A) (i j : ℕ)
      → less_at less h i j ≡ true
      → (x : A) × (y : A) × (get_elem? h i ≡ some x) × (get_elem? h j ≡ some y) × (less x y ≡ true)
  less_at-there h i j e = go (get_elem? h i) (get_elem? h j) refl refl e
    where
      go :
          (o p : Option A)
          → get_elem? h i ≡ o
          → get_elem? h j ≡ p
          → either_less less o p ≡ true
          → (x : A) × (y : A) × (get_elem? h i ≡ some x)
            × (get_elem? h j ≡ some y)
            × (less x y ≡ true)
      go (some x) (some y) a b k = (x, y, a, b, k)
      go none p a b k = absurd (ground (arith, k))
      go (some x) none a b k = absurd (ground (arith, k))

  module _ (asym : (x y : A) → less x y ≡ true → less y x ≡ false)
      (ge_trans : (x y z : A) → less y x ≡ false → less z y ≡ false → less z x ≡ false) where
    pub ge :
        (o p : Option A) (b : A)
        → either_less less o (some b) ≡ false
        → either_less less (some b) p ≡ false
        → either_less less o p ≡ false
    ge none p b h k = refl
    ge (some c) none b h k = refl
    ge (some c) (some a) b h k = ge_trans a b c k h

    pub seen :
        (t : List A) (c p : ℕ) (o q : Option A)
        → get_elem? t c ≡ o
        → get_elem? t p ≡ q
        → either_less less o q ≡ false
        → less_at less t c p ≡ false
    seen t c p o q a b k = rw (a, b) k

    swap-UpInv :
        (h : List A) (j : ℕ) (x y : A) (t : List A)
        → 0 < j
        → Swapped h t (parent j) j x y
        → get_elem? h (parent j) ≡ some x
        → get_elem? h j ≡ some y
        → less y x ≡ true
        → UpInv h j
        → UpInv t (parent j)
    swap-UpInv h j x y t pos_j s e f lt (edges, bridges) = (edge, bridge)
      where
        order : either_less less (some x) (some y) ≡ false
        order = asym y x lt

        below : parent j < j
        below = omega (arith, pos_j)

        -- An item whose parent's slot was that of `x`.
        behind_x :
            (c : ℕ)
            → 0 < c
            → c ≢ j
            → parent c ≡ parent j
            → either_less less (get_elem? h c) (some x) ≡ false
        behind_x c k n p =
            subst (λ o. either_less less (get_elem? h c) o ≡ false) (ap (get_elem? h) p ∙ e)
              (edges c k n)

        edge : (c : ℕ) → 0 < c → c ≢ parent j → less_at less t c (parent c) ≡ false
        edge c k n = elim (Bool-cases (c == j)) [
          | inl q ↦
              let same : c ≡ j = ground (arith, q) in
              seen t c (parent c) (some x) (some y) (ap (get_elem? t) same ∙ s.at_j)
                (ap (λ d. get_elem? t (parent d)) same ∙ s.at_i) order
          | inr q ↦
              let apart : c ≢ j = λ r. absurd (ground (arith, q, r)) in
              let here = s.other c n apart in
              elim (Bool-cases (parent c == parent j)) [
                | inl u ↦
                    let p : parent c ≡ parent j = ground (arith, u) in
                    seen t c (parent c) (get_elem? h c) (some y) here (ap (get_elem? t) p ∙ s.at_i)
                      (ge (get_elem? h c) (some y) x (behind_x c k apart p) order)
                | inr u ↦ elim (Bool-cases (parent c == j)) [
                  | inl v ↦
                      let p : parent c ≡ j = ground (arith, v) in
                      seen t c (parent c) (get_elem? h c) (some x) here
                        (ap (get_elem? t) p ∙ s.at_j)
                        (subst (λ o. either_less less (get_elem? h c) o ≡ false) e
                          (bridges c k p pos_j))
                  | inr v ↦
                      let up_there =
                        s.other (parent c) (λ r. absurd (ground (arith, u, r)))
                          (λ r. absurd (ground (arith, v, r))) in
                      seen t c (parent c) (get_elem? h c) (get_elem? h (parent c)) here up_there
                        (edges c k apart)
                ]
              ]
        ]

        top : 0 < parent j → either_less less (some x) (get_elem? h (parent (parent j))) ≡ false
        top i =
            subst (λ o. either_less less o (get_elem? h (parent (parent j))) ≡ false) e
              (edges (parent j) i (λ r. omega (arith, r, below)))

        bridge :
            (c : ℕ)
            → 0 < c
            → parent c ≡ parent j
            → 0 < parent j
            → less_at less t c (parent (parent j)) ≡ false
        bridge c k p i =
            let above =
              s.other (parent (parent j)) (λ r. omega (arith, r, i))
                (λ r. omega (arith, r, below, i)) in
            elim (Bool-cases (c == j)) [
              | inl q ↦
                  let same : c ≡ j = ground (arith, q) in
                  seen t c (parent (parent j)) (some x) (get_elem? h (parent (parent j)))
                    (ap (get_elem? t) same ∙ s.at_j) above (top i)
              | inr q ↦
                  let apart : c ≢ j = λ r. absurd (ground (arith, q, r)) in
                  let here = s.other c (λ r. omega (arith, r, p, i)) apart in
                  seen t c (parent (parent j)) (get_elem? h c) (get_elem? h (parent (parent j)))
                    here above
                    (ge (get_elem? h c) (get_elem? h (parent (parent j))) x (behind_x c k apart p)
                      (top i))
            ]

    up-IsHeap :
        (fuel : ℕ) (h : List A) (j : ℕ)
        → j ≤ fuel
        → UpInv h j
        → IsHeap less (up less fuel h j) × Permᴰ (up less fuel h j) h
    unfolding up
    up-IsHeap zero h j l (edges, bridges) =
        ((λ c k. edges c k (λ r. omega (arith, r, l, k))), Permᴰ.refl h)
    up-IsHeap (suc fuel) h j l v = elim (Bool-cases (parent j == j)) [
      | inl q ↦ rw q ((λ c k. v.0 c k (λ r. absurd (ground (arith, q, r, k)))), Permᴰ.refl h)
      | inr q ↦ elim (Bool-cases (less_at less h j (parent j))) [
        | inr lt ↦ rw (q, lt) (settled lt, Permᴰ.refl h)
        | inl lt ↦
            let (y, x, f, e, yx) = less_at-there h j (parent j) lt in
            let pos_j : 0 < j = ground (arith, q) in
            let s = swap-Swapped h (parent j) j x y (omega (arith, pos_j)) e f in
            let next = swap-UpInv h j x y (swap h (parent j) j) pos_j s e f yx v in
            let rest =
              up-IsHeap fuel (swap h (parent j) j) (parent j) (omega (arith, pos_j, l)) next in
            rw (q, lt) (rest.0, Permᴰ.trans rest.1 s.items)
      ]
    ]
      where
        settled : less_at less h j (parent j) ≡ false → IsHeap less h
        settled lt c k = elim (Bool-cases (c == j)) [
          | inl r ↦
              let same : c ≡ j = ground (arith, r) in
              subst (λ d. less_at less h d (parent d) ≡ false) (sym same) lt
          | inr r ↦ v.0 c k (λ u. absurd (ground (arith, r, u)))
        ]

    pub less_at-beyond : (h : List A) (c k : ℕ) → length h ≤ c → less_at less h c k ≡ false
    less_at-beyond h c k l = rw (get-beyond h c l) refl

    push-UpInv : (h : List A) (m : A) → IsHeap less h → UpInv (h ++ m ∷ []) (length h)
    push-UpInv h m v = (edge, bridge)
      where
        all : length (h ++ m ∷ []) ≡ length h + 1
        all = length-append h (m ∷ [])

        edge : (c : ℕ) → 0 < c → c ≢ length h → less_at less (h ++ m ∷ []) c (parent c) ≡ false
        edge c k n = elim (Bool-cases (ltb c (length h))) [
          | inl q ↦
              let inside : c < length h = ground (arith, q) in
              seen (h ++ m ∷ []) c (parent c) (get_elem? h c) (get_elem? h (parent c))
                (get-append h (m ∷ []) c inside)
                (get-append h (m ∷ []) (parent c) (omega (arith, inside, k))) (v c k)
          | inr q ↦
              let apart : (c == length h) ≡ false = elim (Bool-cases (c == length h)) [
                | inl r ↦ absurd (n (ground (arith, r)))
                | inr r ↦ r
              ] in
              less_at-beyond (h ++ m ∷ []) c (parent c) (ground (arith, q, all, apart))
        ]

        bridge :
            (c : ℕ)
            → 0 < c
            → parent c ≡ length h
            → 0 < length h
            → less_at less (h ++ m ∷ []) c (parent (length h)) ≡ false
        bridge c k p l =
            less_at-beyond (h ++ m ∷ []) c (parent (length h)) (omega (arith, p, k, l, all))

    pub push-IsHeap :
        (h : List A) (m : A)
        → IsHeap less h
        → IsHeap less (push less h m) × Permᴰ (push less h m) (m ∷ h)
    unfolding push
    push-IsHeap h m v =
        let (a, p) =
          up-IsHeap (length h) (h ++ m ∷ []) (length h) (omega arith) (push-UpInv h m v) in
        (
          a,
          Permᴰ.trans p
              (subst (λ t. Permᴰ (h ++ m ∷ []) (m ∷ t)) (append-nil h) (Permᴰ.middle m h [])),
        )
