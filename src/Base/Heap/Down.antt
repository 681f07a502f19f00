-- ===== src/Base/Heap/Down.antt =====
-- An item of a heap moves down, `heap.Fix` at the root, and the root itself.
use mathlib.Core.List.{Permᴰ}
use mathlib.Core.List.Permᴰ
use mutation_judge.Base.{
  ℕ, zero, suc, ◌+◌, ◌*◌, ◌≤◌, ◌<◌, ◌≡◌, ◌≢◌, refl, sym, ap, ◌∙◌, subst, Bool, true, false, ◌&&◌,
  List, [], ◌∷◌, Option, none, some, All, arith, length, get_elem?, ltb, leb, ◌==◌, inl, inr,
  Bool-cases,
}
use mutation_judge.Base.Heap.{swap, either_less, less_at, parent, child, down, fix, IsHeap}
use mutation_judge.Base.Heap.Swap.{Swapped, swap-Swapped, get-there}
use mutation_judge.Base.Heap.Up.{less_at-there, ge, seen, less_at-beyond}

module _ {ℓ} {A : Type ℓ} (less : A → A → Bool) where
  -- A heap but for the edges from `i` to its children.
  abbrev DownInv : List A → ℕ → Type 0
  DownInv h i =
      ((c : ℕ) → 0 < c → parent c ≢ i → less_at less h c (parent c) ≡ false)
      × ((c : ℕ) → 0 < c → parent c ≡ i → 0 < i → less_at less h c (parent i) ≡ false)

  module _ (asym : (x y : A) → less x y ≡ true → less y x ≡ false)
      (ge_trans : (x y z : A) → less y x ≡ false → less z y ≡ false → less z x ≡ false) where
    -- The child that is taken: below `i`, and no child of `i` is before it.
    child_below :
        (h : List A) (i : ℕ)
        → (i < child less h i) × (parent (child less h i) ≡ i) × (child less h i ≤ 2 * i + 2)
    child_below h i =
        elim (Bool-cases (ltb (2 * i + 2) (length h) && less_at less h (2 * i + 2) (2 * i + 1))) [
          | inl q ↦ rw q (omega arith, omega arith, omega arith)
          | inr q ↦ rw q (omega arith, omega arith, omega arith)
        ]

    less_at_irrefl : (h : List A) (k : ℕ) → less_at less h k k ≡ false
    less_at_irrefl h k = go (get_elem? h k)
      where
        go : (o : Option A) → either_less less o o ≡ false
        go none = refl
        go (some a) = elim (Bool-cases (less a a)) [
          | inl q ↦ absurd (ground (arith, q, asym a a q))
          | inr q ↦ q
        ]

    less_at-asym : (h : List A) (i j : ℕ) → less_at less h i j ≡ true → less_at less h j i ≡ false
    less_at-asym h i j q =
        let (x, y, a, b, k) = less_at-there less h i j q in
        seen less asym ge_trans h j i (some y) (some x) b a (asym x y k)

    child-least :
        (h : List A) (i c : ℕ) → 0 < c → parent c ≡ i → less_at less h c (child less h i) ≡ false
    child-least h i c k p =
        elim (Bool-cases (ltb (2 * i + 2) (length h) && less_at less h (2 * i + 2) (2 * i + 1))) [
          | inl q ↦ elim (Bool-cases (c == 2 * i + 2)) [
            | inl r ↦
                let same : c ≡ 2 * i + 2 = ground (arith, r) in
                rw q (
                  subst (λ d. less_at less h d (2 * i + 2) ≡ false) (sym same)
                    (less_at_irrefl h (2 * i + 2)))
            | inr r ↦
                let same : c ≡ 2 * i + 1 = ground (arith, r, k, p) in
                let lt : less_at less h (2 * i + 2) (2 * i + 1) ≡ true = ground (arith, q) in
                rw q (
                  subst (λ d. less_at less h d (2 * i + 2) ≡ false) (sym same)
                    (less_at-asym h (2 * i + 2) (2 * i + 1) lt))
          ]
          | inr q ↦ elim (Bool-cases (c == 2 * i + 1)) [
            | inl r ↦
                let same : c ≡ 2 * i + 1 = ground (arith, r) in
                rw q (
                  subst (λ d. less_at less h d (2 * i + 1) ≡ false) (sym same)
                    (less_at_irrefl h (2 * i + 1)))
            | inr r ↦
                let same : c ≡ 2 * i + 2 = ground (arith, r, k, p) in
                rw q (
                  subst (λ d. less_at less h d (2 * i + 1) ≡ false) (sym same)
                    (elim (Bool-cases (ltb (2 * i + 2) (length h))) [
                      | inl u ↦ ground (arith, q, u)
                      | inr u ↦
                          less_at-beyond less asym ge_trans h (2 * i + 2) (2 * i + 1)
                            (ground (arith, u))
                    ]))
          ]
        ]

    swap-DownInv :
        (h : List A) (i : ℕ) (x y : A) (t : List A)
        → Swapped h t i (child less h i) x y
        → get_elem? h i ≡ some x
        → get_elem? h (child less h i) ≡ some y
        → less y x ≡ true
        → DownInv h i
        → DownInv t (child less h i)
    swap-DownInv h i x y t s e f lt (edges, bridges) = (edge, bridge)
      where
        j : ℕ
        j = child less h i

        facts : (i < j) × (parent j ≡ i) × (j ≤ 2 * i + 2)
        facts = child_below h i

        order : either_less less (some x) (some y) ≡ false
        order = asym y x lt

        edge : (c : ℕ) → 0 < c → parent c ≢ j → less_at less t c (parent c) ≡ false
        edge c k n = elim (Bool-cases (c == i)) [
          | inl q ↦
              let same : c ≡ i = ground (arith, q) in
              let pos_i : 0 < i = omega (arith, same, k) in
              let above =
                s.other (parent i) (λ r. omega (arith, r, pos_i))
                  (λ r. omega (arith, r, pos_i, facts.0)) in
              seen less asym ge_trans t c (parent c) (some y) (get_elem? h (parent i))
                (ap (get_elem? t) same ∙ s.at_i) (ap (λ d. get_elem? t (parent d)) same ∙ above)
                (subst (λ o. either_less less o (get_elem? h (parent i)) ≡ false) f
                  (bridges j (omega (arith, facts.0)) facts.1 pos_i))
          | inr q ↦
              let not_i : c ≢ i = λ r. absurd (ground (arith, q, r)) in
              elim (Bool-cases (c == j)) [
                | inl u ↦
                    let same : c ≡ j = ground (arith, u) in
                    seen less asym ge_trans t c (parent c) (some x) (some y)
                      (ap (get_elem? t) same ∙ s.at_j)
                      (ap (λ d. get_elem? t (parent d)) same ∙ (ap (get_elem? t) facts.1 ∙ s.at_i))
                      order
                | inr u ↦
                    let here = s.other c not_i (λ r. absurd (ground (arith, u, r))) in
                    elim (Bool-cases (parent c == i)) [
                      | inl v ↦
                          let p : parent c ≡ i = ground (arith, v) in
                          seen less asym ge_trans t c (parent c) (get_elem? h c) (some y) here
                            (ap (get_elem? t) p ∙ s.at_i)
                            (subst (λ o. either_less less (get_elem? h c) o ≡ false) f
                              (child-least h i c k p))
                      | inr v ↦
                          let apart : parent c ≢ i = λ r. absurd (ground (arith, v, r)) in
                          seen less asym ge_trans t c (parent c) (get_elem? h c)
                            (get_elem? h (parent c)) here (s.other (parent c) apart n)
                            (edges c k apart)
                    ]
              ]
        ]

        bridge : (c : ℕ) → 0 < c → parent c ≡ j → 0 < j → less_at less t c (parent j) ≡ false
        bridge c k p pos_j =
            let not_i : c ≢ i = λ r. omega (arith, r, p, facts.0) in
            let not_j : c ≢ j = λ r. omega (arith, r, p, pos_j) in
            let apart : parent c ≢ i = λ r. omega (arith, r, p, facts.0) in
            let edge_c = subst (λ d. less_at less h c d ≡ false) p (edges c k apart) in
            seen less asym ge_trans t c (parent j) (get_elem? h c) (some y) (s.other c not_i not_j)
              (ap (get_elem? t) facts.1 ∙ s.at_i)
              (subst (λ o. either_less less (get_elem? h c) o ≡ false) f edge_c)

    child_inside :
        (h : List A) (i : ℕ) → leb (length h) (2 * i + 1) ≡ false → child less h i < length h
    child_inside h i q =
        elim (Bool-cases (ltb (2 * i + 2) (length h) && less_at less h (2 * i + 2) (2 * i + 1))) [
          | inl r ↦ rw r (ground (arith, r))
          | inr r ↦ rw r (ground (arith, q))
        ]

    no_children : (h : List A) (i : ℕ) → length h ≤ 2 * i + 1 → DownInv h i → IsHeap less h
    no_children h i l v c k = elim (Bool-cases (parent c == i)) [
      | inl q ↦
          let p : parent c ≡ i = ground (arith, q) in
          less_at-beyond less asym ge_trans h c (parent c) (omega (arith, l, p, k))
      | inr q ↦ v.0 c k (λ r. absurd (ground (arith, q, r)))
    ]

    down-IsHeap :
        (fuel : ℕ) (h : List A) (i : ℕ)
        → length h ≤ i + fuel
        → DownInv h i
        → IsHeap less (down less fuel h i) × Permᴰ (down less fuel h i) h
    unfolding down
    down-IsHeap zero h i l v = (no_children h i (omega (arith, l)) v, Permᴰ.refl h)
    down-IsHeap (suc fuel) h i l v = elim (Bool-cases (leb (length h) (2 * i + 1))) [
      | inl q ↦ rw q (no_children h i (ground (arith, q)) v, Permᴰ.refl h)
      | inr q ↦ elim (Bool-cases (less_at less h (child less h i) i)) [
        | inr lt ↦ rw (q, lt) (settled q lt, Permᴰ.refl h)
        | inl lt ↦
            let (y, x, f, e, yx) = less_at-there less h (child less h i) i lt in
            let below = child_below h i in
            let s = swap-Swapped h i (child less h i) x y below.0 e f in
            let next = swap-DownInv h i x y (swap h i (child less h i)) s e f yx v in
            let rest =
              down-IsHeap fuel (swap h i (child less h i)) (child less h i)
                (omega (arith, s.many, l, below.0)) next in
            rw (q, lt) (rest.0, Permᴰ.trans rest.1 s.items)
      ]
    ]
      where
        settled :
            leb (length h) (2 * i + 1) ≡ false
            → less_at less h (child less h i) i ≡ false
            → IsHeap less h
        settled q lt c k = elim (Bool-cases (parent c == i)) [
          | inl r ↦
              let p : parent c ≡ i = ground (arith, r) in
              let (b, there) = get-there h (child less h i) (child_inside h i q) in
              let above = subst (λ o. either_less less o (get_elem? h i) ≡ false) there lt in
              let least =
                subst (λ o. either_less less (get_elem? h c) o ≡ false) there
                  (child-least h i c k p) in
              subst (λ d. less_at less h c d ≡ false) (sym p)
                (ge less asym ge_trans (get_elem? h c) (get_elem? h i) b least above)
          | inr r ↦ v.0 c k (λ u. absurd (ground (arith, r, u)))
        ]

    fix-DownInv : (root m : A) (rest : List A) → IsHeap less (root ∷ rest) → DownInv (m ∷ rest) 0
    fix-DownInv root m rest v = (edge, λ c k p l. absurd (omega (arith, l)))
      where
        same : (c : ℕ) → c ≢ 0 → get_elem? (m ∷ rest) c ≡ get_elem? (root ∷ rest) c
        same zero n = absurd (n refl)
        same (suc c) n = refl

        edge : (c : ℕ) → 0 < c → parent c ≢ 0 → less_at less (m ∷ rest) c (parent c) ≡ false
        edge c k n =
            seen less asym ge_trans (m ∷ rest) c (parent c) (get_elem? (root ∷ rest) c)
              (get_elem? (root ∷ rest) (parent c)) (same c (λ r. omega (arith, r, k)))
              (same (parent c) n) (v c k)

    pub fix-IsHeap :
        (root m : A) (rest : List A)
        → IsHeap less (root ∷ rest)
        → IsHeap less (fix less (m ∷ rest)) × Permᴰ (fix less (m ∷ rest)) (m ∷ rest)
    unfolding fix
    fix-IsHeap root m rest v =
        down-IsHeap (length (m ∷ rest)) (m ∷ rest) 0 (omega arith) (fix-DownInv root m rest v)

    -- No item is before the root.
    root_below :
        (fuel : ℕ) (h : List A) (c : ℕ) → IsHeap less h → c < fuel → less_at less h c 0 ≡ false
    root_below zero h c v l = absurd (omega (arith, l))
    root_below (suc fuel) h zero v l = less_at_irrefl h 0
    root_below (suc fuel) h (suc c) v l = elim (Bool-cases (ltb (suc c) (length h))) [
      | inr q ↦ less_at-beyond less asym ge_trans h (suc c) 0 (ground (arith, q))
      | inl q ↦
          let (b, there) = get-there h (parent (suc c)) (ground (arith, q)) in
          let edge =
            subst (λ o. either_less less (get_elem? h (suc c)) o ≡ false) there
              (v (suc c) (omega arith)) in
          let above =
            subst (λ o. either_less less o (get_elem? h 0) ≡ false) there
              (root_below fuel h (parent (suc c)) v (omega (arith, l))) in
          ge less asym ge_trans (get_elem? h (suc c)) (get_elem? h 0) b edge above
    ]

    All-behind :
        (r : A) (xs : List A)
        → ((k : ℕ) → either_less less (get_elem? xs k) (some r) ≡ false)
        → All (λ y. less y r ≡ false) xs
    All-behind r [] f = tt
    All-behind r (x ∷ xs) f = (f 0, All-behind r xs (λ k. f (suc k)))

    pub root-first :
        (root : A) (rest : List A) → IsHeap less (root ∷ rest) → All (λ y. less y root ≡ false) rest
    root-first root rest v =
        All-behind root rest (λ k. root_below (suc (suc k)) (root ∷ rest) (suc k) v (omega arith))
