-- ===== src/Frontend/Selection/Keep.antt =====
-- Offers to the heap of internal/frontend/selection.go, for any order: what a heap of limited size keeps
-- is what is first in a heap without a limit.
use mathlib.Core.Option.{some-injective}
use mutation_judge.Base.{
  ℕ, zero, suc, ◌≡◌, ◌⊎◌, refl, sym, ap, ◌∙◌, subst, Bool, true, false, List, [], ◌∷◌, Option, none,
  some, All, All-imp, arith, length, take, ltb, if◌then◌else◌, inl, inr, Bool-cases,
}
use mutation_judge.Base.Sort.{insert, sort, IsSorted, nil, cons, insert-IsSorted}

module _ {ℓ} {A : Type ℓ} where
  abbrev pub last_of : List A → Option A
  last_of [] = none
  last_of (x ∷ []) = some x
  last_of (x ∷ y ∷ xs) = last_of (y ∷ xs)

  abbrev pub but_last : List A → List A
  but_last [] = []
  but_last (x ∷ []) = []
  but_last (x ∷ y ∷ xs) = x ∷ but_last (y ∷ xs)

module _ {ℓ} {A : Type ℓ} where
  take-nil : (n : ℕ) → take {A = A} n [] ≡ []
  take-nil zero = refl
  take-nil (suc n) = refl

  -- The first items but the last, or all of them.
  take-suc :
      (n : ℕ) (xs : List A)
      → ((ltb (length (take (suc n) xs)) (suc n) ≡ true) × (take (suc n) xs ≡ take n xs))
        ⊎ ((ltb (length (take (suc n) xs)) (suc n) ≡ false)
            × ((r : A) × (last_of (take (suc n) xs) ≡ some r))
            × (but_last (take (suc n) xs) ≡ take n xs))
  take-suc zero [] = inl (refl, refl)
  take-suc zero (x ∷ xs) = inr (refl, (x, refl), refl)
  take-suc (suc n) [] = inl (ground arith, refl)
  take-suc (suc n) (x ∷ []) = inl (ground arith, ap (λ zs. x ∷ zs) (sym (take-nil n)))
  take-suc (suc n) (x ∷ y ∷ xs) = elim (take-suc n (y ∷ xs)) [
    | inl (a, b) ↦ inl (ground (arith, a), ap (λ zs. x ∷ zs) b)
    | inr (a, r, b) ↦ inr (ground (arith, a), r, ap (λ zs. x ∷ zs) b)
  ]

  All-take {κ} : (P : A → Type κ) (n : ℕ) (xs : List A) → All P xs → All P (take n xs)
  All-take P zero xs h = tt
  All-take P (suc n) [] h = tt
  All-take P (suc n) (x ∷ xs) h = (h.0, All-take P n xs h.1)

  All-last_of {κ} : (P : A → Type κ) (xs : List A) (r : A) → All P xs → last_of xs ≡ some r → P r
  All-last_of P [] r h e = absurd (ground (arith, e))
  All-last_of P (x ∷ []) r h e = subst P (some-injective x r e) h.0
  All-last_of P (x ∷ y ∷ xs) r h e = All-last_of P (y ∷ xs) r h.1 e

ltb-suc : (a b : ℕ) → ltb (suc a) (suc b) ≡ ltb a b
ltb-suc a b = ground arith

module _ {ℓ} {A : Type ℓ} (less : A → A → Bool) where
  -- An offer to a heap for `n` items, in order.
  abbrev pub put_root : A → List A → Option A → List A
  put_root m s none = s
  put_root m s (some r) = if less m r then insert less m (but_last s) else s

  abbrev pub keep : ℕ → A → List A → List A
  keep n m s = if ltb (length s) n then insert less m s else put_root m s (last_of s)

  -- Offers in a row, to an unbounded heap and to a bounded one.
  abbrev pub keep_all : ℕ → List A → List A → List A
  keep_all n [] s = s
  keep_all n (m ∷ ms) s = keep_all n ms (keep n m s)

  abbrev collect : List A → List A → List A
  collect [] s = s
  collect (m ∷ ms) s = collect ms (insert less m s)

  -- One of the two comes first.
  abbrev pub Differ : A → A → Type 0
  Differ x y = (less x y ≡ true) ⊎ (less y x ≡ true)

  abbrev pub AllDiffer : List A → Type ℓ
  AllDiffer [] = Unit
  AllDiffer (x ∷ xs) = All (Differ x) xs × AllDiffer xs

module _ {ℓ} {A : Type ℓ} (less : A → A → Bool)
    (asym : (x y : A) → less x y ≡ true → less y x ≡ false)
    (ge_trans : (x y z : A) → less y x ≡ false → less z y ≡ false → less z x ≡ false) where
  -- What is not before the smallest item is offered to the others.
  keep-behind :
      (n : ℕ) (m y : A) (t : List A)
      → less m y ≡ false
      → keep less (suc (suc n)) m (y ∷ t) ≡ y ∷ keep less (suc n) m t
  unfolding insert
  keep-behind n m y [] h =
      let more : ltb 1 (suc (suc n)) ≡ true = ground arith in
      let one : ltb 0 (suc n) ≡ true = ground arith in rw (more, one, h) refl
  keep-behind n m y (z ∷ t) h =
      rw (ltb-suc (suc (length t)) (suc n)) (elim (Bool-cases (ltb (suc (length t)) (suc n))) [
        | inl l ↦ rw (l, h) refl
        | inr l ↦ rw l (at_root (last_of (z ∷ t)))
      ])
    where
      at_root : (o : Option A) → put_root less m (y ∷ z ∷ t) o ≡ y ∷ put_root less m (z ∷ t) o
      at_root none = refl
      at_root (some r) = elim (Bool-cases (less m r)) [ inl k ↦ rw (k, h) refl | inr k ↦ rw k refl ]

  -- What is before all of them comes first, and the last one gives way.
  keep-before :
      (n : ℕ) (m y : A) (ys : List A)
      → less m y ≡ true
      → All (λ z. less m z ≡ true) ys
      → keep less (suc (suc n)) m (y ∷ take (suc n) ys) ≡ m ∷ y ∷ take n ys
  unfolding insert
  keep-before n m y ys h a = rw (ltb-suc (length (take (suc n) ys)) (suc n)) (elim (take-suc n ys) [
    | inl (short, same) ↦ rw (short, h) (ap (λ zs. m ∷ y ∷ zs) same)
    | inr (full, (r, last), same) ↦
        let before : less m r ≡ true =
          All-last_of (λ z. less m z ≡ true) (take (suc n) ys) r
            (All-take (λ z. less m z ≡ true) (suc n) ys a) last in
        rw full (gives_way r last before same)
  ])
    where
      gives_way :
          (r : A)
          → last_of (take (suc n) ys) ≡ some r
          → less m r ≡ true
          → but_last (take (suc n) ys) ≡ take n ys
          → put_root less m (y ∷ take (suc n) ys) (last_of (y ∷ take (suc n) ys))
            ≡ m ∷ y ∷ take n ys
      gives_way r last before same = go (take (suc n) ys) last same
        where
          go :
              (t : List A)
              → last_of t ≡ some r
              → but_last t ≡ take n ys
              → put_root less m (y ∷ t) (last_of (y ∷ t)) ≡ m ∷ y ∷ take n ys
          go [] e q = absurd (ground (arith, e))
          go (z ∷ t) e q = rw (e, before, h) (ap (λ zs. m ∷ y ∷ zs) q)

  insert-before : (m y : A) (ys : List A) → less m y ≡ true → insert less m (y ∷ ys) ≡ m ∷ y ∷ ys
  unfolding insert
  insert-before m y ys h = rw h refl

  insert-behind :
      (m y : A) (ys : List A) → less m y ≡ false → insert less m (y ∷ ys) ≡ y ∷ insert less m ys
  unfolding insert
  insert-behind m y ys h = rw h refl

  keep-take :
      (n : ℕ) (m : A) (s : List A)
      → IsSorted less s
      → keep less (suc n) m (take (suc n) s) ≡ take (suc n) (insert less m s)
  unfolding insert
  keep-take n m [] i =
      let one : ltb 0 (suc n) ≡ true = ground arith in rw one (ap (λ zs. m ∷ zs) (sym (take-nil n)))
  keep-take zero m (y ∷ ys) i = elim (Bool-cases (less m y)) [
    | inl h ↦ rw h refl
    | inr h ↦ rw h refl
  ]
  keep-take (suc n) m (y ∷ ys) (cons a i) = elim (Bool-cases (less m y)) [
    | inl h ↦
        keep-before n m y ys h (All-imp (λ z k. all_behind z h k) ys a)
        ∙ ap (take (suc (suc n))) (sym (insert-before m y ys h))
    | inr h ↦
        keep-behind n m y (take (suc n) ys) h
        ∙ (ap (λ zs. y ∷ zs) (keep-take n m ys i)
            ∙ ap (take (suc (suc n))) (sym (insert-behind m y ys h)))
  ]
    where
      all_behind : (z : A) → less m y ≡ true → less z y ≡ false → less m z ≡ true
      all_behind z h k = elim (Bool-cases (less m z)) [
        | inl e ↦ e
        | inr e ↦ absurd (ground (arith, ge_trans y z m k e, h))
      ]

  keep_all-collect :
      (n : ℕ) (ms s : List A)
      → IsSorted less s
      → keep_all less (suc n) ms (take (suc n) s) ≡ take (suc n) (collect less ms s)
  keep_all-collect n [] s i = refl
  keep_all-collect n (m ∷ ms) s i =
      ap (keep_all less (suc n) ms) (keep-take n m s i)
      ∙ keep_all-collect n ms (insert less m s) (insert-IsSorted less asym ge_trans m i)

  insert_swap :
      (x y : A) (s : List A)
      → less x y ≡ true
      → insert less x (insert less y s) ≡ insert less y (insert less x s)
  unfolding insert
  insert_swap x y [] h = rw (h, asym x y h) refl
  insert_swap x y (z ∷ s) h = elim (Bool-cases (less y z)) [
    | inl e ↦
        let before : less x z ≡ true = elim (Bool-cases (less x z)) [
          | inl k ↦ k
          | inr k ↦ absurd (ground (arith, ge_trans y z x (asym y z e) k, h))
        ] in
        rw (e, before, h, asym x y h, e) refl
    | inr e ↦ elim (Bool-cases (less x z)) [
      | inl k ↦ rw (e, k, asym x y h, e) refl
      | inr k ↦ rw (e, k, e) (ap (λ zs. z ∷ zs) (insert_swap x y s h))
    ]
  ]

  pub insert_comm :
      (x y : A) (s : List A)
      → Differ less x y
      → insert less x (insert less y s) ≡ insert less y (insert less x s)
  insert_comm x y s (inl h) = insert_swap x y s h
  insert_comm x y s (inr h) = sym (insert_swap y x s h)

  collect-insert :
      (x : A) (ms s : List A)
      → All (Differ less x) ms
      → collect less ms (insert less x s) ≡ insert less x (collect less ms s)
  collect-insert x [] s h = refl
  collect-insert x (m ∷ ms) s h =
      ap (collect less ms) (sym (insert_comm x m s h.0)) ∙ collect-insert x ms (insert less m s) h.1

  collect-sort : (ms : List A) → AllDiffer less ms → collect less ms [] ≡ sort less ms
  unfolding sort
  collect-sort [] h = refl
  collect-sort (m ∷ ms) h = collect-insert m ms [] h.0 ∙ ap (insert less m) (collect-sort ms h.1)

  pub keep_all-sort :
      (n : ℕ) (ms : List A)
      → AllDiffer less ms
      → keep_all less (suc n) ms [] ≡ take (suc n) (sort less ms)
  keep_all-sort n ms h = keep_all-collect n ms [] nil ∙ ap (take (suc n)) (collect-sort ms h)
