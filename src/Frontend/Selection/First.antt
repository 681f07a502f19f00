-- ===== src/Frontend/Selection/First.antt =====
-- The heap of internal/frontend/selection.go holds the first mutations of all that were offered.
use mathlib.Core.List.{Permᴰ}
use mathlib.Core.List.Permᴰ.{trans, symm, middle, append_right}
use mutation_judge.Base.{
  if◌then◌else◌, ◌++◌, ◌≢◌, sym, some, All, text_lt-asym, text_lt-ge_trans, ℕ, zero, suc, ◌≡◌, refl,
  ap, ◌∙◌, true, false, List, [], ◌∷◌, arith, length, take, ltb, inl, inr, Bool-cases,
}
use mutation_judge.Base.Heap.{push, fix, IsHeap}
use mutation_judge.Base.Heap.Up.{push-IsHeap}
use mutation_judge.Base.Heap.Down.{fix-IsHeap, root-first}
use mutation_judge.Base.Sort.{insert, sort, length-sort}
use mutation_judge.Frontend.Selection.{
  heap_less, mutation_less, offer, offer_all, sorted, replace_root,
}
use mutation_judge.Model.{Mutation}
use mutation_judge.Base.Int.{
  ℤ, pos, negsuc, int_eq, int_eq_iff, int_lt, int_lt-asym, int_lt_trans, int_lt-total,
}
use mutation_judge.Compare.Order.{level-asym, level-ge_trans}
use mutation_judge.Frontend.Selection.Ordering.{
  last_of-append, but_last-append, AllDiffer-Perm, sort-Perm, sort-root,
}
use mutation_judge.Frontend.Selection.Keep.{
  last_of, but_last, put_root, keep, keep_all, Differ, AllDiffer, keep_all-sort,
}

pub mutation_less-asym : (a b : Mutation) → mutation_less a b ≡ true → mutation_less b a ≡ false
unfolding mutation_less
mutation_less-asym a b =
    level-asym int_eq int_lt int_eq_iff int_lt-asym int_lt_trans int_lt-total a.span.start_byte
      b.span.start_byte _ _ (text_lt-asym a.id b.id)

pub mutation_less-ge_trans :
    (a b c : Mutation)
    → mutation_less b a ≡ false
    → mutation_less c b ≡ false
    → mutation_less c a ≡ false
unfolding mutation_less
mutation_less-ge_trans a b c =
    level-ge_trans int_eq int_lt int_eq_iff int_lt-asym int_lt_trans int_lt-total a.span.start_byte
      b.span.start_byte c.span.start_byte _ _ _ (text_lt-ge_trans a.id b.id c.id)

-- How many mutations a limit lets pass.
abbrev pub room : ℤ → ℕ
room (pos n) = n
room (negsuc n) = 0

All-prefix {ℓ κ} : {A : Type ℓ} (P : A → Type κ) (xs ys : List A) → All P (xs ++ ys) → All P xs
All-prefix P [] ys h = tt
All-prefix P (x ∷ xs) ys h = (h.0, All-prefix P xs ys h.1)

AllDiffer-prefix :
    (xs ys : List Mutation) → AllDiffer mutation_less (xs ++ ys) → AllDiffer mutation_less xs
AllDiffer-prefix [] ys h = tt
AllDiffer-prefix (x ∷ xs) ys h =
    (All-prefix (Differ mutation_less x) xs ys h.0, AllDiffer-prefix xs ys h.1)

-- The next offer is one of the items now.
AllDiffer-next :
    (xs ys : List Mutation) (m : Mutation) (ms : List Mutation)
    → Permᴰ ys (m ∷ xs)
    → AllDiffer mutation_less (xs ++ m ∷ ms)
    → AllDiffer mutation_less (ys ++ ms)
AllDiffer-next xs ys m ms p h =
    AllDiffer-Perm mutation_less mutation_less-asym mutation_less-ge_trans
      (trans (middle m xs ms) (append_right ms (symm p))) h

-- The next offer is not one of them.
AllDiffer-drop :
    (xs : List Mutation) (m : Mutation) (ms : List Mutation)
    → AllDiffer mutation_less (xs ++ m ∷ ms)
    → AllDiffer mutation_less (xs ++ ms)
AllDiffer-drop xs m ms h =
    (AllDiffer-Perm mutation_less mutation_less-asym mutation_less-ge_trans (middle m xs ms) h).1

sort-next :
    (xs ys : List Mutation) (m : Mutation)
    → Permᴰ ys (m ∷ xs)
    → AllDiffer mutation_less ys
    → sort mutation_less ys ≡ insert mutation_less m (sort mutation_less xs)
unfolding sort
sort-next xs ys m p h = sort-Perm mutation_less mutation_less-asym mutation_less-ge_trans p h

heap_less-asym : (a b : Mutation) → heap_less a b ≡ true → heap_less b a ≡ false
heap_less-asym a b = mutation_less-asym b a

heap_less-ge_trans :
    (a b c : Mutation) → heap_less b a ≡ false → heap_less c b ≡ false → heap_less c a ≡ false
heap_less-ge_trans a b c h k = mutation_less-ge_trans c b a k h

-- What container/heap does with this order.
IsHeap-push :
    (items : List Mutation) (m : Mutation)
    → IsHeap heap_less items
    → IsHeap heap_less (push heap_less items m) × Permᴰ (push heap_less items m) (m ∷ items)
IsHeap-push items m h = push-IsHeap heap_less heap_less-asym heap_less-ge_trans items m h

IsHeap-fix :
    (root m : Mutation) (rest : List Mutation)
    → IsHeap heap_less (root ∷ rest)
    → IsHeap heap_less (fix heap_less (m ∷ rest)) × Permᴰ (fix heap_less (m ∷ rest)) (m ∷ rest)
IsHeap-fix root m rest h = fix-IsHeap heap_less heap_less-asym heap_less-ge_trans root m rest h

heap-root :
    (root : Mutation) (rest : List Mutation)
    → IsHeap heap_less (root ∷ rest)
    → All (λ y. mutation_less root y ≡ false) rest
heap-root root rest h = root-first heap_less heap_less-asym heap_less-ge_trans root rest h

no_room :
    (limit : ℤ) (ms items : List Mutation)
    → int_lt (pos 0) limit ≡ false
    → (offer_all ms (record { limit = limit; items = items })).items ≡ items
unfolding offer_all offer
no_room limit [] items h = refl
no_room limit (m ∷ ms) items h = rw (h, offer, offer_all) (no_room limit ms items h)

abbrev next : ℕ → Mutation → List Mutation → List Mutation
next n m items = if ltb (length items) (suc n) then push heap_less items m else replace_root m items

offer-next :
    (n : ℕ) (m : Mutation) (items : List Mutation)
    → offer m (record { limit = pos (suc n); items = items })
      ≡ record { limit = pos (suc n); items = next n m items }
unfolding offer int_lt
offer-next n m items =
    let positive : ltb 0 (suc n) ≡ true = ground arith in
    rw positive
      (elim (Bool-cases (ltb (length items) (suc n))) [ inl e ↦ rw e refl | inr e ↦ rw e refl ])

-- The heap has the items of the list `s`, which is in order, and they differ from the offers to come.
record Keeps (items s ms : List Mutation) : Type 0 where
  is_heap : IsHeap heap_less items
  in_order : sort mutation_less items ≡ s
  differ : AllDiffer mutation_less (items ++ ms)

push-Keeps :
    (m : Mutation) (items s ms : List Mutation)
    → Keeps items s (m ∷ ms)
    → Keeps (push heap_less items m) (insert mutation_less m s) ms
push-Keeps m items s ms k =
    let pushed = IsHeap-push items m k.is_heap in
    let differ = AllDiffer-next items (push heap_less items m) m ms pushed.1 k.differ in
    record {
      is_heap = pushed.0;
      in_order =
          sort-next items (push heap_less items m) m pushed.1
            (AllDiffer-prefix (push heap_less items m) ms differ)
          ∙ ap (insert mutation_less m) k.in_order;
      differ = differ;
    }

replace_root-Keeps :
    (m : Mutation) (items s ms : List Mutation)
    → items ≢ []
    → Keeps items s (m ∷ ms)
    → Keeps (replace_root m items) (put_root mutation_less m s (last_of s)) ms
unfolding replace_root
replace_root-Keeps m [] s ms ne k = absurd (ne refl)
replace_root-Keeps m (root ∷ rest) s ms ne k =
    let split : s ≡ sort mutation_less rest ++ root ∷ [] =
      sym k.in_order
      ∙ sort-root mutation_less mutation_less-asym mutation_less-ge_trans root rest
          (heap-root root rest k.is_heap) in
    let last : last_of s ≡ some root =
      ap last_of split ∙ last_of-append (sort mutation_less rest) root in
    let others : but_last s ≡ sort mutation_less rest =
      ap but_last split ∙ but_last-append (sort mutation_less rest) root in
    let after = fix heap_less (m ∷ rest) in
    let fixed = IsHeap-fix root m rest k.is_heap in
    let differ = AllDiffer-next rest after m ms fixed.1 k.differ.1 in
    elim (Bool-cases (mutation_less m root)) [
      | inl e ↦
          rw (last, e, others)
            (record {
              is_heap = fixed.0;
              in_order = sort-next rest after m fixed.1 (AllDiffer-prefix after ms differ);
              differ = differ;
            })
      | inr e ↦
          rw (last, e)
            (record {
              is_heap = k.is_heap;
              in_order = k.in_order;
              differ = AllDiffer-drop (root ∷ rest) m ms k.differ;
            })
    ]

next-Keeps :
    (n : ℕ) (m : Mutation) (items s ms : List Mutation)
    → Keeps items s (m ∷ ms)
    → Keeps (next n m items) (keep mutation_less (suc n) m s) ms
next-Keeps n m items s ms k =
    let many : length items ≡ length s =
      sym (length-sort mutation_less items) ∙ ap (λ t. length t) k.in_order in
    rw many (elim (Bool-cases (ltb (length s) (suc n))) [
      | inl e ↦ rw e (push-Keeps m items s ms k)
      | inr e ↦ rw e (
          replace_root-Keeps m items s ms
            (λ none_there. absurd (ground (arith, many, e, ap (λ t. length t) none_there))) k)
    ])

offer_all-Keeps :
    (n : ℕ) (ms items s : List Mutation)
    → Keeps items s ms
    → sorted (offer_all ms (record { limit = pos (suc n); items = items }))
      ≡ keep_all mutation_less (suc n) ms s
unfolding offer_all sorted
offer_all-Keeps n [] items s k = k.in_order
offer_all-Keeps n (m ∷ ms) items s k =
    ap (λ t. sorted (offer_all ms t)) (offer-next n m items)
    ∙ offer_all-Keeps n ms (next n m items) (keep mutation_less (suc n) m s)
        (next-Keeps n m items s ms k)

-- The mutations that are selected from those of a file, offered in any order, are the first ones in the
-- order of their offset and ID, as many as the limit says, where no two have the same offset and ID; a
-- limit that is not positive selects none.
pub offer_all-first :
    (limit : ℤ) (ms : List Mutation)
    → AllDiffer mutation_less ms
    → sorted (offer_all ms (record { limit = limit; items = [] }))
      ≡ take (room limit) (sort mutation_less ms)
unfolding int_lt sorted sort
offer_all-first (pos zero) ms h = ap (sort mutation_less) (no_room (pos zero) ms [] refl)
offer_all-first (negsuc n) ms h = ap (sort mutation_less) (no_room (negsuc n) ms [] refl)
offer_all-first (pos (suc n)) ms h =
    offer_all-Keeps n ms [] [] (record { is_heap = (λ c k. refl); in_order = refl; differ = h })
    ∙ keep_all-sort mutation_less mutation_less-asym mutation_less-ge_trans n ms h
