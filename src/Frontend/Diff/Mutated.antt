-- ===== src/Frontend/Diff/Mutated.antt =====
-- internal/frontend/frontend.go: the patch of every mutation fits the source it was made for.
use mutation_judge.Base.{
  ℕ, zero, suc, ◌+◌, ◌-◌, ◌≤◌, ◌<◌, ◌≡◌, ◌⊎◌, refl, sym, ap, ◌∙◌, subst, List, [], ◌∷◌, ◌++◌, some,
  Text, arith, append_assoc, append-nil, length, length-append, take, ltb, if◌then◌else◌, inl, inr,
}
use mutation_judge.Frontend.Diff.{new_line_index, containing, diff_lines, skip, Parts, diff_parts}
use mutation_judge.Frontend.Diff.Index.{
  text_of, text_of-diff_lines, diff_lines-cons, starts, new_line_index-starts, length-starts,
}
use mutation_judge.Frontend.Diff.Applies.{
  locate, split_list, containing-starts, whole, length-text, append-nonempty,
}
use mutation_judge.Frontend.Diff.Patch.{apply_patch, Fits, Fits-whole}

-- At most three lines behind the mutation.
abbrev context : ℕ → ℕ
context n = if ltb n 3 then n else 3

context_le : (n : ℕ) → context n ≤ n
context_le n = ground arith

context_end :
    (all j c a n : ℕ)
    → all ≡ a + n
    → j + 1 ≡ a
    → c ≡ a + context n
    → (if ltb all (j + 4) then all else j + 4) ≡ c
context_end all j c a n e f g = ground (arith, e, f, g)

whole-cons :
    (ks bs : List Text) (y : Text) (as1 as2 xs ds1 ds2 : List Text)
    → ks ≡ as1 ++ as2
    → xs ≡ ds1 ++ ds2
    → as1 ++ (as2 ++ ((bs ++ y ∷ []) ++ (ds1 ++ ds2))) ≡ ks ++ (bs ++ y ∷ xs)
whole-cons ks bs y as1 as2 xs ds1 ds2 e f = rw (e, f) (simp (append_assoc))

-- A mutation from the line behind `ks` to the line `y`.
Fits-lines :
    (ks bs : List Text) (y : Text) (xs : List Text) (start end : ℕ) (replacement : Text)
    → length (text_of ks) ≤ start
    → start ≤ end
    → end ≤ length (text_of ks) + length (text_of bs) + length y
    → Fits (ks ++ (bs ++ y ∷ xs)) start end replacement (length ks) (length ks + length bs)
Fits-lines ks bs y xs start end replacement low order high =
    let old = bs ++ y ∷ [] in
    let sum = length-text bs (y ∷ []) in
    let last = length-append y [] in
    let (as1, as2, e1, l1) = split_list (length ks - 3) ks (omega arith) in
    let (ds1, ds2, e2, l2) = split_list (context (length xs)) xs (context_le (length xs)) in
    let (o, r, e3, l3) = split_list (start - length (text_of ks)) (text_of old) (omega arith) in
    let size = ap (λ t. length t) e3 ∙ length-append o r in
    let (m, p, e4, l4) = split_list (end - start) r (omega arith) in
    let same : text_of old ≡ o ++ (m ++ p) = e3 ∙ ap (λ t. o ++ t) e4 in
    let front = ap (λ v. length (text_of v)) e1 in
    let count = ap (λ v. length v) e1 in
    let count2 = length-append (as1 ++ as2) old in
    let count3 = length-append bs (y ∷ []) in
    let count4 = length-append ((as1 ++ as2) ++ old) ds1 in
    let total =
      length-starts 0 (whole as1 as2 old ds1 ds2)
      ∙ ap (λ v. length v) (whole-cons ks bs y as1 as2 xs ds1 ds2 e1 e2) in
    let total2 = length-append ks (bs ++ y ∷ xs) in
    let total3 = length-append bs (y ∷ xs) in
    let behind =
      context_end (length (starts 0 (whole as1 as2 old ds1 ds2))) (length ks + length bs)
        (length (((as1 ++ as2) ++ old) ++ ds1)) (length ks + length bs + 1) (length xs)
        (omega arith) refl (omega arith) in
    subst (λ v. Fits v start end replacement (length ks) (length ks + length bs))
      (whole-cons ks bs y as1 as2 xs ds1 ds2 e1 e2)
      (Fits-whole as1 as2 old ds1 ds2 o m p replacement same start end (length ks)
        (length ks + length bs) (append-nonempty bs (y ∷ []) (λ e. absurd (ground (arith, e))))
        (omega arith) (omega arith) count (sym l1) (omega arith) behind)

end_ge : (start end : ℕ) → start ≤ end → start ≤ (if ltb start end then end - 1 else end)
end_ge start end h = ground (arith, h)

end_le : (start end n : ℕ) → (if ltb start end then end - 1 else end) < n → end ≤ n
end_le start end n h = ground (arith, h)

-- The lines of the first and the last byte.
Fits-mutation :
    (l : Text) (ls : List Text) (start end : ℕ) (replacement : Text)
    → start ≤ end
    → end ≤ length (text_of (l ∷ ls))
    → Fits
        (l ∷ ls)
        start
        end
        replacement
        (containing (starts 0 (l ∷ ls)) start)
        (containing (starts 0 (l ∷ ls)) (if ltb start end then end - 1 else end))
Fits-mutation l ls start end replacement order high =
    let stop = if ltb start end then end - 1 else end in
    let from_start : start ≤ stop = end_ge start end order in
    let (ks, x, xs, e1, low1, up1) = locate l ls start in
    let (bs, y, ds, e2, low2, up2) = locate x xs (stop - length (text_of ks)) in
    let same : l ∷ ls ≡ ks ++ (bs ++ y ∷ ds) = e1 ∙ ap (λ v. ks ++ v) e2 in
    let same2 : l ∷ ls ≡ (ks ++ bs) ++ y ∷ ds = same ∙ sym (append_assoc ks bs (y ∷ ds)) in
    let sum = length-text ks bs in
    let count = length-append ks bs in
    let reach : (stop < length (text_of (ks ++ bs)) + length y) ⊎ (ds ≡ []) = elim up2 [
      | inl h ↦ inl (omega (arith, h, sum, low1, from_start))
      | inr h ↦ inr h
    ] in
    let size = ap (λ v. length (text_of v)) same2 ∙ length-text (ks ++ bs) (y ∷ ds) in
    let size2 = length-append y (text_of ds) in
    let last : end ≤ length (text_of ks) + length (text_of bs) + length y = elim reach [
      | inl h ↦
          let at_most = end_le start end (length (text_of (ks ++ bs)) + length y) h in
          omega (arith, at_most, sum)
      | inr h ↦
          let none_behind = ap (λ v. length (text_of v)) h in
          omega (arith, high, size, size2, sum, none_behind)
    ] in
    let first_line =
      ap (λ v. containing (starts 0 v) start) e1 ∙ containing-starts start ks x xs low1 up1 in
    let last_line =
      ap (λ v. containing (starts 0 v) stop) same2
      ∙ (containing-starts stop (ks ++ bs) y ds (omega arith) reach ∙ count) in
    let found =
      subst (λ v. Fits v start end replacement (length ks) (length ks + length bs)) (sym same)
        (Fits-lines ks bs y ds start end replacement low1 order last) in
    subst (λ i. Fits (l ∷ ls) start end replacement i (containing (starts 0 (l ∷ ls)) stop))
      (sym first_line)
      (subst (λ j. Fits (l ∷ ls) start end replacement (length ks) j) (sym last_line) found)

-- A mutation in a source, with its line index and its lines.
abbrev Right : Text → List ℕ → List Text → ℕ → ℕ → Text → Type 0
Right src lines ls start end replacement =
    (made : Parts) × (diff_parts src lines start end replacement ≡ some made)
    × (apply_patch ls made ≡ some (take start src ++ (replacement ++ skip end src)))

Right-Fits :
    (l : Text) (ls : List Text) (start end : ℕ) (replacement : Text)
    → start ≤ end
    → end ≤ length (text_of (l ∷ ls))
    → Right (text_of (l ∷ ls)) (starts 0 (l ∷ ls)) (l ∷ ls) start end replacement
unfolding diff_parts
Right-Fits l ls start end replacement order high =
    Fits-mutation l ls start end replacement order high

Right-empty : (replacement : Text) → Right [] (new_line_index []) (diff_lines []) 0 0 replacement
unfolding diff_parts new_line_index diff_lines apply_patch
Right-empty replacement = (
  record {
    context_line = 0;
    prefix_lines = [];
    old_lines = [];
    new_lines = diff_lines (replacement ++ []);
    suffix_lines = [];
  },
  refl,
  ap some (
      append-nil (text_of (diff_lines (replacement ++ [])))
      ∙ text_of-diff_lines (replacement ++ [])),
)

-- For a mutation of the bytes from `start` to `end`, which are in order and inside the source, the patch
-- is made (no index is out of range), it fits the lines of the source, and the source it leads to is the
-- one with the replacement in place of these bytes.
pub diff_parts-apply_patch :
    (src : Text) (start end : ℕ) (replacement : Text)
    → start ≤ end
    → end ≤ length src
    → (made : Parts) × (diff_parts src (new_line_index src) start end replacement ≡ some made)
      × (apply_patch (diff_lines src) made ≡ some (take start src ++ (replacement ++ skip end src)))
diff_parts-apply_patch [] zero zero replacement order high = Right-empty replacement
diff_parts-apply_patch [] zero (suc end) replacement order high = absurd (omega (arith, high))
diff_parts-apply_patch [] (suc start) end replacement order high =
    absurd (omega (arith, order, high))
diff_parts-apply_patch (c ∷ s) start end replacement order high =
    let (l, ls, same) = diff_lines-cons c s in
    let whole_text : text_of (l ∷ ls) ≡ c ∷ s =
      ap text_of (sym same) ∙ text_of-diff_lines (c ∷ s) in
    let index : starts 0 (l ∷ ls) ≡ new_line_index (c ∷ s) =
      ap (starts 0) (sym same) ∙ sym (new_line_index-starts c s) in
    let inside : end ≤ length (text_of (l ∷ ls)) =
      subst (λ t. end ≤ length t) (sym whole_text) high in
    let right = Right-Fits l ls start end replacement order inside in
    subst (λ t. Right t (new_line_index (c ∷ s)) (diff_lines (c ∷ s)) start end replacement)
      whole_text
      (subst (λ i. Right (text_of (l ∷ ls)) i (diff_lines (c ∷ s)) start end replacement) index
        (subst (λ v. Right (text_of (l ∷ ls)) (starts 0 (l ∷ ls)) v start end replacement)
          (sym same) right))
