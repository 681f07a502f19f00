-- ===== src/Frontend/Diff/Applies.antt =====
-- The patch of a mutation, applied to the source, gives the mutated source.
use mutation_judge.Base.{
  ℕ, zero, suc, ◌+◌, ◌-◌, ◌≤◌, ◌<◌, ◌≡◌, ◌≢◌, ◌⊎◌, refl, sym, ap, ◌∙◌, true, false, List, [], ◌∷◌,
  ◌++◌, some, Text, arith, append_assoc, append-nil, length, length-append, get_elem?, ltb,
  if◌then◌else◌, inl, inr, Bool-cases, ltb→lt,
}
use mutation_judge.Frontend.Diff.{containing, diff_lines, slice, end_offset, Parts, parts_between}
use mutation_judge.Frontend.Diff.Index.{
  text_of, text_of-append, starts, search-starts, get_elem?-starts, length-starts, slice-middle,
}

-- The line with the offset, or the last one.
pub locate :
    (l : Text) (ls : List Text) (offset : ℕ)
    → (ks : List Text) × (x : Text) × (xs : List Text) × (l ∷ ls ≡ ks ++ x ∷ xs)
      × (length (text_of ks) ≤ offset)
      × ((offset < length (text_of ks) + length x) ⊎ (xs ≡ []))
locate l [] offset = ([], l, [], refl, omega arith, inr refl)
locate l (m ∷ ms) offset = elim (Bool-cases (ltb offset (length l))) [
  | inl e ↦
      let low : offset < length l = ltb→lt offset (length l) e in
      ([], l, m ∷ ms, refl, omega arith, inl (omega (arith, low)))
  | inr e ↦
      let high : length l ≤ offset = ground (arith, e) in
      let (ks, x, xs, same, low, up) = locate m ms (offset - length l) in
      let sum = length-append l (text_of ks) in
      (
        l ∷ ks,
        x,
        xs,
        ap (λ t. l ∷ t) same,
        omega (arith, sum, low, high),
        elim up [ inl h ↦ inl (omega (arith, sum, h, high)) | inr h ↦ inr h ],
      )
]

pub split_list {ℓ} :
    {A : Type ℓ} (n : ℕ) (ls : List A)
    → n ≤ length ls
    → (ks : List A) × (ms : List A) × (ls ≡ ks ++ ms) × (length ks ≡ n)
split_list zero ls h = ([], ls, refl, refl)
split_list (suc n) [] h = absurd (omega (arith, h))
split_list (suc n) (l ∷ ls) h =
    let (ks, ms, e, k) = split_list n ls (omega (arith, h)) in
    (l ∷ ks, ms, ap (λ t. l ∷ t) e, ap suc k)

pub containing-starts :
    (offset : ℕ) (ks : List Text) (x : Text) (xs : List Text)
    → length (text_of ks) ≤ offset
    → (offset < length (text_of ks) + length x) ⊎ (xs ≡ [])
    → containing (starts 0 (ks ++ x ∷ xs)) offset ≡ length ks
unfolding containing
containing-starts offset ks x xs low high =
    let high_from : (offset < 0 + length (text_of ks) + length x) ⊎ (xs ≡ []) = elim high [
      | inl h ↦ inl (omega (arith, h))
      | inr h ↦ inr h
    ] in
    ap (λ n. n - 1) (search-starts 0 offset ks x xs (omega (arith, low)) high_from) ∙ omega arith

end_offset-starts :
    (ks xs : List Text)
    → end_offset (starts 0 (ks ++ xs)) (text_of (ks ++ xs)) (length ks) ≡ some (length (text_of ks))
unfolding end_offset
end_offset-starts ks [] =
    let all : length (starts 0 (ks ++ [])) ≡ length ks =
      length-starts 0 (ks ++ []) ∙ ap (λ t. length t) (append-nil ks) in
    let last : ltb (length ks) (length (starts 0 (ks ++ []))) ≡ false = ground (arith, all) in
    rw last (ap (λ t. some (length (text_of t))) (append-nil ks))
end_offset-starts ks (x ∷ xs) =
    let all = length-starts 0 (ks ++ x ∷ xs) in
    let sum = length-append ks (x ∷ xs) in
    let inside : ltb (length ks) (length (starts 0 (ks ++ x ∷ xs))) ≡ true =
      ground (arith, all, sum) in
    rw inside (get_elem?-starts 0 ks x xs ∙ ap some (omega arith))

-- A slice of a text that is cut in three.
slice-in :
    (a b : ℕ) (src s t u : Text)
    → src ≡ s ++ (t ++ u)
    → a ≡ length s
    → b ≡ length s + length t
    → slice a b src ≡ some t
slice-in a b src s t u e h k = ap (slice a b) e ∙ slice-middle a b s t u h k

offset-at :
    (w xs ys : List Text) (k : ℕ)
    → w ≡ xs ++ ys
    → k ≡ length xs
    → end_offset (starts 0 w) (text_of w) k ≡ some (length (text_of xs))
offset-at w xs ys k e h =
    ap (λ v. end_offset (starts 0 v) (text_of v) k) e
    ∙ (ap (end_offset (starts 0 (xs ++ ys)) (text_of (xs ++ ys))) h ∙ end_offset-starts xs ys)

start-at :
    (w xs ys : List Text) (k : ℕ)
    → w ≡ xs ++ ys
    → ys ≢ []
    → k ≡ length xs
    → get_elem? (starts 0 w) k ≡ some (length (text_of xs))
start-at w xs [] k e f h = absurd (f refl)
start-at w xs (y ∷ ys) k e f h =
    ap (λ v. get_elem? (starts 0 v) k) e
    ∙ (ap (get_elem? (starts 0 (xs ++ y ∷ ys))) h
        ∙ (get_elem?-starts 0 xs y ys ∙ ap some (omega arith)))

text-cut :
    (w xs ys zs : List Text)
    → w ≡ xs ++ (ys ++ zs)
    → text_of w ≡ text_of xs ++ (text_of ys ++ text_of zs)
text-cut w xs ys zs e =
    ap text_of e ∙ (text_of-append xs (ys ++ zs) ∙ ap (λ t. text_of xs ++ t) (text_of-append ys zs))

pub length-text :
    (xs ys : List Text) → length (text_of (xs ++ ys)) ≡ length (text_of xs) + length (text_of ys)
length-text xs ys =
    ap (λ t. length t) (text_of-append xs ys) ∙ length-append (text_of xs) (text_of ys)

-- The lines from `xs` to the end of `ys` are cut out.
slice-lines :
    (w xs ys zs : List Text)
    → w ≡ xs ++ (ys ++ zs)
    → slice (length (text_of xs)) (length (text_of (xs ++ ys))) (text_of w) ≡ some (text_of ys)
slice-lines w xs ys zs e =
    slice-in (length (text_of xs)) (length (text_of (xs ++ ys))) (text_of w) (text_of xs)
      (text_of ys) (text_of zs) (text-cut w xs ys zs e) refl (length-text xs ys)

pub append-nonempty {ℓ} : {A : Type ℓ} (xs ys : List A) → ys ≢ [] → xs ++ ys ≢ []
append-nonempty [] ys h = h
append-nonempty (x ∷ xs) ys h = λ e. absurd (ground (arith, e))

nonempty-append {ℓ} : {A : Type ℓ} (xs ys : List A) → xs ≢ [] → xs ++ ys ≢ []
nonempty-append [] ys h = λ e. h refl
nonempty-append (x ∷ xs) ys h = λ e. absurd (ground (arith, e))

-- The lines of a source, around those of a mutation: in front of the context, the context, the lines
-- themselves, the context behind them, and the rest.
module _ (as1 as2 bs ds1 ds2 : List Text) where
  abbrev pub whole : List Text
  whole = as1 ++ (as2 ++ (bs ++ (ds1 ++ ds2)))

  abbrev lines : List ℕ
  lines = starts 0 whole

  abbrev src : Text
  src = text_of whole

  cut1 : whole ≡ (as1 ++ as2) ++ (bs ++ (ds1 ++ ds2))
  cut1 = sym (append_assoc as1 as2 (bs ++ (ds1 ++ ds2)))

  cut2 : whole ≡ ((as1 ++ as2) ++ bs) ++ (ds1 ++ ds2)
  cut2 = cut1 ∙ sym (append_assoc (as1 ++ as2) bs (ds1 ++ ds2))

  cut3 : whole ≡ (((as1 ++ as2) ++ bs) ++ ds1) ++ ds2
  cut3 = cut2 ∙ sym (append_assoc ((as1 ++ as2) ++ bs) ds1 ds2)

  -- The texts of these lines, where the mutation is `m`, with `o` before and `p` behind it.
  module _ (o m p replacement : Text) (same : text_of bs ≡ o ++ (m ++ p)) where
    abbrev pub parts : Parts
    parts = record {
      context_line = length as1;
      prefix_lines = diff_lines (text_of as2);
      old_lines = diff_lines (text_of bs);
      new_lines = diff_lines (o ++ (replacement ++ p));
      suffix_lines = diff_lines (text_of ds1);
    }

    pub text1 : src ≡ text_of (as1 ++ as2) ++ (o ++ ((m ++ p) ++ text_of (ds1 ++ ds2)))
    text1 =
        text-cut whole (as1 ++ as2) bs (ds1 ++ ds2) cut1
        ∙ (ap (λ t. text_of (as1 ++ as2) ++ (t ++ text_of (ds1 ++ ds2))) same
            ∙ ap (λ t. text_of (as1 ++ as2) ++ t) (append_assoc o (m ++ p) (text_of (ds1 ++ ds2))))

    pub text2 : src ≡ (text_of (as1 ++ as2) ++ (o ++ m)) ++ (p ++ text_of (ds1 ++ ds2))
    text2 =
        text1
        ∙ (ap (λ t. text_of (as1 ++ as2) ++ (o ++ t)) (append_assoc m p (text_of (ds1 ++ ds2)))
            ∙ (ap (λ t. text_of (as1 ++ as2) ++ t)
                  (sym (append_assoc o m (p ++ text_of (ds1 ++ ds2))))
                ∙ sym (append_assoc (text_of (as1 ++ as2)) (o ++ m) (p ++ text_of (ds1 ++ ds2)))))

    pub parts_between-whole :
        (start end i j : ℕ)
        → bs ≢ []
        → start ≡ length (text_of (as1 ++ as2)) + length o
        → end ≡ start + length m
        → i ≡ length (as1 ++ as2)
        → i - 3 ≡ length as1
        → j + 1 ≡ length ((as1 ++ as2) ++ bs)
        → (if ltb (length lines) (j + 4) then length lines else j + 4)
          ≡ length (((as1 ++ as2) ++ bs) ++ ds1)
        → parts_between src lines start end replacement i j ≡ some parts
    unfolding parts_between
    parts_between-whole start end i j there s e k c l d =
        let size = ap (λ t. length t) same ∙ length-append o (m ++ p) in
        let size2 = length-append m p in
        let all = length-text (as1 ++ as2) bs in
        let front = length-append (text_of (as1 ++ as2)) (o ++ m) in
        let front2 = length-append o m in
        let f1 =
          start-at whole (as1 ++ as2) (bs ++ (ds1 ++ ds2)) i cut1
            (nonempty-append bs (ds1 ++ ds2) there) k in
        let f2 = offset-at whole ((as1 ++ as2) ++ bs) (ds1 ++ ds2) (j + 1) cut2 l in
        let f3 = slice-lines whole (as1 ++ as2) bs (ds1 ++ ds2) cut1 in
        let f4 =
          slice-in (length (text_of (as1 ++ as2))) start src (text_of (as1 ++ as2)) o
            ((m ++ p) ++ text_of (ds1 ++ ds2)) text1 refl s in
        let f5 =
          slice-in end (length (text_of ((as1 ++ as2) ++ bs))) src
            (text_of (as1 ++ as2) ++ (o ++ m)) p (text_of (ds1 ++ ds2)) text2 (omega arith)
            (omega arith) in
        let f6 =
          start-at whole as1 (as2 ++ (bs ++ (ds1 ++ ds2))) (i - 3) refl
            (append-nonempty as2 (bs ++ (ds1 ++ ds2)) (nonempty-append bs (ds1 ++ ds2) there)) c in
        let f7 = offset-at whole (((as1 ++ as2) ++ bs) ++ ds1) ds2 _ cut3 d in
        let f8 = slice-lines whole as1 as2 (bs ++ (ds1 ++ ds2)) refl in
        let f9 = slice-lines whole ((as1 ++ as2) ++ bs) ds1 ds2 cut2 in
        rw (f1, f2, f3, f4, f5, f6, f7, f8, f9, c) refl
