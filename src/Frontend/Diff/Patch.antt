-- ===== src/Frontend/Diff/Patch.antt =====
-- internal/frontend/frontend.go: what a patch of `unifiedDiff` says, and the source it leads to.
use mutation_judge.Base.{
  ℕ, ◌+◌, ◌-◌, ◌≡◌, ◌≢◌, refl, sym, ap, ◌∙◌, true, List, [], ◌∷◌, ◌++◌, Option, some, Text, arith,
  append_assoc, length, length-append, take, ltb, ◌==◌, if◌then◌else◌, after_prefix,
}
use mutation_judge.Frontend.Diff.{skip, Parts, parts_between, ◌>>=◌}
use mutation_judge.Frontend.Diff.Index.{
  text_of, text_of-append, text_of-diff_lines, starts, skip_all, take_all,
}
use mutation_judge.Frontend.Diff.Applies.{parts_between-whole, whole, parts, text1, text2}

-- A patch on the lines of a file: the context and the old lines must be there, behind as many lines as
-- the patch says.
unfoldable pub apply_patch : List Text → Parts → Option Text
unfolding after_prefix
apply_patch lines p =
    let above = text_of (take p.context_line lines) in
    do
      behind ←
          after_prefix
            (above ++ (text_of p.prefix_lines ++ (text_of p.old_lines ++ text_of p.suffix_lines)))
            (text_of lines)
      some (
          above
          ++ (text_of p.prefix_lines
              ++ (text_of p.new_lines ++ (text_of p.suffix_lines ++ behind))))

after_prefix-append : (s t : Text) → after_prefix s (s ++ t) ≡ some t
unfolding after_prefix
after_prefix-append [] t = refl
after_prefix-append (c ∷ s) t =
    let same : (c == c) ≡ true = ground arith in rw same (after_prefix-append s t)

text_of-four :
    (a b c d : List Text)
    → text_of (a ++ (b ++ (c ++ d))) ≡ text_of a ++ (text_of b ++ (text_of c ++ text_of d))
text_of-four a b c d = simp (text_of-append)

append-four : (a b c d e : Text) → a ++ (b ++ (c ++ (d ++ e))) ≡ (a ++ (b ++ (c ++ d))) ++ e
append-four a b c d e = simp (append_assoc)

-- The patch between two lines fits, and leads to the source with the replacement.
abbrev pub Fits : List Text → ℕ → ℕ → Text → ℕ → ℕ → Type 0
Fits ls start end replacement i j =
    (made : Parts) × (parts_between (text_of ls) (starts 0 ls) start end replacement i j
      ≡ some made)
    × (apply_patch ls made
        ≡ some (take start (text_of ls) ++ (replacement ++ skip end (text_of ls))))

-- The patch of these lines fits, and leads to the source with the replacement.
module _ (as1 as2 bs ds1 ds2 : List Text) (o m p replacement : Text)
    (same : text_of bs ≡ o ++ (m ++ p)) where
  abbrev patch : Parts
  patch = parts as1 as2 bs ds1 ds2 o m p replacement same

  apply_patch-whole :
      apply_patch (whole as1 as2 bs ds1 ds2) patch
      ≡ some ((text_of (as1 ++ as2) ++ o) ++ (replacement ++ (p ++ text_of (ds1 ++ ds2))))
  unfolding apply_patch
  apply_patch-whole =
      let a = text_of as1 in
      let b = text_of as2 in
      let c = text_of bs in
      let d = text_of ds1 in
      let r = text_of ds2 in
      let front : take (length as1) (whole as1 as2 bs ds1 ds2) ≡ as1 =
        take_all as1 (as2 ++ (bs ++ (ds1 ++ ds2))) in
      let all : text_of (whole as1 as2 bs ds1 ds2) ≡ (a ++ (b ++ (c ++ d))) ++ r =
        simp (text_of-append, append_assoc) in
      let fits =
        ap (after_prefix (a ++ (b ++ (c ++ d)))) all
        ∙ after_prefix-append (a ++ (b ++ (c ++ d))) r in
      rw
        (
          front,
          text_of-diff_lines b,
          text_of-diff_lines c,
          text_of-diff_lines d,
          text_of-diff_lines (o ++ (replacement ++ p)),
          fits,
        )
        (ap some (simp (text_of-append, append_assoc)))

  take-whole :
      (start : ℕ)
      → start ≡ length (text_of (as1 ++ as2)) + length o
      → take start (text_of (whole as1 as2 bs ds1 ds2)) ≡ text_of (as1 ++ as2) ++ o
  take-whole start e =
      let behind = (m ++ p) ++ text_of (ds1 ++ ds2) in
      let front = text_of (as1 ++ as2) in
      let cut =
        text1 as1 as2 bs ds1 ds2 o m p replacement same ∙ sym (append_assoc front o behind) in
      let size = e ∙ sym (length-append front o) in
      ap (take start) cut
      ∙ (ap (λ n. take n ((front ++ o) ++ behind)) size ∙ take_all (front ++ o) behind)

  skip-whole :
      (end : ℕ)
      → end ≡ length (text_of (as1 ++ as2)) + length o + length m
      → skip end (text_of (whole as1 as2 bs ds1 ds2)) ≡ p ++ text_of (ds1 ++ ds2)
  skip-whole end e =
      let behind = p ++ text_of (ds1 ++ ds2) in
      let front = text_of (as1 ++ as2) in
      let sum = length-append front (o ++ m) in
      let sum2 = length-append o m in
      let size : end ≡ length (front ++ (o ++ m)) = omega arith in
      ap (skip end) (text2 as1 as2 bs ds1 ds2 o m p replacement same)
      ∙ (ap (λ n. skip n ((front ++ (o ++ m)) ++ behind)) size
          ∙ skip_all (front ++ (o ++ m)) behind)

  pub Fits-whole :
      (start end i j : ℕ)
      → bs ≢ []
      → start ≡ length (text_of (as1 ++ as2)) + length o
      → end ≡ start + length m
      → i ≡ length (as1 ++ as2)
      → i - 3 ≡ length as1
      → j + 1 ≡ length ((as1 ++ as2) ++ bs)
      → (if ltb (length (starts 0 (whole as1 as2 bs ds1 ds2))) (j + 4)
          then length (starts 0 (whole as1 as2 bs ds1 ds2))
          else j + 4)
        ≡ length (((as1 ++ as2) ++ bs) ++ ds1)
      → Fits (whole as1 as2 bs ds1 ds2) start end replacement i j
  Fits-whole start end i j there s e k c l d =
      let made =
        parts_between-whole as1 as2 bs ds1 ds2 o m p replacement same start end i j there s e k c l
          d in
      let before = take-whole start s in
      let behind = skip-whole end (omega arith) in
      (
        patch,
        made,
        apply_patch-whole
            ∙ (ap (λ t. some (t ++ (replacement ++ (p ++ text_of (ds1 ++ ds2))))) (sym before)
                ∙ ap
                    (λ t.
                      some (take start (text_of (whole as1 as2 bs ds1 ds2)) ++ (replacement ++ t)))
                    (sym behind)),
      )
