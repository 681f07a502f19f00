-- ===== src/Frontend/Diff/Index.antt =====
-- The line index of internal/frontend/frontend.go: offsets, lines and slices.
use mutation_judge.Base.{
  ℕ, suc, ◌+◌, ◌-◌, ◌≤◌, ◌<◌, ◌≡◌, ◌⊎◌, refl, sym, ap, ◌∙◌, true, false, List, [], ◌∷◌, ◌++◌, some,
  Text, arith, append_assoc, length, length-append, take, get_elem?, ltb, leb, ◌==◌, inl, inr,
  Bool-cases,
}
use mutation_judge.Frontend.Diff.{
  line_starts, new_line_index, search, diff_lines, first_piece, skip, slice,
}

-- The text of lines.
abbrev pub text_of : List Text → Text
text_of [] = []
text_of (l ∷ ls) = l ++ text_of ls

pub text_of-append : (ks bs : List Text) → text_of (ks ++ bs) ≡ text_of ks ++ text_of bs
text_of-append [] bs = refl
text_of-append (a ∷ ks) bs =
    ap (λ t. a ++ t) (text_of-append ks bs) ∙ sym (append_assoc a (text_of ks) (text_of bs))

pub text_of-diff_lines : (s : Text) → text_of (diff_lines s) ≡ s
unfolding diff_lines
text_of-diff_lines [] = refl
text_of-diff_lines (c ∷ s) = elim (Bool-cases (c == b'\n')) [
  | inl e ↦ rw (e, diff_lines) (ap (λ t. c ∷ t) (text_of-diff_lines s))
  | inr e ↦ rw (e, diff_lines) (go (diff_lines s) (text_of-diff_lines s))
]
  where
    go : (ls : List Text) → text_of ls ≡ s → text_of (first_piece c ls) ≡ c ∷ s
    go [] h = ap (λ t. c ∷ t) h
    go (l ∷ ls) h = ap (λ t. c ∷ t) h

-- The offset of each line, from `i` on.
abbrev pub starts : ℕ → List Text → List ℕ
starts i [] = []
starts i (l ∷ ls) = i ∷ starts (i + length l) ls

abbrev starts_behind : ℕ → List Text → List ℕ
starts_behind i [] = []
starts_behind i (l ∷ ls) = starts (i + length l) ls

-- A text that is not empty has a first line.
pub diff_lines-cons :
    (c : ℕ) (s : Text) → (l : Text) × (ls : List Text) × (diff_lines (c ∷ s) ≡ l ∷ ls)
unfolding diff_lines
diff_lines-cons c s = elim (Bool-cases (c == b'\n')) [
  | inl e ↦ (c ∷ [], diff_lines s, rw (e, diff_lines) refl)
  | inr e ↦ let (l, ls, h) = go (diff_lines s) in (l, ls, rw (e, diff_lines) h)
]
  where
    go : (ms : List Text) → (l : Text) × (ls : List Text) × (first_piece c ms ≡ l ∷ ls)
    go [] = (c ∷ [], [], refl)
    go (m ∷ ms) = (c ∷ m, ms, refl)

starts_newline :
    (i c d : ℕ) (s : Text)
    → (c == b'\n') ≡ true
    → line_starts i (c ∷ d ∷ s) ≡ (i + 1) ∷ line_starts (i + 1) (d ∷ s)
unfolding line_starts
starts_newline i c d s e = rw e refl

starts_other :
    (i c d : ℕ) (s : Text)
    → (c == b'\n') ≡ false
    → line_starts i (c ∷ d ∷ s) ≡ line_starts (i + 1) (d ∷ s)
unfolding line_starts
starts_other i c d s e = rw e refl

behind_newline :
    (i c : ℕ) (s : Text)
    → (c == b'\n') ≡ true
    → starts_behind i (diff_lines (c ∷ s)) ≡ starts (i + 1) (diff_lines s)
unfolding diff_lines
behind_newline i c s e = rw e refl

behind_other :
    (i c : ℕ) (s : Text)
    → (c == b'\n') ≡ false
    → starts_behind i (diff_lines (c ∷ s)) ≡ starts_behind i (first_piece c (diff_lines s))
unfolding diff_lines
behind_other i c s e = rw e refl

line_starts-diff_lines : (i : ℕ) (s : Text) → line_starts i s ≡ starts_behind i (diff_lines s)
unfolding line_starts diff_lines
line_starts-diff_lines i [] = refl
line_starts-diff_lines i (c ∷ []) = elim (Bool-cases (c == b'\n')) [
  | inl e ↦ rw (e, diff_lines) refl
  | inr e ↦ rw (e, diff_lines) refl
]
line_starts-diff_lines i (c ∷ d ∷ s) =
    let (l, ls, h) = diff_lines-cons d s in
    let rest : line_starts (i + 1) (d ∷ s) ≡ starts (i + 1 + length l) ls =
      line_starts-diff_lines (i + 1) (d ∷ s) ∙ ap (starts_behind (i + 1)) h in
    elim (Bool-cases (c == b'\n')) [
      | inl e ↦
          starts_newline i c d s e
          ∙ (ap (λ ns. (i + 1) ∷ ns) rest
              ∙ (sym (ap (starts (i + 1)) h) ∙ sym (behind_newline i c (d ∷ s) e)))
      | inr e ↦
          starts_other i c d s e
          ∙ (rest
              ∙ (ap (λ n. starts n ls) (omega arith)
                  ∙ (ap (λ ms. starts_behind i (first_piece c ms)) (sym h)
                      ∙ sym (behind_other i c (d ∷ s) e))))
    ]

pub new_line_index-starts :
    (c : ℕ) (s : Text) → new_line_index (c ∷ s) ≡ starts 0 (diff_lines (c ∷ s))
unfolding new_line_index
new_line_index-starts c s =
    let (l, ls, h) = diff_lines-cons c s in
    ap (λ ns. 0 ∷ ns) (line_starts-diff_lines 0 (c ∷ s) ∙ ap (starts_behind 0) h)
    ∙ sym (ap (starts 0) h)

-- Where the offset is in the line `x`, or behind the last line.
pub search-starts :
    (i offset : ℕ) (ks : List Text) (x : Text) (xs : List Text)
    → i + length (text_of ks) ≤ offset
    → (offset < i + length (text_of ks) + length x) ⊎ (xs ≡ [])
    → search (starts i (ks ++ x ∷ xs)) offset ≡ suc (length ks)
unfolding search
search-starts i offset [] x [] low high =
    let at_or_above : ltb offset i ≡ false = ground arith in rw at_or_above refl
search-starts i offset [] x (y ∷ ys) low high =
    let at_or_above : ltb offset i ≡ false = ground arith in
    let below : ltb offset (i + length x) ≡ true = elim high [
      | inl h ↦ ground arith
      | inr h ↦ absurd (ground (arith, h))
    ] in
    rw (at_or_above, below) refl
search-starts i offset (a ∷ ks) x xs low high =
    let sum = length-append a (text_of ks) in
    let at_or_above : ltb offset i ≡ false = ground arith in
    let high_behind : (offset < i + length a + length (text_of ks) + length x) ⊎ (xs ≡ []) =
      elim high [ inl h ↦ inl (omega arith) | inr h ↦ inr h ] in
    rw at_or_above (ap suc (search-starts (i + length a) offset ks x xs (omega arith) high_behind))

pub get_elem?-starts :
    (i : ℕ) (ks : List Text) (x : Text) (xs : List Text)
    → get_elem? (starts i (ks ++ x ∷ xs)) (length ks) ≡ some (i + length (text_of ks))
get_elem?-starts i [] x xs = ap some (omega arith)
get_elem?-starts i (a ∷ ks) x xs =
    get_elem?-starts (i + length a) ks x xs ∙ ap some (omega (arith, length-append a (text_of ks)))

pub length-starts : (i : ℕ) (ls : List Text) → length (starts i ls) ≡ length ls
length-starts i [] = refl
length-starts i (l ∷ ls) = ap suc (length-starts (i + length l) ls)

pub skip_all : (s t : Text) → skip (length s) (s ++ t) ≡ t
skip_all [] t = refl
skip_all (c ∷ s) t = skip_all s t

pub take_all {ℓ} : {A : Type ℓ} (s t : List A) → take (length s) (s ++ t) ≡ s
take_all [] t = refl
take_all (c ∷ s) t = ap (λ u. c ∷ u) (take_all s t)

-- A slice in the middle.
pub slice-middle :
    (a b : ℕ) (s t u : Text)
    → a ≡ length s
    → b ≡ length s + length t
    → slice a b (s ++ (t ++ u)) ≡ some t
unfolding slice
slice-middle a b s t u h k =
    let sum = length-append s (t ++ u) in
    let more = length-append t u in
    let ordered : leb a b ≡ true = ground arith in
    let inside : leb b (length (s ++ (t ++ u))) ≡ true = ground arith in
    let size : b - a ≡ length t = omega arith in
    rw (ordered, inside)
      (ap some (
        ap (λ n. take (b - a) (skip n (s ++ (t ++ u)))) h
        ∙ (ap (take (b - a)) (skip_all s (t ++ u))
            ∙ (ap (λ n. take n (t ++ u)) size ∙ take_all t u))))
