-- ===== src/Config/Trimmed.antt =====
-- Text that `strings.TrimSpace` leaves alone: words of ASCII letters, and what ends in a quote.
use mutation_judge.Base.{
  ℕ, ◌≡◌, refl, Bool, true, false, [], ◌∷◌, ◌++◌, Text, arith, ◌==◌, leb, ◌&&◌, ◌||◌,
}
use mutation_judge.Base.Blank.{blank_from, is_blank}
use mutation_judge.Base.Trim.{skip_space, cut_space}

-- A lower-case letter or a low line.
abbrev pub is_word : ℕ → Bool
is_word c = leb b'a' c && leb c b'z' || c == b'_'

-- A visible ASCII character: it is no white space, and no byte of one.
abbrev pub is_visible : ℕ → Bool
is_visible c = leb 33 c && leb c 126

pub blank_from-visible : (c : ℕ) (s : Text) → is_visible c ≡ true → is_blank (c ∷ s) ≡ false
unfolding blank_from
blank_from-visible c [] h = ground arith
blank_from-visible c (d ∷ []) h = ground arith
blank_from-visible c (d ∷ e ∷ s) h = ground arith

pub skip_space-visible : (c : ℕ) (s : Text) → is_visible c ≡ true → skip_space 0 (c ∷ s) ≡ c ∷ s
unfolding skip_space
skip_space-visible c [] h = ground arith
skip_space-visible c (d ∷ []) h = ground arith
skip_space-visible c (d ∷ e ∷ s) h = ground arith

-- A text that ends in a visible character is not blank.
blank-end : (s : Text) (q : ℕ) → is_visible q ≡ true → is_blank (s ++ q ∷ []) ≡ false
unfolding blank_from
blank-end [] q h = ground (arith, blank_from-visible q [] h)
blank-end (c ∷ []) q h = ground (arith, blank-end [] q h)
blank-end (c ∷ d ∷ []) q h = ground (arith, blank-end (d ∷ []) q h, blank-end [] q h)
blank-end (c ∷ d ∷ e ∷ s) q h =
    ground (arith, blank-end (d ∷ e ∷ s) q h, blank-end (e ∷ s) q h, blank-end s q h)

pub cut_space-end : (s : Text) (q : ℕ) → is_visible q ≡ true → cut_space (s ++ q ∷ []) ≡ s ++ q ∷ []
unfolding cut_space
cut_space-end [] q h = rw (blank_from-visible q [] h) refl
cut_space-end (c ∷ s) q h = rw (blank-end (c ∷ s) q h, cut_space-end s q h) refl
