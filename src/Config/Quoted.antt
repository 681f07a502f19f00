-- ===== src/Config/Quoted.antt =====
-- What the scans of internal/config/config.go make of a key and of a text in single quotes.
use mutation_judge.Base.{
  ℕ, ◌≡◌, refl, ap, ◌∙◌, Bool, true, false, not, ◌&&◌, [], ◌∷◌, ◌++◌, some, Text, All, arith, ◌==◌,
}
use mutation_judge.Base.Outcome.{ok}
use mutation_judge.Base.Trim.{cut_space, trim_space}
use mutation_judge.Config.{Std}
use mutation_judge.Config.Quotes.{
  outside, single, find_comment, no_comment, split_from, closed_by, unquote, unquote_trimmed,
}
use mutation_judge.Config.Trimmed.{is_word, blank_from-visible, skip_space-visible, cut_space-end}

-- A byte that changes nothing in a scan outside of quotes.
abbrev pub is_bare : ℕ → Bool
is_bare c = not (c == b'"') && (not (c == b'\'') && not (c == b'#'))

pub find_comment-bare :
    (p s : Text)
    → All (λ c. is_bare c ≡ true) p
    → find_comment outside s ≡ no_comment
    → find_comment outside (p ++ s) ≡ no_comment
unfolding find_comment
find_comment-bare [] s b h = h
find_comment-bare (c ∷ p) s b h = ground (arith, find_comment-bare p s b.1 h, b.0)

abbrev pub NoQuote : Text → Type 0
NoQuote = All (λ c. (c == b'\'') ≡ false)

pub find_comment-single :
    (v s : Text)
    → NoQuote v
    → find_comment outside s ≡ no_comment
    → find_comment single (v ++ b'\'' ∷ s) ≡ no_comment
unfolding find_comment
find_comment-single [] s b h = ground (arith, h)
find_comment-single (c ∷ v) s b h = ground (arith, find_comment-single v s b.1 h, b.0)

pub split_from-bare :
    (sep : ℕ) (p s : Text)
    → is_bare sep ≡ true
    → All (λ c. (is_bare c && not (c == sep)) ≡ true) p
    → split_from sep outside (p ++ sep ∷ s) ≡ some (p, s)
unfolding split_from
split_from-bare sep [] s h b = ground (arith, h)
split_from-bare sep (c ∷ p) s h b = ground (arith, split_from-bare sep p s h b.1, b.0)

pub closed_by-end : (q : ℕ) (v : Text) → closed_by q (v ++ q ∷ []) ≡ some v
unfolding closed_by
closed_by-end q [] = ground arith
closed_by-end q (c ∷ []) = ground (arith, closed_by-end q [])
closed_by-end q (c ∷ d ∷ v) = rw (closed_by-end q (d ∷ v)) refl

abbrev pub quoted : Text → Text
quoted v = b'\'' ∷ (v ++ b'\'' ∷ [])

pub trim_space-quoted : (v : Text) → trim_space (quoted v) ≡ quoted v
trim_space-quoted v =
    ap cut_space (skip_space-visible b'\'' (v ++ b'\'' ∷ []) refl)
    ∙ cut_space-end (b'\'' ∷ v) b'\'' refl

unquote_trimmed-quoted : (std : Std) (v : Text) → unquote_trimmed std (quoted v) ≡ ok v
unfolding unquote_trimmed
unquote_trimmed-quoted std [] = refl
unquote_trimmed-quoted std (c ∷ v) = rw (closed_by-end b'\'' (c ∷ v)) refl

-- The text between single quotes is the value, whatever stands there.
pub unquote-quoted : (std : Std) (v : Text) → unquote std (quoted v) ≡ ok v
unfolding unquote
unquote-quoted std v = ap (unquote_trimmed std) (trim_space-quoted v) ∙ unquote_trimmed-quoted std v

-- A word with a blank behind it.
pub cut_space-word : (w : Text) → All (λ c. is_word c ≡ true) w → cut_space (w ++ b' ' ∷ []) ≡ w
unfolding cut_space
cut_space-word [] h = refl
cut_space-word (c ∷ w) h =
    rw (blank_from-visible c (w ++ b' ' ∷ []) (ground (arith, h.0)), cut_space-word w h.1) refl
