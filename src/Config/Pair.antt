-- ===== src/Config/Pair.antt =====
-- How the loop of `Load` in internal/config/config.go reads a line `key = value` or `key : value`.
use mutation_judge.Base.{
  ℕ, ◌≡◌, refl, sym, ap, ◌∙◌, Bool, true, false, not, ◌&&◌, ◌||◌, List, [], ◌∷◌, ◌++◌, some, Text,
  All, arith, ◌==◌, append_assoc, has_prefix, after_prefix, codes,
}
use mutation_judge.Base.Outcome.{ok, map_ok, wrap, ◌>>=◌}
use mutation_judge.Base.Trim.{skip_space, cut_space, trim_space, indent}
use mutation_judge.Model.Validate.{is_empty}
use mutation_judge.Config.{Std, Config}
use mutation_judge.Config.Quotes.{
  outside, find_comment, no_comment, split_outside_quotes, strip_comment,
}
use mutation_judge.Config.Load.{
  Key, key_name, find_key, key_in, load_line, load_trimmed, set_pair, separator, set, in_line,
  not_set, bad_value,
}
use mutation_judge.Config.Trimmed.{is_word, is_visible, skip_space-visible, cut_space-end}
use mutation_judge.Config.Quoted.{is_bare, find_comment-bare, split_from-bare, cut_space-word}

-- A value as a file can hold it: visible at both ends, with no comment in it and no quote left open.
pub record IsValue (value : Text) : Type 0 where
  pub first : ℕ
  pub behind : Text
  pub from_first : value ≡ first ∷ behind
  pub first_visible : is_visible first ≡ true
  pub before : Text
  pub last : ℕ
  pub to_last : value ≡ before ++ last ∷ []
  pub last_visible : is_visible last ≡ true
  pub uncommented : find_comment outside value ≡ no_comment

abbrev pub IsWord : Text → Type 0
IsWord = All (λ c. is_word c ≡ true)

abbrev pub pair : ℕ → Text → Text → Text
pair sep w value = w ++ b' ' ∷ sep ∷ b' ' ∷ value

pub key_name-IsWord : (k : Key) → IsWord (key_name k)
key_name-IsWord k = ground arith

pub find_key_name : (k : Key) → find_key (key_name k) ≡ some k
unfolding key_in
find_key_name k = ground arith

module _ (sep : ℕ) (bare : is_bare sep ≡ true) (no_word : is_word sep ≡ false)
    (no_blank : (b' ' == sep) ≡ false) (c : ℕ) (w : Text) (word : IsWord (c ∷ w)) (value : Text)
    (v : IsValue value) where
  words_bare : (u : Text) → IsWord u → All (λ d. is_bare d ≡ true) u
  words_bare [] h = tt
  words_bare (d ∷ u) h = (ground (arith, h.0), words_bare u h.1)

  pair_uncommented : strip_comment (pair sep (c ∷ w) value) ≡ ok (pair sep (c ∷ w) value)
  unfolding strip_comment
  pair_uncommented =
      let blank =
        find_comment-bare (b' ' ∷ sep ∷ b' ' ∷ []) value (refl, (bare, (refl, tt))) v.uncommented in
      rw
        (
          find_comment-bare (c ∷ w) (b' ' ∷ sep ∷ b' ' ∷ value) (words_bare (c ∷ w) word) blank,
          strip_comment,
        )
        refl

  pair_trimmed : trim_space (pair sep (c ∷ w) value) ≡ pair sep (c ∷ w) value
  pair_trimmed =
      let whole : pair sep (c ∷ w) (v.before ++ v.last ∷ [])
          ≡ pair sep (c ∷ w) v.before ++ v.last ∷ [] =
        sym (append_assoc (c ∷ w) (b' ' ∷ sep ∷ b' ' ∷ v.before) (v.last ∷ [])) in
      let same : pair sep (c ∷ w) value ≡ pair sep (c ∷ w) v.before ++ v.last ∷ [] =
        ap (pair sep (c ∷ w)) v.to_last ∙ whole in
      ap cut_space (skip_space-visible c (w ++ b' ' ∷ sep ∷ b' ' ∷ value) (ground (arith, word.0)))
      ∙ (ap cut_space same
          ∙ (cut_space-end (pair sep (c ∷ w) v.before) v.last v.last_visible ∙ sym same))

  words_apart :
      (u : Text) → IsWord u → All (λ d. (is_bare d && not (d == sep)) ≡ true) (u ++ b' ' ∷ [])
  words_apart [] h = (ground (arith, no_blank), tt)
  words_apart (d ∷ u) h = (ground (arith, h.0, no_word), words_apart u h.1)

  pair_split :
      split_outside_quotes (pair sep (c ∷ w) value) sep ≡ some (c ∷ (w ++ b' ' ∷ []), b' ' ∷ value)
  pair_split =
      ap (λ t. split_outside_quotes t sep)
        (sym (append_assoc (c ∷ w) (b' ' ∷ []) (sep ∷ b' ' ∷ value)))
      ∙ split_from-bare sep ((c ∷ w) ++ b' ' ∷ []) (b' ' ∷ value) bare (words_apart (c ∷ w) word)

  key_trimmed : trim_space (c ∷ (w ++ b' ' ∷ [])) ≡ c ∷ w
  key_trimmed =
      ap cut_space (skip_space-visible c (w ++ b' ' ∷ []) (ground (arith, word.0)))
      ∙ cut_space-word (c ∷ w) word

  value_trimmed : trim_space (b' ' ∷ value) ≡ value
  unfolding skip_space
  value_trimmed =
      ap (λ t. cut_space (skip_space 0 t)) v.from_first
      ∙ (ap cut_space (skip_space-visible v.first v.behind v.first_visible)
          ∙ (ap cut_space (sym v.from_first ∙ v.to_last)
              ∙ (cut_space-end v.before v.last v.last_visible ∙ sym v.to_last)))

  not_nested :
      (has_prefix (codes "[") (pair sep (c ∷ w) value)
        || (has_prefix (codes "-") (pair sep (c ∷ w) value)
            || has_prefix (codes "{") (pair sep (c ∷ w) value)))
      ≡ false
  unfolding after_prefix
  not_nested = ground (arith, word.0)

  value_there : is_empty value ≡ false
  value_there = ap is_empty v.from_first

separator-bare :
    (std : Std) (yaml : Bool)
    → (is_bare (separator std yaml) ≡ true)
      × (is_word (separator std yaml) ≡ false)
      × ((b' ' == separator std yaml) ≡ false)
separator-bare std true = (refl, refl, refl)
separator-bare std false = (refl, refl, refl)

-- A pair of a word and a value gives both to `set_pair`, and the value to the key of that name.
module _ (std : Std) (yaml : Bool) (n : ℕ) (d : Config) (ls : List Text) (c : ℕ) (w : Text)
    (word : IsWord (c ∷ w)) (value : Text) (v : IsValue value) where
  abbrev sep : ℕ
  sep = separator std yaml

  load_trimmed-pair :
      (parent : ℕ)
      → load_trimmed std yaml n d parent ls (pair sep (c ∷ w) value)
        ≡ set_pair std yaml n d parent ls (c ∷ w) value
  unfolding load_trimmed
  load_trimmed-pair parent =
      let (b, i, j) = separator-bare std yaml in
      rw
        (not_nested sep b i j c w word value v, pair_split sep b i j c w word value v, load_trimmed)
        (ap (λ k. set_pair std yaml n d parent ls k (trim_space (b' ' ∷ value)))
            (key_trimmed sep b i j c w word value v)
          ∙ ap (set_pair std yaml n d parent ls (c ∷ w)) (value_trimmed sep b i j c w word value v))

  set_pair-value :
      (parent : ℕ)
      → set_pair std yaml n d parent ls (c ∷ w) value
        ≡ map_ok (λ e. (e, 0)) (wrap (λ e. in_line n (not_set e)) (set std d (c ∷ w) value))
  unfolding set_pair
  set_pair-value parent =
      let (b, i, j) = separator-bare std yaml in
      rw (value_there sep b i j c w word value v, set_pair) refl

  pub load_line-pair :
      load_line std yaml n d (pair sep (c ∷ w) value) ls
      ≡ map_ok (λ e. (e, 0)) (wrap (λ e. in_line n (not_set e)) (set std d (c ∷ w) value))
  unfolding load_line
  load_line-pair =
      let (b, i, j) = separator-bare std yaml in
      let line = pair sep (c ∷ w) value in
      ap
        (λ o.
          wrap (λ e. in_line n (bad_value e)) o
          >>= (λ raw. load_trimmed std yaml n d (indent raw) ls (trim_space raw)))
        (pair_uncommented sep b i j c w word value v)
      ∙ (ap (load_trimmed std yaml n d (indent line) ls) (pair_trimmed sep b i j c w word value v)
          ∙ (load_trimmed-pair (indent line) ∙ set_pair-value (indent line)))
