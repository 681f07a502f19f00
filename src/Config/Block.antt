-- ===== src/Config/Block.antt =====
-- The two ways to write a list in YAML, as `Load` of internal/config/config.go reads them.
use mutation_judge.Base.{
  ℕ, ◌+◌, ◌≡◌, refl, sym, ap, ◌∙◌, Bool, true, false, List, [], ◌∷◌, ◌++◌, map, some, Text, All,
  All-imp, All-append, length, codes, text_eq, after_prefix,
}
use mutation_judge.Base.Outcome.{Outcome, ok, fail, map_ok, wrap, ◌>>=◌}
use mutation_judge.Base.Trim.{skip_space, cut_space, trim_space, indent}
use mutation_judge.Config.{Std, Config}
use mutation_judge.Config.Quotes.{find_comment, strip_comment}
use mutation_judge.Config.Load.{
  SetError, in_line, not_set, set_list, separator, load_line, load_trimmed, set_pair, set_items,
  load_lines, load, checked, block_list, block_item, block_trimmed, block_line, has_bracket,
}
use mutation_judge.Config.Quoted.{NoQuote, quoted, find_comment-single, trim_space-quoted}
use mutation_judge.Config.Trimmed.{skip_space-visible, cut_space-end}
use mutation_judge.Config.Listed.{IsItem, list_entry-quoted}
use mutation_judge.Config.Written.{
  Entry, list, IsEntry, entry_line, apply, load_line-entry, IsShort, load-lines,
}
use mutation_judge.GitDiff.RoundTrip.{unlines}

-- An item of a block: a bracket and a brace are refused there.
abbrev pub IsBlockItem : Text → Type 0
IsBlockItem i = IsItem i × (has_bracket (quoted i) ≡ false)

abbrev pub item_line : Text → Text
item_line i = b' ' ∷ b' ' ∷ b'-' ∷ b' ' ∷ quoted i

abbrev pub block_lines : Text → List Text → List Text
block_lines i js = codes "operators:" ∷ map item_line (i ∷ js)

item_uncommented : (i : Text) → NoQuote i → strip_comment (item_line i) ≡ ok (item_line i)
unfolding strip_comment find_comment
item_uncommented i h = rw (find_comment-single i [] h refl, strip_comment, find_comment) refl

item_trimmed : (i : Text) → trim_space (item_line i) ≡ b'-' ∷ b' ' ∷ quoted i
unfolding skip_space
item_trimmed i =
    ap cut_space (skip_space-visible b'-' (b' ' ∷ quoted i) refl)
    ∙ cut_space-end (b'-' ∷ b' ' ∷ b'\'' ∷ i) b'\'' refl

block_item-quoted : (std : Std) (i : Text) → IsBlockItem i → block_item std (quoted i) ≡ ok (some i)
unfolding block_item
block_item-quoted std i h = rw (h.1, list_entry-quoted std i h.0.0) refl

block_trimmed-item :
    (std : Std) (i : Text)
    → IsBlockItem i
    → block_trimmed std 0 2 (b'-' ∷ b' ' ∷ quoted i) ≡ ok (some i)
unfolding block_trimmed after_prefix skip_space
block_trimmed-item std i h =
    ap (λ t. block_item std t) (trim_space-quoted i) ∙ block_item-quoted std i h

block_line-item :
    (std : Std) (i : Text) → IsBlockItem i → block_line std 0 (item_line i) ≡ ok (some i)
unfolding block_line indent
block_line-item std i h =
    ap (λ o. o >>= (λ raw. block_trimmed std 0 (indent raw) (trim_space raw)))
      (item_uncommented i h.0.1)
    ∙ (ap (block_trimmed std 0 2) (item_trimmed i) ∙ block_trimmed-item std i h)

block_list-items :
    (std : Std) (is : List Text)
    → All IsBlockItem is
    → block_list std 0 (map item_line is) ≡ ok (is, length is)
unfolding block_list
block_list-items std [] h = refl
block_list-items std (i ∷ is) h =
    rw (block_line-item std i h.0, block_list-items std is h.1, block_list) refl

-- The line of the key takes the items behind it.
load_line-key :
    (std : Std) (n : ℕ) (c : Config) (ls : List Text)
    → load_line std true n c (codes "operators:") ls
      ≡ set_items n c (codes "operators") (block_list std 0 ls)
unfolding load_line load_trimmed set_pair
load_line-key std n c ls = refl

load_line-block :
    (std : Std) (n : ℕ) (c : Config) (i : Text) (js : List Text)
    → All IsBlockItem (i ∷ js)
    → load_line std true n c (codes "operators:") (map item_line (i ∷ js))
      ≡ ok (record c { operators = i ∷ js }, length (i ∷ js))
unfolding set_list text_eq
load_line-block std n c i js h =
    load_line-key std n c (map item_line (i ∷ js))
    ∙ ap (set_items n c (codes "operators")) (block_list-items std (i ∷ js) h)

load_lines-skip :
    (std : Std) (yaml : Bool) (n : ℕ) (c : Config) (is : List Text)
    → load_lines std yaml n (length is) c (map item_line is) ≡ ok c
unfolding load_lines
load_lines-skip std yaml n c [] = refl
load_lines-skip std yaml n c (i ∷ is) = load_lines-skip std yaml (n + 1) c is

load_lines-block :
    (std : Std) (n : ℕ) (c : Config) (i : Text) (js : List Text)
    → All IsBlockItem (i ∷ js)
    → load_lines std true n 0 c (block_lines i js)
      ≡ load_lines std true n 0 c (entry_line b':' (list i js) ∷ [])
unfolding load_lines
load_lines-block std n c i js h =
    let inline = load_line-entry std true n c (list i js) [] (All-imp (λ k a. a.0) (i ∷ js) h) in
    ap (λ o. o >>= (λ (d, k). load_lines std true (n + 1) k d (map item_line (i ∷ js))))
      (load_line-block std n c i js h)
    ∙ (load_lines-skip std true (n + 1) (record c { operators = i ∷ js }) (i ∷ js)
        ∙ sym (rw (inline, load_lines) refl))

-- Lines behind the same entries.
load_lines-behind :
    (std : Std) (yaml : Bool) (n : ℕ) (c : Config) (es : List Entry) (xs ys : List Text)
    → All IsEntry es
    → ((m : ℕ) (d : Config) → load_lines std yaml m 0 d xs ≡ load_lines std yaml m 0 d ys)
    → load_lines std yaml n 0 c (map (entry_line (separator std yaml)) es ++ xs)
      ≡ load_lines std yaml n 0 c (map (entry_line (separator std yaml)) es ++ ys)
unfolding load_lines
load_lines-behind std yaml n c [] xs ys h f = f n c
load_lines-behind std yaml n c (e ∷ es) xs ys h f =
    rw
      (
        load_line-entry std yaml n c e (map (entry_line (separator std yaml)) es ++ xs) h.0,
        load_line-entry std yaml n c e (map (entry_line (separator std yaml)) es ++ ys) h.0,
        load_lines,
      )
      (go (apply std c e) λ d. load_lines-behind std yaml (n + 1) d es xs ys h.1 f)
  where
    rest : List Text → List Text
    rest zs = map (entry_line (separator std yaml)) es ++ zs

    go :
        (o : Outcome SetError Config)
        → ((d : Config)
            → load_lines std yaml (n + 1) 0 d (rest xs) ≡ load_lines std yaml (n + 1) 0 d (rest ys))
        → (map_ok (λ d. (d, 0)) (wrap (λ r. in_line n (not_set r)) o)
            >>= (λ (d, k). load_lines std yaml (n + 1) k d (rest xs)))
          ≡ (map_ok (λ d. (d, 0)) (wrap (λ r. in_line n (not_set r)) o)
              >>= (λ (d, k). load_lines std yaml (n + 1) k d (rest ys)))
    go (ok d) g = g d
    go (fail r) g = refl

-- In YAML, `Load` reads an indented block of quoted operators at the end of a file as it reads the same
-- items in brackets on the line of the key, where other entries stand before, no item is empty or has a
-- single quote, a bracket, a brace or a newline, and each line is shorter than 64 KiB.
pub load-block :
    (std : Std) (es : List Entry) (i : Text) (js : List Text) (base : Config)
    → All IsEntry es
    → All IsBlockItem (i ∷ js)
    → All IsShort (map (entry_line b':') es)
    → All IsShort (entry_line b':' (list i js) ∷ block_lines i js)
    → load std true (unlines (map (entry_line b':') es ++ block_lines i js)) base
      ≡ load std true (unlines (map (entry_line b':') es ++ entry_line b':' (list i js) ∷ [])) base
load-block std es i js base h items short block =
    load-lines std true (map (entry_line b':') es ++ block_lines i js) base
      (All-append IsShort (map (entry_line b':') es) (block_lines i js) short block.1)
    ∙ (ap (λ o. o >>= checked std)
          (load_lines-behind std true 1 base es (block_lines i js)
            (entry_line b':' (list i js) ∷ []) h λ m d. load_lines-block std m d i js items)
        ∙ sym (
            load-lines std true (map (entry_line b':') es ++ entry_line b':' (list i js) ∷ []) base
              (All-append IsShort (map (entry_line b':') es) (entry_line b':' (list i js) ∷ [])
                short (block.0, tt))))
