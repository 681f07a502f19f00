-- ===== src/Config/Written.antt =====
-- A file with one quoted value, or one list of quoted items, to a key, as `Load` of
-- internal/config/config.go reads it.
use mutation_judge.Base.{
  ℕ, ◌+◌, ◌≡◌, ◌≢◌, refl, sym, subst, ap, ◌∙◌, Bool, false, List, [], ◌∷◌, ◌++◌, map, Text, All,
  All-imp, arith, append_assoc, ◌==◌, length, leb, if◌then◌else◌,
}
use mutation_judge.Base.Outcome.{Outcome, ok, fail, map_ok, wrap, ◌>>=◌}
use mutation_judge.Config.{Std, Config}
use mutation_judge.Config.Quotes.{outside, find_comment, no_comment, unquote}
use mutation_judge.Config.Load.{
  Key, operators, key_name, SetError, LoadError, in_line, not_set, set, set_key, set_list, assign,
  separator, load_line, load_lines, load, checked, any_long, too_long, in_value,
}
use mutation_judge.Config.Quoted.{
  NoQuote, quoted, find_comment-bare, unquote-quoted, find_comment-single,
}
use mutation_judge.Config.Pair.{
  IsValue, IsWord, pair, find_key_name, key_name-IsWord, load_line-pair,
}
use mutation_judge.Config.Listed.{IsItem, items_text, bracketed, parse_list-bracketed}
use mutation_judge.GitDiff.Scan.{drop_cr}
use mutation_judge.GitDiff.RoundTrip.{unlines, raw_lines-unlines}

-- A line of the file; a list has at least one item.
pub data Entry : Type 0 where
  scalar : Key → Text → Entry
  list : Text → List Text → Entry

abbrev pub entry_key : Entry → Key
entry_key (scalar k v) = k
entry_key (list i js) = operators

abbrev pub entry_value : Entry → Text
entry_value (scalar k v) = quoted v
entry_value (list i js) = bracketed i js

abbrev pub entry_line : ℕ → Entry → Text
entry_line sep e = pair sep (key_name (entry_key e)) (entry_value e)

-- What stands in quotes has no quote in it, an item is not empty, and a scalar is no list.
abbrev pub IsEntry : Entry → Type 0
IsEntry (scalar k v) = (k ≢ operators) × NoQuote v
IsEntry (list i js) = All IsItem (i ∷ js)

-- What an entry does to the settings.
abbrev pub apply : Std → Config → Entry → Outcome SetError Config
apply std c (scalar k v) = assign std c k v
apply std c (list i js) = ok (record c { operators = i ∷ js })

-- The entries one after another, from line `n`, up to the first that is refused.
pub apply_all : Std → ℕ → Config → List Entry → Outcome LoadError Config
apply_all std n c [] = ok c
apply_all std n c (e ∷ es) =
    wrap (λ r. in_line n (not_set r)) (apply std c e) >>= λ d. apply_all std (n + 1) d es

items_uncommented :
    (i : Text) (js : List Text) (s : Text)
    → All NoQuote (i ∷ js)
    → find_comment outside s ≡ no_comment
    → find_comment outside (items_text i js ++ s) ≡ no_comment
unfolding find_comment
items_uncommented i [] s b h =
    ap (λ t. find_comment outside (b'\'' ∷ t)) (append_assoc i (b'\'' ∷ []) s)
    ∙ rw (find_comment-single i s b.0 h, find_comment) refl
items_uncommented i (j ∷ js) s b h =
    let rest =
      find_comment-bare (b',' ∷ b' ' ∷ []) (items_text j js ++ s) (refl, (refl, tt))
        (items_uncommented j js s b.1 h) in
    ap (λ t. find_comment outside (b'\'' ∷ t))
      (append_assoc i (b'\'' ∷ b',' ∷ b' ' ∷ items_text j js) s)
    ∙ rw (find_comment-single i (b',' ∷ b' ' ∷ (items_text j js ++ s)) b.0 rest, find_comment) refl

entry_value-IsValue : (e : Entry) → IsEntry e → IsValue (entry_value e)
unfolding find_comment
entry_value-IsValue (scalar k v) h = record {
  first = b'\'';
  behind = v ++ b'\'' ∷ [];
  from_first = refl;
  first_visible = refl;
  before = b'\'' ∷ v;
  last = b'\'';
  to_last = refl;
  last_visible = refl;
  uncommented = rw (find_comment-single v [] h.1 refl, find_comment) refl;
}
entry_value-IsValue (list i js) h = record {
  first = b'[';
  behind = items_text i js ++ b']' ∷ [];
  from_first = refl;
  first_visible = refl;
  before = b'[' ∷ items_text i js;
  last = b']';
  to_last = refl;
  last_visible = refl;
  uncommented =
      rw (items_uncommented i js (b']' ∷ []) (All-imp (λ k a. a.1) (i ∷ js) h) refl, find_comment)
        refl;
}

set_key-scalar :
    (std : Std) (c : Config) (t : Text) (k : Key) (v : Text)
    → k ≢ operators
    → set_key std c t k v ≡ (wrap in_value (unquote std v) >>= assign std c k)
set_key-scalar std c t operators v h = absurd (h refl)
set_key-scalar std c t _ v h = refl

set-entry :
    (std : Std) (c : Config) (e : Entry)
    → IsEntry e
    → set std c (key_name (entry_key e)) (entry_value e) ≡ apply std c e
unfolding set set_list
set-entry std c (scalar k v) h =
    rw (find_key_name k, set)
      (set_key-scalar std c (key_name k) k (quoted v) h.0 ∙ rw (unquote-quoted std v) refl)
set-entry std c (list i js) h = rw (parse_list-bracketed std i js h) refl

key_name-cons : (k : Key) → (d : ℕ) × (w : Text) × (key_name k ≡ d ∷ w)
key_name-cons operators = (_, _, refl)
key_name-cons _ = (_, _, refl)

pub load_line-entry :
    (std : Std) (yaml : Bool) (n : ℕ) (c : Config) (e : Entry) (ls : List Text)
    → IsEntry e
    → load_line std yaml n c (entry_line (separator std yaml) e) ls
      ≡ map_ok (λ d. (d, 0)) (wrap (λ r. in_line n (not_set r)) (apply std c e))
load_line-entry std yaml n c e ls h =
    let (d, w, same) = key_name-cons (entry_key e) in
    let word : IsWord (d ∷ w) = subst IsWord same (key_name-IsWord (entry_key e)) in
    ap (λ t. load_line std yaml n c (pair (separator std yaml) t (entry_value e)) ls) same
    ∙ (load_line-pair std yaml n c ls d w word (entry_value e) (entry_value-IsValue e h)
        ∙ (ap
              (λ t.
                map_ok (λ d. (d, 0))
                  (wrap (λ r. in_line n (not_set r)) (set std c t (entry_value e))))
              (sym same)
            ∙ ap (λ o. map_ok (λ d. (d, 0)) (wrap (λ r. in_line n (not_set r)) o))
                (set-entry std c e h)))

load_lines-entries :
    (std : Std) (yaml : Bool) (n : ℕ) (c : Config) (es : List Entry)
    → All IsEntry es
    → load_lines std yaml n 0 c (map (entry_line (separator std yaml)) es) ≡ apply_all std n c es
unfolding load_lines apply_all
load_lines-entries std yaml n c [] h = refl
load_lines-entries std yaml n c (e ∷ es) h =
    let rest = map (entry_line (separator std yaml)) es in
    rw (load_line-entry std yaml n c e rest h.0, load_lines)
      (go (apply std c e) λ d. load_lines-entries std yaml (n + 1) d es h.1)
  where
    go :
        (o : Outcome SetError Config)
        → ((d : Config)
            → load_lines std yaml (n + 1) 0 d (map (entry_line (separator std yaml)) es)
              ≡ apply_all std (n + 1) d es)
        → (map_ok (λ d. (d, 0)) (wrap (λ r. in_line n (not_set r)) o) >>= (λ (d, k).
            load_lines std yaml (n + 1) k d (map (entry_line (separator std yaml)) es)))
          ≡ (wrap (λ r. in_line n (not_set r)) o >>= (λ d. apply_all std (n + 1) d es))
    go (ok d) f = f d
    go (fail r) f = refl

-- A line of the file that the scanner takes, with no newline and no carriage return at its end.
abbrev pub IsShort : Text → Type 0
IsShort l = All (λ c. (c == b'\n') ≡ false) l × (leb 65536 (length l) ≡ false) × (drop_cr l ≡ l)

pub any_long-short :
    (ls : List Text) → All IsShort ls → (any_long ls ≡ false) × (map drop_cr ls ≡ ls)
unfolding any_long
any_long-short [] h = (refl, refl)
any_long-short (l ∷ ls) h =
    let (a, b) = any_long-short ls h.1 in (rw (h.0.1, a) refl, rw (h.0.2, b) refl)

pub load-lines :
    (std : Std) (yaml : Bool) (ls : List Text) (base : Config)
    → All IsShort ls
    → load std yaml (unlines ls) base ≡ (load_lines std yaml 1 0 base ls >>= checked std)
unfolding load
load-lines std yaml ls base short =
    let (a, b) = any_long-short ls short in
    let lines = raw_lines-unlines ls (All-imp (λ l s. (s.0, ground (arith, s.1))) ls short) in
    ap
      (λ ms.
        if any_long ms
        then fail too_long
        else (load_lines std yaml 1 0 base (map drop_cr ms) >>= checked std))
      lines
    ∙ rw (a, b) refl

-- `Load` reads a file that writes each key with its value in single quotes, or with a list of such items
-- in brackets, in TOML or in YAML, as the values given one after another to their keys, and then
-- validates: white space, separators, number signs, brackets and double quotes in the values are text.
-- No value has a single quote or a newline, and each line is shorter than 64 KiB.
pub load-written :
    (std : Std) (yaml : Bool) (es : List Entry) (base : Config)
    → All IsEntry es
    → All IsShort (map (entry_line (separator std yaml)) es)
    → load std yaml (unlines (map (entry_line (separator std yaml)) es)) base
      ≡ (apply_all std 1 base es >>= checked std)
load-written std yaml es base h short =
    load-lines std yaml (map (entry_line (separator std yaml)) es) base short
    ∙ ap (λ o. o >>= checked std) (load_lines-entries std yaml 1 base es h)
