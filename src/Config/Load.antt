-- ===== src/Config/Load.antt =====
-- internal/config/config.go: `Load`, from the lines of a file to settings that `Validate` accepts.
use mutation_judge.Base.{
  ℕ, zero, suc, ◌+◌, Bool, true, false, ◌||◌, List, [], ◌∷◌, map, Option, none, some, Text, codes,
  text_eq, has_prefix, after_prefix, length, leb, ◌==◌, if◌then◌else◌,
}
use mutation_judge.Base.Int.{ℤ}
use mutation_judge.Base.Outcome.{Outcome, ok, fail, map_ok, ok_or, wrap, ◌>>=◌}
use mutation_judge.Base.Trim.{trim_space, indent, skip_space, cut_space}
use mutation_judge.Model.Validate.{parse_int, is_empty}
use mutation_judge.GitDiff.Scan.{raw_lines, drop_cr}
use mutation_judge.Config.{Config, Std, InvalidConfig, validate, is_one_of}
use mutation_judge.Config.Quotes.{
  ValueError, nested, strip_comment, split_outside_quotes, split_from, unquote, list_entry,
  parse_list,
}

-- The cases of `set`.
pub data Key : Type 0 where
  operators timeout preparation_timeout total_timeout test_run format output cache_dir cache : Key
  max_mutants ci_min_score ci_exit_code include_generated changed progress narrow_test_scope : Key
  coverage_test_selection workers : Key

abbrev pub key_name : Key → Text
key_name operators = codes "operators"
key_name timeout = codes "timeout"
key_name preparation_timeout = codes "preparation_timeout"
key_name total_timeout = codes "total_timeout"
key_name test_run = codes "test_run"
key_name format = codes "format"
key_name output = codes "output"
key_name cache_dir = codes "cache_dir"
key_name cache = codes "cache"
key_name max_mutants = codes "max_mutants"
key_name ci_min_score = codes "ci_min_score"
key_name ci_exit_code = codes "ci_exit_code"
key_name include_generated = codes "include_generated"
key_name changed = codes "changed"
key_name progress = codes "progress"
key_name narrow_test_scope = codes "narrow_test_scope"
key_name coverage_test_selection = codes "coverage_test_selection"
key_name workers = codes "workers"

abbrev pub all_keys : List Key
all_keys =
    operators ∷ timeout ∷ preparation_timeout ∷ total_timeout ∷ test_run ∷ format ∷ output
    ∷ cache_dir ∷ cache ∷ max_mutants ∷ ci_min_score ∷ ci_exit_code ∷ include_generated ∷ changed
    ∷ progress ∷ narrow_test_scope ∷ coverage_test_selection ∷ workers ∷ []

unfoldable pub key_in : Text → List Key → Option Key
unfolding text_eq
key_in t [] = none
key_in t (k ∷ ks) = if text_eq t (key_name k) then some k else key_in t ks

abbrev pub find_key : Text → Option Key
find_key t = key_in t all_keys

pub data SetError : Type 0 where
  in_value : ValueError → SetError
  bad_boolean bad_integer bad_float : SetError
  bad_duration : Key → SetError
  unknown_key no_list : Text → SetError

-- `strconv.ParseBool`
unfoldable pub parse_bool : Text → Option Bool
unfolding is_one_of
parse_bool t =
    if is_one_of t
      (codes "1" ∷ codes "t" ∷ codes "T" ∷ codes "TRUE" ∷ codes "true" ∷ codes "True" ∷ [])
    then some true
    else if is_one_of t
        (codes "0" ∷ codes "f" ∷ codes "F" ∷ codes "FALSE" ∷ codes "false" ∷ codes "False" ∷ [])
    then some false
    else none

unfoldable pub set_list : Config → Text → List Text → Outcome SetError Config
set_list c key items =
    if text_eq key (codes "operators")
    then ok (record c { operators = items })
    else fail (no_list key)

pub data LineError : Type 0 where
  bad_value : ValueError → LineError
  not_set : SetError → LineError
  nested_syntax no_separator empty_key_or_value : LineError

abbrev pub has_bracket : Text → Bool
has_bracket [] = false
has_bracket (c ∷ s) = (c == b'[' || (c == b']' || (c == b'{' || c == b'}'))) || has_bracket s

-- `bufio.Scanner` refuses a line of 64 KiB.
unfoldable pub any_long : List Text → Bool
any_long [] = false
any_long (l ∷ ls) = leb 65536 (length l) || any_long ls

pub data LoadError : Type 0 where
  too_long : LoadError
  in_line : ℕ → LineError → LoadError
  not_valid : InvalidConfig → LoadError

-- A key with nothing behind its separator: a block list may follow.
abbrev pub set_items :
    ℕ → Config → Text → Outcome ValueError (List Text × ℕ) → Outcome LoadError (Config × ℕ)
set_items n c key (fail e) = fail (in_line (n + 1) (bad_value e))
set_items n c key (ok ([], k)) = fail (in_line n empty_key_or_value)
set_items n c key (ok (item ∷ more, k)) =
    map_ok (λ d. (d, k)) (wrap (λ e. in_line n (not_set e)) (set_list c key (item ∷ more)))

module _ (std : Std) where
  abbrev read_boolean : Text → Outcome SetError Bool
  read_boolean v = ok_or bad_boolean (parse_bool v)

  abbrev read_integer : Text → Outcome SetError ℤ
  read_integer v = ok_or bad_integer (parse_int v)

  abbrev read_duration : Key → Text → Outcome SetError ℤ
  read_duration k v = ok_or (bad_duration k) (std.parse_duration v)

  -- What a case of `set` does with its unquoted value; the case of `operators` has none.
  unfoldable pub assign : Config → Key → Text → Outcome SetError Config
  unfolding parse_bool
  assign c operators v = ok c
  assign c timeout v = map_ok (λ d. record c { timeout = d }) (read_duration timeout v)
  assign c preparation_timeout v =
      map_ok (λ d. record c { preparation_timeout = d }) (read_duration preparation_timeout v)
  assign c total_timeout v =
      map_ok (λ d. record c { total_timeout = d }) (read_duration total_timeout v)
  assign c test_run v = ok (record c { test_run = v })
  assign c format v = ok (record c { format = v })
  assign c output v = ok (record c { output = v })
  assign c cache_dir v = ok (record c { cache_dir = v })
  assign c cache v = map_ok (λ b. record c { cache = b }) (read_boolean v)
  assign c max_mutants v = map_ok (λ n. record c { max_mutants = n }) (read_integer v)
  assign c ci_min_score v =
      map_ok (λ f. record c { ci_min_score = f }) (ok_or bad_float (std.parse_float v))
  assign c ci_exit_code v = map_ok (λ n. record c { ci_exit_code = n }) (read_integer v)
  assign c include_generated v = map_ok (λ b. record c { include_generated = b }) (read_boolean v)
  assign c changed v = ok (record c { changed_base = v })
  assign c progress v = map_ok (λ b. record c { progress = b }) (read_boolean v)
  assign c narrow_test_scope v = map_ok (λ b. record c { narrow_test_scope = b }) (read_boolean v)
  assign c coverage_test_selection v =
      map_ok (λ b. record c { coverage_test_selection = b }) (read_boolean v)
  assign c workers v = map_ok (λ n. record c { workers = n }) (read_integer v)

  abbrev pub set_key : Config → Text → Key → Text → Outcome SetError Config
  set_key c key operators value = wrap in_value (parse_list std value) >>= set_list c key
  set_key c key k value = wrap in_value (unquote std value) >>= assign c k

  unfoldable pub set : Config → Text → Text → Outcome SetError Config
  unfolding key_in assign set_list
  set c key value = elim (find_key key) [
    | none ↦ fail (unknown_key key)
    | some k ↦ set_key c key k value
  ]

  -- What stands behind the dash.
  unfoldable pub block_item : Text → Outcome ValueError (Option Text)
  unfolding list_entry
  block_item item =
      if is_empty item || has_bracket item then fail nested else map_ok some (list_entry std item)

  -- A line of the list without its comment and the white space around it, or none where the list ends.
  unfoldable pub block_trimmed : ℕ → ℕ → Text → Outcome ValueError (Option Text)
  unfolding block_item after_prefix skip_space cut_space
  block_trimmed parent own trimmed =
      if leb own parent then ok none else elim (after_prefix (codes "-") trimmed) [
        | none ↦ ok none
        | some behind ↦ block_item (trim_space behind)
      ]

  unfoldable pub block_line : ℕ → Text → Outcome ValueError (Option Text)
  unfolding block_trimmed strip_comment indent skip_space cut_space
  block_line parent l =
      strip_comment l >>= λ raw. block_trimmed parent (indent raw) (trim_space raw)

  -- `readYAMLBlockList`: the items and the number of lines, where no item is no list.
  unfoldable pub block_list : ℕ → List Text → Outcome ValueError (List Text × ℕ)
  unfolding block_line
  block_list parent [] = ok ([], 0)
  block_list parent (l ∷ ls) = block_line parent l >>= λ o. elim o [
    | none ↦ ok ([], 0)
    | some q ↦ map_ok (λ (qs, n). (q ∷ qs, suc n)) (block_list parent ls)
  ]

  -- `return cfg, Validate(cfg)`
  unfoldable pub checked : Config → Outcome LoadError Config
  unfolding validate
  checked c = elim (validate std c) [ none ↦ ok c | some e ↦ fail (not_valid e) ]

  module _ (is_yaml : Bool) where
    abbrev pub separator : ℕ
    separator = if is_yaml then b':' else b'='

    -- A key and its value, without white space around them: the settings, and how many lines are taken
    -- behind line `n`.
    unfoldable pub set_pair :
        ℕ → Config → ℕ → List Text → Text → Text → Outcome LoadError (Config × ℕ)
    unfolding block_list set
    set_pair n c parent ls key value =
        if is_empty key
        then fail (in_line n empty_key_or_value)
        else if is_empty value
        then (if is_yaml
            then set_items n c key (block_list parent ls)
            else fail (in_line n empty_key_or_value))
        else map_ok (λ d. (d, 0)) (wrap (λ e. in_line n (not_set e)) (set c key value))

    -- A line without its comment.
    unfoldable pub load_trimmed : ℕ → Config → ℕ → List Text → Text → Outcome LoadError (Config × ℕ)
    unfolding set_pair after_prefix split_from skip_space cut_space
    load_trimmed n c parent ls line =
        if is_empty line
        then ok (c, 0)
        else if has_prefix (codes "[") line
            || (has_prefix (codes "-") line || has_prefix (codes "{") line)
        then fail (in_line n nested_syntax)
        else elim (split_outside_quotes line separator) [
          | none ↦ fail (in_line n no_separator)
          | some (before, behind) ↦ set_pair n c parent ls (trim_space before) (trim_space behind)
        ]

    -- The body of the loop at line `n`.
    unfoldable pub load_line : ℕ → Config → Text → List Text → Outcome LoadError (Config × ℕ)
    unfolding strip_comment indent skip_space cut_space load_trimmed
    load_line n c l ls = wrap (λ e. in_line n (bad_value e)) (strip_comment l) >>= λ raw.
        load_trimmed n c (indent raw) ls (trim_space raw)

    -- The loop, where `skip` lines are taken already.
    unfoldable pub load_lines : ℕ → ℕ → Config → List Text → Outcome LoadError Config
    unfolding load_line
    load_lines n skip c [] = ok c
    load_lines n (suc k) c (l ∷ ls) = load_lines (n + 1) k c ls
    load_lines n zero c (l ∷ ls) = load_line n c l ls >>= λ (d, k). load_lines (n + 1) k d ls

    -- `Load` on the bytes of the file.
    unfoldable pub load : Text → Config → Outcome LoadError Config
    unfolding load_lines any_long raw_lines drop_cr checked
    load content base =
        if any_long (raw_lines content)
        then fail too_long
        else load_lines 1 0 base (map drop_cr (raw_lines content)) >>= checked
