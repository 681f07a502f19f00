-- ===== src/Config/Quotes.antt =====
-- internal/config/config.go: comments, separators and values, where a quoted text hides the
-- characters with a meaning. Every such character is ASCII, so the loops over runes go over bytes.
use mutation_judge.Base.{
  ℕ, Bool, true, false, ◌&&◌, ◌||◌, List, [], ◌∷◌, Option, none, some, Text, ◌==◌, if◌then◌else◌,
}
use mutation_judge.Base.Outcome.{Outcome, ok, fail, map_ok, ok_or, ◌>>=◌}
use mutation_judge.Base.Trim.{trim_space, trim_tabs, skip_space, cut_space}
use mutation_judge.Model.Validate.{is_empty}
use mutation_judge.Config.{Std}

-- The variables `quote` and `escaped` of a scan: `escaped` is set in double quotes only.
pub data Quote : Type 0 where
  outside single double escaped : Quote

-- The tests in front of the loops, and the quote that starts.
unfoldable pub next_quote : Quote → ℕ → Quote
next_quote outside c = if c == b'"' then double else if c == b'\'' then single else outside
next_quote single c = if c == b'\'' then outside else single
next_quote double c = if c == b'\\' then escaped else if c == b'"' then outside else double
next_quote escaped c = double

unfoldable pub is_outside : Quote → Bool
is_outside outside = true
is_outside _ = false

pub data ValueError : Type 0 where
  unterminated_value unterminated_double invalid_quoted unterminated_single : ValueError
  not_a_list empty_entry nested unterminated_entry : ValueError

-- What a comment follows, if there is one.
pub data Scanned : Type 0 where
  unterminated no_comment : Scanned
  before_comment : Text → Scanned

abbrev behind : ℕ → Scanned → Scanned
behind c (before_comment s) = before_comment (c ∷ s)
behind c r = r

unfoldable pub find_comment : Quote → Text → Scanned
unfolding next_quote is_outside
find_comment q [] = if is_outside q then no_comment else unterminated
find_comment q (c ∷ s) =
    let rest = find_comment (next_quote q c) s in
    if is_outside q && c == b'#' then before_comment [] else behind c rest

unfoldable pub strip_comment : Text → Outcome ValueError Text
unfolding find_comment trim_tabs
strip_comment s = elim (find_comment outside s) [
  | unterminated ↦ fail unterminated_value
  | no_comment ↦ ok s
  | before_comment t ↦ ok (trim_tabs t)
]

abbrev cons_first : ℕ → Option (Text × Text) → Option (Text × Text)
cons_first c (some (a, b)) = some (c ∷ a, b)
cons_first c none = none

-- `splitOutsideQuotes` for a separator of one byte: the two pieces, or none where it gives one.
unfoldable pub split_from : ℕ → Quote → Text → Option (Text × Text)
unfolding next_quote is_outside
split_from sep q [] = none
split_from sep q (c ∷ s) =
    let rest = split_from sep (next_quote q c) s in
    if is_outside q && (is_outside (next_quote q c) && c == sep)
    then some ([], s)
    else cons_first c rest

abbrev pub split_outside_quotes : Text → ℕ → Option (Text × Text)
split_outside_quotes s sep = split_from sep outside s

-- The text up to its last byte, if that is the given one.
unfoldable pub closed_by : ℕ → Text → Option Text
closed_by c [] = none
closed_by c (d ∷ []) = if d == c then some [] else none
closed_by c (d ∷ e ∷ s) = elim (closed_by c (e ∷ s)) [ some t ↦ some (d ∷ t) | none ↦ none ]

module _ (std : Std) where
  unfoldable pub unquote_trimmed : Text → Outcome ValueError Text
  unfolding closed_by
  unquote_trimmed [] = ok []
  unquote_trimmed (c ∷ []) = ok (c ∷ [])
  unquote_trimmed (c ∷ d ∷ s) =
      if c == b'"'
      then elim (closed_by b'"' (d ∷ s)) [
        | none ↦ fail unterminated_double
        | some _ ↦ ok_or invalid_quoted (std.unquote (c ∷ d ∷ s))
      ]
      else if c == b'\''
      then ok_or unterminated_single (closed_by b'\'' (d ∷ s))
      else ok (c ∷ d ∷ s)

  unfoldable pub unquote : Text → Outcome ValueError Text
  unfolding unquote_trimmed skip_space cut_space
  unquote v = unquote_trimmed (trim_space v)

abbrev is_bracket : ℕ → Bool
is_bracket c = c == b'[' || (c == b']' || (c == b'{' || c == b'}'))

abbrev first_piece : ℕ → List Text → List Text
first_piece c [] = (c ∷ []) ∷ []
first_piece c (p ∷ ps) = (c ∷ p) ∷ ps

unfoldable pub split_list : Quote → Text → Outcome ValueError (List Text)
unfolding next_quote is_outside
split_list q [] = if is_outside q then ok ([] ∷ []) else fail unterminated_entry
split_list q (c ∷ s) =
    let rest = split_list (next_quote q c) s in
    if is_outside q && c == b','
    then map_ok (λ ps. [] ∷ ps) rest
    else if is_outside q && is_bracket c
    then fail nested
    else map_ok (first_piece c) rest

module _ (std : Std) where
  -- One entry of a list.
  unfoldable pub list_entry : Text → Outcome ValueError Text
  unfolding unquote
  list_entry p = unquote std p >>= λ q. if is_empty q then fail empty_entry else ok q

  unfoldable pub list_entries : List Text → Outcome ValueError (List Text)
  unfolding list_entry skip_space cut_space
  list_entries [] = ok []
  list_entries (p ∷ ps) = list_entry (trim_space p) >>= λ q. map_ok (λ qs. q ∷ qs) (list_entries ps)

  -- The text between the brackets.
  unfoldable pub parse_inner : Text → Outcome ValueError (List Text)
  unfolding split_list list_entries
  parse_inner [] = ok []
  parse_inner (c ∷ s) = split_list outside (c ∷ s) >>= list_entries

  unfoldable pub parse_brackets : Text → Outcome ValueError (List Text)
  unfolding parse_inner skip_space cut_space closed_by
  parse_brackets [] = fail not_a_list
  parse_brackets (c ∷ s) =
      if c == b'['
      then elim (closed_by b']' s) [
        | none ↦ fail not_a_list
        | some inner ↦ parse_inner (trim_space inner)
      ]
      else fail not_a_list

  unfoldable pub parse_list : Text → Outcome ValueError (List Text)
  unfolding parse_brackets skip_space cut_space
  parse_list v = parse_brackets (trim_space v)
