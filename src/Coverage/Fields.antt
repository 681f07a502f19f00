-- ===== src/Coverage/Fields.antt =====
-- internal/coverage/coverage.go: one line of a profile.
use mutation_judge.Base.{
  ℕ, zero, suc, ◌-◌, Bool, false, not, ◌&&◌, ◌||◌, List, [], ◌∷◌, Option, none, some, Text, codes,
  text_eq, ltb, leb, ◌==◌, if◌then◌else◌, select,
}
use mutation_judge.Base.Blank.{space_width}
use mutation_judge.Base.Int.{ℤ, pos}
use mutation_judge.Base.Outcome.{Outcome, ok, fail, ok_or, wrap, ◌>>=◌}
use mutation_judge.Model.Validate.{parse_int, is_empty}

-- The pieces between white space, `k` bytes of which are still to come.
abbrev first_piece : ℕ → List Text → List Text
first_piece c [] = (c ∷ []) ∷ []
first_piece c (p ∷ ps) = (c ∷ p) ∷ ps

unfoldable pub pieces : ℕ → Text → List Text
pieces k [] = [] ∷ []
pieces (suc k) (c ∷ s) = pieces k s
pieces zero (c ∷ s) = elim (space_width c s) [
  | zero ↦ first_piece c (pieces 0 s)
  | suc k ↦ [] ∷ pieces k s
]

-- `strings.Fields`
abbrev pub fields : Text → List Text
fields s = select (λ p. not (is_empty p)) (pieces 0 s)

-- `strings.Cut` by one byte.
unfoldable pub cut : ℕ → Text → Option (Text × Text)
cut sep [] = none
cut sep (c ∷ s) =
    let rest = cut sep s in
    if c == sep then some ([], s) else elim rest [ none ↦ none | some (a, b) ↦ some (c ∷ a, b) ]

-- The texts before and behind the last of these bytes.
unfoldable pub cut_last : ℕ → Text → Option (Text × Text)
cut_last sep [] = none
cut_last sep (c ∷ s) = elim (cut_last sep s) [
  | some (a, b) ↦ some (c ∷ a, b)
  | none ↦ if c == sep then some ([], s) else none
]

unfoldable pub has_byte : ℕ → Text → Bool
has_byte d [] = false
has_byte d (c ∷ s) = c == d || has_byte d s

pub data PositionError : Type 0 where
  no_position bad_line bad_column : PositionError

pub data BlockError : Type 0 where
  not_three_fields no_span no_range inverted too_large bad_statements bad_count : BlockError
  bad_start bad_end : PositionError → BlockError

abbrev positive : Option ℤ → Option ℕ
positive (some (pos (suc n))) = some (suc n)
positive _ = none

abbrev pub not_negative : Option ℤ → Option ℕ
not_negative (some (pos n)) = some n
not_negative _ = none

-- `parsePosition`: the line and the column.
unfoldable pub parse_position : Text → Outcome PositionError (ℕ × ℕ)
unfolding cut has_byte parse_int
parse_position t = ok_or no_position (cut b'.' t) >>= λ (line_text, column_text).
    if has_byte b'.' column_text
    then fail no_position
    else ok_or bad_line (positive (parse_int line_text)) >>= λ line.
        ok_or bad_column (positive (parse_int column_text)) >>= λ column. ok (line, column)

-- A block that a profile counts.
pub record Block : Type 0 where
  pub file : Text
  pub start_line : ℕ
  pub end_line : ℕ
  pub count : ℕ

-- The tests of the two positions.
unfoldable pub check_range : ℕ → ℕ → ℕ × ℕ → Outcome BlockError (ℕ × ℕ)
check_range start_line start_col (end_line, end_col) =
    if ltb end_line start_line || end_line == start_line && leb end_col start_col
    then fail inverted
    else if ltb 1000000 (end_line - start_line)
    then fail too_large
    else ok (start_line, end_line)

-- The range behind the colon: the first and the last line.
unfoldable pub parse_range : Text → Outcome BlockError (ℕ × ℕ)
unfolding cut has_byte parse_position check_range
parse_range t = ok_or no_range (cut b',' t) >>= λ (start, end).
    if has_byte b',' end
    then fail no_range
    else wrap bad_start (parse_position start) >>= λ (start_line, start_col).
        wrap bad_end (parse_position end) >>= check_range start_line start_col

-- `colon <= 0 || colon == len(fields[0])-1` refuses an empty part.
unfoldable pub parse_span : Text → Outcome BlockError (Text × Text)
unfolding cut_last
parse_span t = ok_or no_span (cut_last b':' t) >>= λ (file, range).
    if is_empty file || is_empty range then fail no_span else ok (file, range)

unfoldable pub parse_fields : Text → Text → Text → Text → Outcome BlockError Block
unfolding parse_span parse_range parse_int text_eq
parse_fields mode span statements count = parse_span span >>= λ (file, range).
    parse_range range >>= λ (start_line, end_line).
    ok_or bad_statements (not_negative (parse_int statements)) >>= λ s.
    ok_or bad_count (not_negative (parse_int count)) >>= λ n.
    if text_eq mode (codes "set") && ltb 1 n
    then fail bad_count
    else ok (record { file = file; start_line = start_line; end_line = end_line; count = n })

abbrev pub parse_three : Text → List Text → Outcome BlockError Block
parse_three mode (a ∷ b ∷ c ∷ []) = parse_fields mode a b c
parse_three mode _ = fail not_three_fields

-- `parseBlock`
unfoldable pub parse_block : Text → Text → Outcome BlockError Block
unfolding parse_fields pieces
parse_block mode line = parse_three mode (fields line)
