-- ===== src/GitDiff.antt =====
-- internal/gitdiff/gitdiff.go: the parser of the output of `git diff`, as the steps of its loop over
-- the lines. `unquote` is `strconv.Unquote` on a text that begins with a double quote.
pub mod Scan
pub mod Patch
pub mod Header
pub mod Section
pub mod Marks
pub mod RoundTrip
pub mod Changes
pub mod Incremental
pub mod Truncated
mod Tests
use mutation_judge.Base.Blank.{is_blank}
pub use mutation_judge.Base.Outcome.{Outcome, ok, fail}
use mutation_judge.Base.{
  ℕ, zero, suc, ◌+◌, ◌-◌, ◌%◌, Bool, true, false, not, ◌&&◌, ◌||◌, List, [], ◌∷◌, ◌++◌, Option,
  none, some, Text, codes, text_eq, after_prefix, has_prefix, length, ltb, leb, ◌==◌, if◌then◌else◌,
}
use Scan.{raw_lines, drop_cr, HunkHeader, match_hunk, atoi}

pub data CheckError : Type 0 where
  incomplete_headers no_headers truncated_hunk : CheckError

pub data LineError : Type 0 where
  empty_in_hunk unexpected_hunk_line count_exceeded expected_diff_header repeated_old_header :
      LineError
  bad_old_path bad_new_path unmatched_new_header hunk_without_header bad_hunk_header : LineError
  bad_start bad_old_count bad_new_count unrecognized : LineError
  previous_file : CheckError → LineError

pub data ParseError : Type 0 where
  in_line : ℕ → LineError → ParseError
  last_file : CheckError → ParseError
  too_long : ParseError

-- `map[string]map[int]bool`: the lines that are marked in each file. A line number is an `int` in
-- two's complement.
abbrev pub Lines : Type 0
Lines = Text → ℕ → Bool

abbrev pub set : Text → ℕ → Lines → Lines
set f n m g k = if text_eq f g && n == k then true else m g k

-- The loop over the new lines of a hunk, from the `i`th.
unfoldable pub mark : Text → ℕ → ℕ → ℕ → Lines → Lines
mark f start i zero m = m
mark f start i (suc left) m =
    mark f start (i + 1) left (set f ((start + i) % 18446744073709551616) m)

-- The variables of the loop over the lines.
pub record Parser : Type 0 where
  pub file : Text
  pub in_diff : Bool
  pub old_header : Bool
  pub new_header : Bool
  pub binary_patch : Bool
  pub hunk_seen : Bool
  pub metadata_only_change : Bool
  pub old_remaining : ℕ
  pub new_remaining : ℕ
  pub changed : Lines

abbrev pub initial : Parser
initial = record {
  file = [];
  in_diff = false;
  old_header = false;
  new_header = false;
  binary_patch = false;
  hunk_seen = false;
  metadata_only_change = false;
  old_remaining = 0;
  new_remaining = 0;
  changed = λ f n. false;
}

abbrev both : Bool → Bool → Bool
both a b = a && b || not a && not b

unfoldable pub check_file : Parser → Option CheckError
check_file p =
    if not (both p.old_header p.new_header)
    then some incomplete_headers
    else if not p.old_header && not p.metadata_only_change
    then some no_headers
    else if ltb 0 p.old_remaining || ltb 0 p.new_remaining
    then some truncated_hunk
    else none

abbrev pub no_newline : Text
no_newline = codes "\\ No newline at end of file"

-- `oldRemaining -= o; newRemaining -= n` with the test for a negative result.
unfoldable pub lower : ℕ → ℕ → Parser → Outcome LineError Parser
lower o n p =
    if ltb p.old_remaining o || ltb p.new_remaining n
    then fail count_exceeded
    else ok (record p { old_remaining = p.old_remaining - o; new_remaining = p.new_remaining - n })

-- A line inside a hunk.
unfoldable pub payload : Parser → Text → Outcome LineError Parser
unfolding lower
payload p line = if text_eq line no_newline then ok p else elim line [
  | [] ↦ fail empty_in_hunk
  | c ∷ _ ↦
      if c == b'+'
      then lower 0 1 p
      else if c == b'-'
      then lower 1 0 p
      else if c == b' '
      then lower 1 1 p
      else fail unexpected_hunk_line
]

abbrev opened : Parser → Parser
opened p = record p {
  file = [];
  in_diff = true;
  old_header = false;
  new_header = false;
  binary_patch = false;
  hunk_seen = false;
  metadata_only_change = false;
}

-- `diff --git `
unfoldable pub next_file : Parser → Outcome LineError Parser
unfolding check_file
next_file p =
    if p.in_diff
    then elim (check_file p) [ some e ↦ fail (previous_file e) | none ↦ ok (opened p) ]
    else ok (opened p)

unfoldable pub positive_count : Text → Option ℕ
unfolding atoi
positive_count [] = some 1
positive_count (c ∷ s) = atoi (c ∷ s)

-- A hunk header whose groups are found.
unfoldable pub open_hunk : Parser → HunkHeader → Outcome LineError Parser
unfolding atoi positive_count mark
open_hunk p h = elim (atoi h.new_start) [
  | none ↦ fail bad_start
  | some start ↦ elim (positive_count h.old_count) [
    | none ↦ fail bad_old_count
    | some old ↦ elim (positive_count h.new_count) [
      | none ↦ fail bad_new_count
      | some new ↦ ok (record p {
        old_remaining = old;
        new_remaining = new;
        hunk_seen = true;
        changed = if text_eq p.file [] then p.changed else mark p.file start 0 new p.changed;
      })
    ]
  ]
]

unfoldable pub hunk : Parser → Text → Outcome LineError Parser
unfolding match_hunk open_hunk
hunk p line =
    if p.new_header
    then elim (match_hunk line) [ none ↦ fail bad_hunk_header | some h ↦ open_hunk p h ]
    else fail hunk_without_header

-- The lines of the extended header that are known.
abbrev is_metadata : Text → Bool
is_metadata line =
    has_prefix (codes "Binary files ") line
    || has_prefix (codes "index ") line
    || has_prefix (codes "old mode ") line
    || has_prefix (codes "new mode ") line
    || has_prefix (codes "new file mode ") line
    || has_prefix (codes "deleted file mode ") line
    || has_prefix (codes "similarity index ") line
    || has_prefix (codes "dissimilarity index ") line
    || has_prefix (codes "rename from ") line
    || has_prefix (codes "rename to ") line
    || has_prefix (codes "copy from ") line
    || has_prefix (codes "copy to ") line

unfoldable pub metadata : Parser → Text → Outcome LineError Parser
unfolding after_prefix
metadata p line =
    if text_eq line (codes "GIT binary patch")
    then ok (record p { binary_patch = true; metadata_only_change = true })
    else if is_metadata line
    then ok
        (if has_prefix (codes "index ") line then p else record p { metadata_only_change = true })
    else fail unrecognized

module _ (unquote : Text → Option Text) where
  -- `decodePath`, from the path that is unquoted.
  unfoldable pub strip_prefix : Text → Text → Option Text
  unfolding after_prefix
  strip_prefix prefix path =
      if text_eq path (codes "/dev/null") then some [] else elim (after_prefix prefix path) [
        | none ↦ none
        | some name ↦ if text_eq name [] || has_prefix (codes "/") name then none else some name
      ]

  unfoldable pub decode_path : Text → Text → Option Text
  unfolding after_prefix strip_prefix
  decode_path header prefix =
      if has_prefix (codes "\"") header
      then elim (unquote header) [ none ↦ none | some path ↦ strip_prefix prefix path ]
      else strip_prefix prefix header

  -- `--- `
  unfoldable pub old_file : Parser → Text → Outcome LineError Parser
  unfolding decode_path
  old_file p rest =
      if p.old_header || (p.new_header || p.hunk_seen)
      then fail repeated_old_header
      else elim (decode_path rest (codes "a/")) [
        | none ↦ fail bad_old_path
        | some _ ↦ ok (record p { old_header = true })
      ]

  -- `+++ `
  unfoldable pub new_file : Parser → Text → Outcome LineError Parser
  unfolding decode_path
  new_file p rest =
      if not p.old_header || p.new_header
      then fail unmatched_new_header
      else elim (decode_path rest (codes "b/")) [
        | none ↦ fail bad_new_path
        | some name ↦ ok (record p { file = name; new_header = true })
      ]

  -- A line of a file's section outside its hunks.
  unfoldable pub section_line : Parser → Text → Outcome LineError Parser
  unfolding after_prefix old_file new_file hunk metadata
  section_line p line = elim (after_prefix (codes "--- ") line) [
    | some rest ↦ old_file p rest
    | none ↦ elim (after_prefix (codes "+++ ") line) [
      | some rest ↦ new_file p rest
      | none ↦ if has_prefix (codes "@@") line then hunk p line else metadata p line
    ]
  ]

  -- The body of the loop.
  unfoldable pub step : Parser → Text → Outcome LineError Parser
  unfolding payload next_file section_line after_prefix
  step p line =
      if ltb 0 p.old_remaining || ltb 0 p.new_remaining
      then payload p line
      else if has_prefix (codes "diff --git ") line
      then next_file p
      else if not p.in_diff
      then fail expected_diff_header
      else if p.binary_patch
      then ok p
      else if text_eq line no_newline && p.hunk_seen
      then ok p
      else section_line p line

  -- The loop, from line `n`, and the check of the last file. The scanner refuses a line of 8 MiB.
  unfoldable pub parse_lines : ℕ → Parser → List Text → Outcome ParseError Lines
  unfolding step check_file drop_cr
  parse_lines n p [] = elim (check_file p) [ some e ↦ fail (last_file e) | none ↦ ok p.changed ]
  parse_lines n p (l ∷ ls) = elim (leb 8388608 (length l)) [
    | true ↦ fail too_long
    | false ↦ elim (step p (drop_cr l)) [
      | fail e ↦ fail (in_line n e)
      | ok q ↦ parse_lines (n + 1) q ls
    ]
  ]

  unfoldable pub parse : Text → Outcome ParseError Lines
  unfolding parse_lines raw_lines
  parse out = if is_blank out then ok (λ f n. false) else parse_lines 1 initial (raw_lines out)
