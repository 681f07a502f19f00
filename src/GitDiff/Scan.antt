-- ===== src/GitDiff/Scan.antt =====
-- What internal/gitdiff/gitdiff.go takes from the standard library: lines, blanks, decimals and the
-- match of a hunk header.
use mutation_judge.Base.Decimal.{is_digit, decimal_value}
use mutation_judge.Base.{
  ℕ, List, [], ◌∷◌, Option, none, some, Text, codes, after_prefix, ltb, ◌==◌, if◌then◌else◌,
}

-- The pieces that end in a newline, and what is left behind the last one.
abbrev first_piece : ℕ → List Text → List Text
first_piece c [] = (c ∷ []) ∷ []
first_piece c (l ∷ ls) = (c ∷ l) ∷ ls

unfoldable pub raw_lines : Text → List Text
raw_lines [] = []
raw_lines (c ∷ s) = let rest = raw_lines s in if c == b'\n' then [] ∷ rest else first_piece c rest

-- A carriage return before the newline is not part of the line.
unfoldable pub drop_cr : Text → Text
drop_cr [] = []
drop_cr (c ∷ []) = if c == 13 then [] else c ∷ []
drop_cr (c ∷ d ∷ s) = c ∷ drop_cr (d ∷ s)

-- `[0-9]+` in front of a text, and what follows.
unfoldable pub take_digits : Text → Text × Text
take_digits [] = ([], [])
take_digits (c ∷ s) =
    let (d, rest) = take_digits s in if is_digit c then (c ∷ d, rest) else ([], c ∷ s)

abbrev non_empty : Text × Text → Option (Text × Text)
non_empty ([], rest) = none
non_empty (c ∷ d, rest) = some (c ∷ d, rest)

unfoldable pub number : Text → Option (Text × Text)
unfolding take_digits
number s = non_empty (take_digits s)

-- `(?:,([0-9]+))?`
unfoldable pub optional_count : Text → Text × Text
unfolding number after_prefix
optional_count s = elim (after_prefix (codes ",") s) [
  | none ↦ ([], s)
  | some t ↦ elim (number t) [ none ↦ ([], s) | some (d, rest) ↦ (d, rest) ]
]

-- The groups of `hunkRE` that the parser reads.
pub record HunkHeader : Type 0 where
  pub old_count : Text
  pub new_start : Text
  pub new_count : Text

infixl 5 ◌>>=◌
abbrev ◌>>=◌ {ℓ κ} : {A : Type ℓ} {B : Type κ} → Option A → (A → Option B) → Option B
none >>= f = none
some a >>= f = f a

unfoldable pub match_hunk : Text → Option HunkHeader
unfolding number optional_count after_prefix
match_hunk line = do
  a ← after_prefix (codes "@@ -") line
  old_start ← number a
  let (old_count, b) = optional_count old_start.1
  c ← after_prefix (codes " +") b
  start ← number c
  let (new_count, d) = optional_count start.1
  tail ← after_prefix (codes " @@") d
  some (record { old_count = old_count; new_start = start.0; new_count = new_count })

-- `strconv.Atoi` on digits: out of the range of an `int` is an error.
unfoldable pub atoi : Text → Option ℕ
unfolding decimal_value
atoi t = let n = decimal_value 0 t in if ltb n 9223372036854775808 then some n else none
