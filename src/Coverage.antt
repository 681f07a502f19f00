-- ===== src/Coverage.antt =====
-- internal/coverage/coverage.go: which lines a test run has reached.
pub mod Fields
pub mod Resolve
pub mod Order
pub mod Bounds
pub mod Profile
pub mod PerTest
mod Tests
use mutation_judge.Base.{
  ℕ, zero, suc, ◌+◌, ◌-◌, Bool, true, false, not, ◌&&◌, ◌||◌, List, [], ◌∷◌, Option, none, some,
  Text, codes, text_eq, length, ltb, leb, ◌==◌, after_prefix, if◌then◌else◌, has_prefix, split,
  join,
}
use mutation_judge.Base.Int.{ℤ, int_count}
use mutation_judge.Base.Outcome.{Outcome, ok, fail, ok_or, wrap, ◌>>=◌}
use mutation_judge.Base.Trim.{trim_space, skip_space, cut_space}
use mutation_judge.Frontend.{any_line}
use mutation_judge.GitDiff.Scan.{raw_lines, drop_cr}
use mutation_judge.Coverage.Fields.{Block, BlockError, parse_block}

-- `map[int]bool`: the marked lines of a file, as 64-bit patterns.
abbrev pub LineSet : Type 0
LineSet = ℕ → Bool

-- `Lines`: the keys with their lines, each key once.
abbrev pub Files : Type 0
Files = List (Text × LineSet)

unfoldable pub lines_of : Text → Files → Option LineSet
lines_of file [] = none
lines_of file ((f, s) ∷ fs) = if text_eq f file then some s else lines_of file fs

-- `m.Lines[rel][l] = true` over so many lines from the first.
unfoldable pub mark_lines : ℕ → ℕ → LineSet → LineSet
mark_lines zero l lines = lines
mark_lines (suc n) l lines = mark_lines n (l + 1) (λ k. if k == l then true else lines k)

-- The lines of one key are changed; a key that is not there comes first with no line.
unfoldable pub update : Text → (LineSet → LineSet) → Files → Files
update file f [] = (file, f (λ k. false)) ∷ []
update file f ((g, s) ∷ fs) =
    let rest = update file f fs in if text_eq g file then (g, f s) ∷ fs else (g, s) ∷ rest

-- What path/filepath says of a path; a slash separates the names.
pub record Paths : Type 0 where
  pub clean : Text → Text
  pub is_abs : Text → Bool
  pub rel : Text → Text → Option Text

unfoldable pub normalize : Paths → Text → Text → Text
unfolding after_prefix text_eq
normalize p root file =
    let cleaned = p.clean file in
    if p.is_abs cleaned
    then elim (p.rel root cleaned) [
      | some r ↦ if text_eq r (codes "..") || has_prefix (codes "../") r then cleaned else r
      | none ↦ cleaned
    ]
    else cleaned

-- A block that ran marks its lines. Where the last line is the largest `int`, the loop of the code does not
-- end; here it is marked like any other.
abbrev pub mark_block : Block → LineSet → LineSet
mark_block b s =
    if ltb 0 b.count then mark_lines (b.end_line + 1 - b.start_line) b.start_line s else s

-- Every file of the profile is registered.
unfoldable pub add_block : Text → Block → Files → Files
unfolding mark_lines update
add_block file b = update file (mark_block b)

-- Every `strings.Join(parts[i:], "/")`.
abbrev suffixes_of : List Text → List Text
suffixes_of [] = []
suffixes_of (p ∷ ps) = join b'/' (p ∷ ps) ∷ suffixes_of ps

unfoldable pub suffixes : Text → List Text
unfolding split join
suffixes file = suffixes_of (split b'/' file)

-- `BySuffix`, `suffixOwner` and `ambiguous`.
pub record Index : Type 0 where
  pub by_suffix : Text → Option LineSet
  pub owner : Text → Option Text
  pub ambiguous : Text → Bool

abbrev pub no_index : Index
no_index = record { by_suffix = λ s. none; owner = λ s. none; ambiguous = λ s. false }

-- `m[key] = value` and `delete(m, key)`.
abbrev pub put {ℓ} : {A : Type ℓ} → Text → A → (Text → A) → Text → A
put k a f s = if text_eq k s then a else f s

-- The two ends of the inner loop: `delete` in both maps, and the two assignments.
abbrev pub contest : Index → Text → Index
contest x suffix = record {
  by_suffix = put suffix none x.by_suffix;
  owner = put suffix none x.owner;
  ambiguous = put suffix true x.ambiguous;
}

abbrev pub own : Text → LineSet → Index → Text → Index
own file lines x suffix = record {
  by_suffix = put suffix (some lines) x.by_suffix;
  owner = put suffix (some file) x.owner;
  ambiguous = x.ambiguous;
}

-- The body of the inner loop.
unfoldable pub claim : Text → LineSet → Index → Text → Index
unfolding text_eq
claim file lines x suffix = if x.ambiguous suffix then x else elim (x.owner suffix) [
  | some o ↦ if text_eq o file then own file lines x suffix else contest x suffix
  | none ↦ own file lines x suffix
]

unfoldable pub claim_all : Text → LineSet → List Text → Index → Index
unfolding claim
claim_all file lines [] x = x
claim_all file lines (s ∷ ss) x = claim_all file lines ss (claim file lines x s)

-- `buildSuffixIndex`, over the files in the order of the iteration.
unfoldable pub build_from : Index → Files → Index
unfolding claim_all suffixes
build_from x [] = x
build_from x ((file, lines) ∷ fs) = build_from (claim_all file lines (suffixes file) x) fs

pub record Map : Type 0 where
  pub files : Files
  pub index : Index

pub data ProfileError : Type 0 where
  too_long missing_header : ProfileError
  bad_header : Text → ProfileError
  in_line : ℕ → BlockError → ProfileError

-- The mode, if the first line is a header.
unfoldable pub header_mode : Text → Option Text
unfolding text_eq after_prefix
header_mode line =
    if text_eq line (codes "mode: set")
      || (text_eq line (codes "mode: count") || text_eq line (codes "mode: atomic"))
    then after_prefix (codes "mode: ") line
    else none

-- A line of the scanner, which refuses one of 2 MiB, without white space around it.
unfoldable pub scan_line : Text → Outcome ProfileError Text
unfolding drop_cr skip_space cut_space
scan_line l = if leb 2097152 (length l) then fail too_long else ok (trim_space (drop_cr l))

-- The first line gives the mode.
unfoldable pub read_mode : Text → Outcome ProfileError Text
unfolding scan_line header_mode
read_mode l = scan_line l >>= λ line. ok_or (bad_header line) (header_mode line)

unfoldable pub read_block : ℕ → Text → Text → Outcome ProfileError Block
unfolding scan_line parse_block
read_block n mode l = scan_line l >>= λ line. wrap (in_line n) (parse_block mode line)

module _ (p : Paths) (root : Text) where
  -- The loop behind the header, from line `n`.
  unfoldable pub add_lines : ℕ → Text → Files → List Text → Outcome ProfileError Files
  unfolding read_block normalize add_block
  add_lines n mode fs [] = ok fs
  add_lines n mode fs (l ∷ ls) = read_block n mode l >>= λ b.
      add_lines (n + 1) mode (add_block (normalize p root b.file) b fs) ls

  unfoldable pub parse_lines : List Text → Outcome ProfileError Files
  unfolding add_lines read_mode
  parse_lines [] = fail missing_header
  parse_lines (l ∷ ls) = read_mode l >>= λ mode. add_lines 2 mode [] ls

  -- `Parse`, where the index goes over the files in this order.
  unfoldable pub parse : Text → Outcome ProfileError Map
  unfolding parse_lines raw_lines build_from
  parse content = parse_lines (raw_lines content) >>= λ fs.
      ok (record { files = fs; index = build_from no_index fs })

-- `Covered`: whether a line is covered, and whether the file is known.
unfoldable pub covered : Map → Text → ℤ → ℤ → Bool × Bool
unfolding lines_of any_line int_count
covered m file start end =
    elim (elim (lines_of file m.files) as (λ o. Option LineSet) [
      | some s ↦ some s
      | none ↦ m.index.by_suffix file
    ]) [ none ↦ (false, false) | some s ↦ (any_line s (int_count start end) start, true) ]
