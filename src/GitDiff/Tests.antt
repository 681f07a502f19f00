-- ===== src/GitDiff/Tests.antt =====
-- A diff with a line that looks like a header, an untracked file, and the theorems at them.
use mutation_judge.Base.Blank.{blank_from}
use mutation_judge.Base.{
  ℕ, ◌≡◌, ◌↔◌, ◌⊎◌, refl, true, List, [], ◌∷◌, ◌++◌, map, Option, none, some, Text, codes, arith,
  text_eq, after_prefix, has_suffix, contains, All,
}
use mutation_judge.Base.Int.{pos}
use mutation_judge.Model.{Span}
use mutation_judge.GitDiff.{
  Lines, ok, fail, last_file, truncated_hunk, in_line, bad_hunk_header, parse, positive_count,
}
use mutation_judge.GitDiff.Scan.{atoi, drop_cr, raw_lines, match_hunk}
use mutation_judge.GitDiff.Patch.{
  removed, added, Hunk, IsHunk, plain, index, Patch, IsPatch, Touches, hunk_header, payload_line,
  patch_lines, patches_lines,
}
use mutation_judge.GitDiff.RoundTrip.{unlines, IsLine, parse-Touches}
use mutation_judge.GitDiff.Truncated.{parse-truncated_hunk}
use mutation_judge.GitDiff.Changes.{changed_lines, is_invalid}
use mutation_judge.GitDiff.Incremental.{
  terminated, IsUntracked, is_in, Counts, changed_lines-overlaps,
}
use mutation_judge.Frontend.{overlaps_changed}

abbrev no_quotes : Text → Option Text
no_quotes t = none

-- @@ -3 +4,2 @@
abbrev two_lines : Hunk
two_lines = record {
  old_start = codes "3";
  old_count = [];
  new_start = codes "4";
  new_count = codes "2";
  tail = codes " func";
  start = 4;
  body = removed (codes "-- a/x") ∷ added (codes "++ b/x") ∷ added [] ∷ [];
}

two_lines-IsHunk : IsHunk two_lines
unfolding atoi positive_count
two_lines-IsHunk = record {
  has_old_start = λ e. cc;
  has_new_start = λ e. cc;
  old_start_digits = (refl, tt);
  old_count_digits = tt;
  new_start_digits = (refl, tt);
  new_count_digits = (refl, tt);
  start_value = refl;
  old_value = refl;
  new_value = refl;
}

abbrev one_file : Patch
one_file = record {
  heading = codes "a/x.go b/x.go";
  header = index (codes "1..2 100644") ∷ [];
  old_path = plain (codes "x.go");
  new_path = plain (codes "x.go");
  hunks = two_lines ∷ [];
}

one_file-IsPatch : IsPatch no_quotes one_file
unfolding after_prefix
one_file-IsPatch = record {
  old_ok = (λ e. cc, refl, refl);
  new_ok = (λ e. cc, refl, refl);
  hunks_ok = (two_lines-IsHunk, tt);
}

-- The lines as git prints them; none ends in a carriage return.
abbrev lines : List Text
lines = patches_lines (one_file ∷ [])

lines_same : map drop_cr lines ≡ lines
unfolding drop_cr
lines_same = refl

lines-IsLine : All IsLine lines
lines-IsLine = ground arith

parse-Touches_example :
    (c : Lines) × (parse no_quotes (unlines lines) ≡ ok c)
    × ((f : Text) (k : ℕ) → (c f k ≡ true) ↔ Touches f k (one_file ∷ []))
parse-Touches_example =
    parse-Touches no_quotes (one_file ∷ []) lines (one_file-IsPatch, tt) lines_same lines-IsLine

-- One more hunk, of which the first line is there.
abbrev cut_lines : List Text
cut_lines =
    patches_lines (one_file ∷ [])
    ++ (patch_lines one_file
        ++ hunk_header two_lines ∷ map payload_line (removed (codes "-- a/x") ∷ []))

cut_lines_same : map drop_cr cut_lines ≡ cut_lines
unfolding drop_cr
cut_lines_same = refl

cut_lines-IsLine : All IsLine cut_lines
cut_lines-IsLine = ground arith

parse-truncated_hunk_example : parse no_quotes (unlines cut_lines) ≡ fail (last_file truncated_hunk)
parse-truncated_hunk_example =
    parse-truncated_hunk no_quotes (one_file ∷ []) one_file two_lines
      (removed (codes "-- a/x") ∷ []) (added (codes "++ b/x") ∷ added [] ∷ []) cut_lines
      (one_file-IsPatch, tt) one_file-IsPatch two_lines-IsHunk refl (omega arith) cut_lines_same
      cut_lines-IsLine

-- An untracked file beside it.
abbrev new_file_name : List Text
new_file_name = codes "sub/y.go" ∷ []

new_file_name-IsUntracked : All IsUntracked new_file_name
unfolding is_invalid has_suffix contains text_eq after_prefix
new_file_name-IsUntracked = ((λ e. cc, ground arith, refl), tt)

abbrev line_five : Span
line_five = record {
  file = codes "x.go";
  start_byte = pos 40;
  end_byte = pos 41;
  start_line = pos 5;
  start_col = pos 2;
  end_line = pos 5;
  end_col = pos 3;
}

changed_lines-overlaps_example :
    (c : Lines) × (changed_lines no_quotes (some (unlines lines)) (some (terminated new_file_name))
      ≡ ok c)
    × ((overlaps_changed line_five (some c) ≡ true) ↔ (
        (is_in (codes "x.go") new_file_name ≡ true)
        ⊎ ((l : ℕ) × Counts 5 5 l × Touches (codes "x.go") l (one_file ∷ []))))
changed_lines-overlaps_example =
    changed_lines-overlaps no_quotes (one_file ∷ []) lines new_file_name line_five 5 5
      (one_file-IsPatch, tt) lines_same lines-IsLine new_file_name-IsUntracked refl refl
      (omega arith)

-- A hunk header without a number is an error.
bad_header :
    parse no_quotes (
      unlines (
        codes "diff --git a/x.go b/x.go"
        ∷ codes "--- a/x.go"
        ∷ codes "+++ b/x.go"
        ∷ codes "@@ -1 +,2 @@"
        ∷ []))
    ≡ fail (in_line 4 bad_hunk_header)
unfolding parse raw_lines after_prefix match_hunk text_eq drop_cr blank_from
bad_header = refl
