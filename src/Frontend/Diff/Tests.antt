-- ===== src/Frontend/Diff/Tests.antt =====
-- The patch of a mutation in a file of three lines.
use mutation_judge.Base.{◌≡◌, refl, arith, [], ◌++◌, Option, none, some, Text, codes, take}
use mutation_judge.Frontend.Diff.{
  new_line_index, diff_lines, skip, Parts, diff_parts, render, diff_path,
}
use mutation_judge.Frontend.Diff.Quoted.{read_path, read_path-diff_path}
use mutation_judge.Frontend.Diff.Patch.{apply_patch}
use mutation_judge.Frontend.Diff.Mutated.{diff_parts-apply_patch}

abbrev three_lines : Text
three_lines = codes "a\nif true {\nb"

diff_parts-apply_patch_example :
    (made : Parts) × (diff_parts three_lines (new_line_index three_lines) 5 9 (codes "false")
      ≡ some made)
    × (apply_patch (diff_lines three_lines) made
        ≡ some (take 5 three_lines ++ (codes "false" ++ skip 9 three_lines)))
diff_parts-apply_patch_example =
    diff_parts-apply_patch three_lines 5 9 (codes "false") (omega arith) (omega arith)

read_path-diff_path_example :
    read_path (diff_path (codes "a/") (codes "new\n\"line\".go"))
    ≡ some (codes "a/new\n\"line\".go")
read_path-diff_path_example = read_path-diff_path (codes "a/") (codes "new\n\"line\".go")

abbrev shown : Option Parts → Text
shown none = []
shown (some p) = render (codes "a.go") p

patch_text :
    shown (diff_parts three_lines (new_line_index three_lines) 5 9 (codes "false"))
    ≡ codes
        "--- a/a.go\n+++ b/a.go\n@@ -1,3 +1,3 @@\n a\n-if true {\n+if false {\n b\n\\ No newline at end of file\n"
unfolding diff_parts new_line_index render
patch_text = refl
