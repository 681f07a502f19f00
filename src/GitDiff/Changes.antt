-- ===== src/GitDiff/Changes.antt =====
-- internal/gitdiff/gitdiff.go, ChangedLinesContext: the parsed diff together with the untracked files,
-- and what internal/frontend/frontend.go selects by it. What the two git commands print is an
-- argument, `none` where a command fails.
use mutation_judge.Base.{
  Bool, true, false, not, ◌||◌, List, [], ◌∷◌, Option, none, some, Text, codes, text_eq, has_prefix,
  has_suffix, contains, split, ◌==◌, if◌then◌else◌,
}
use mutation_judge.GitDiff.{Lines, Outcome, ok, fail, ParseError, parse}

pub data ChangesError : Type 0 where
  diff_failed untracked_failed : ChangesError
  parse_failed : ParseError → ChangesError
  invalid_path : Text → ChangesError

unfoldable pub is_invalid : Text → Bool
unfolding has_suffix contains text_eq
is_invalid path =
    not (has_suffix (codes ".go") path)
    || has_prefix (codes "/") path
    || text_eq path (codes ".")
    || text_eq path (codes "..")
    || has_prefix (codes "../") path
    || contains (codes "/../") path
    || has_prefix (codes "./") path

-- `lines[path] = map[int]bool{0: true}`
abbrev pub mark_file : Text → Lines → Lines
mark_file f m g k = if text_eq f g then k == 0 else m g k

unfoldable pub add_untracked : Lines → List Text → Outcome ChangesError Lines
unfolding is_invalid
add_untracked m [] = ok m
add_untracked m ([] ∷ items) = add_untracked m items
add_untracked m ((c ∷ path) ∷ items) = elim (is_invalid (c ∷ path)) [
  | true ↦ fail (invalid_path (c ∷ path))
  | false ↦ add_untracked (mark_file (c ∷ path) m) items
]

unfoldable pub changed_lines :
    (Text → Option Text) → Option Text → Option Text → Outcome ChangesError Lines
unfolding add_untracked split
changed_lines unquote none untracked = fail diff_failed
changed_lines unquote (some out) untracked = elim (parse unquote out) [
  | fail e ↦ fail (parse_failed e)
  | ok lines ↦ elim untracked [
    | none ↦ fail untracked_failed
    | some paths ↦ add_untracked lines (split 0 paths)
  ]
]
