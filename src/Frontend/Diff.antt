-- ===== src/Frontend/Diff.antt =====
-- internal/frontend/frontend.go: the patch that a report shows for a mutation.
pub mod Index
pub mod Applies
pub mod Patch
pub mod Mutated
pub mod Quoted
mod Tests
use mutation_judge.Base.{
  ℕ, zero, suc, ◌+◌, ◌-◌, ◌/◌, ◌%◌, Bool, true, false, not, ◌&&◌, ◌||◌, List, [], ◌∷◌, ◌++◌, Option,
  none, some, Text, codes, itoa, length, take, get_elem?, ltb, leb, ◌==◌, if◌then◌else◌,
  after_prefix,
}
use mutation_judge.Base.Int.{pos}
use mutation_judge.Model.Validate.{is_empty}

-- `newLineIndex`: the byte at `i` and those behind it.
unfoldable pub line_starts : ℕ → Text → List ℕ
line_starts i [] = []
line_starts i (c ∷ s) =
    let rest = line_starts (i + 1) s in
    if c == b'\n' && not (is_empty s) then (i + 1) ∷ rest else rest

unfoldable pub new_line_index : Text → List ℕ
unfolding line_starts
new_line_index src = 0 ∷ line_starts 0 src

-- `sort.Search` for the first offset above the given one, in ascending offsets.
unfoldable pub search : List ℕ → ℕ → ℕ
search [] offset = 0
search (x ∷ xs) offset = let rest = search xs offset in if ltb offset x then 0 else suc rest

-- `containing`
unfoldable pub containing : List ℕ → ℕ → ℕ
unfolding search
containing lines offset = search lines offset - 1

-- `diffLines`
abbrev pub first_piece : ℕ → List Text → List Text
first_piece c [] = (c ∷ []) ∷ []
first_piece c (l ∷ ls) = (c ∷ l) ∷ ls

unfoldable pub diff_lines : Text → List Text
diff_lines [] = []
diff_lines (c ∷ s) =
    let rest = diff_lines s in if c == b'\n' then (c ∷ []) ∷ rest else first_piece c rest

abbrev pub skip : ℕ → Text → Text
skip zero s = s
skip (suc n) [] = []
skip (suc n) (c ∷ s) = skip n s

-- `src[a:b]`, none where it panics.
unfoldable pub slice : ℕ → ℕ → Text → Option Text
slice a b src = if leb a b && leb b (length src) then some (take (b - a) (skip a src)) else none

-- The offset of line `k`, or the end of the file.
unfoldable pub end_offset : List ℕ → Text → ℕ → Option ℕ
end_offset lines src k = if ltb k (length lines) then get_elem? lines k else some (length src)

infixl 5 ◌>>=◌
abbrev pub ◌>>=◌ {ℓ κ} : {A : Type ℓ} {B : Type κ} → Option A → (A → Option B) → Option B
none >>= f = none
some a >>= f = f a

-- The lines of the patch, and how many lines are in front of it.
pub record Parts : Type 0 where
  pub context_line : ℕ
  pub prefix_lines : List Text
  pub old_lines : List Text
  pub new_lines : List Text
  pub suffix_lines : List Text

-- `unifiedDiff`, up to the text, for a mutation from `start_line` to `end_line`.
unfoldable pub parts_between : Text → List ℕ → ℕ → ℕ → Text → ℕ → ℕ → Option Parts
unfolding end_offset slice diff_lines
parts_between src lines start end replacement start_line end_line =
    let context_end = if ltb (length lines) (end_line + 4) then length lines else end_line + 4 in
    do
      line_start ← get_elem? lines start_line
      line_end ← end_offset lines src (end_line + 1)
      old_block ← slice line_start line_end src
      before ← slice line_start start src
      behind ← slice end line_end src
      ctx_start ← get_elem? lines (start_line - 3)
      ctx_end ← end_offset lines src context_end
      prefix ← slice ctx_start line_start src
      suffix ← slice line_end ctx_end src
      some (record {
        context_line = start_line - 3;
        prefix_lines = diff_lines prefix;
        old_lines = diff_lines old_block;
        new_lines = diff_lines (before ++ (replacement ++ behind));
        suffix_lines = diff_lines suffix;
      })

unfoldable pub diff_parts : Text → List ℕ → ℕ → ℕ → Text → Option Parts
unfolding parts_between containing
diff_parts src lines start end replacement =
    parts_between src lines start end replacement (containing lines start)
      (containing lines (if ltb start end then end - 1 else end))

-- `diffPath`: a byte that git quotes, and what stands for it.
abbrev pub is_quoted : ℕ → Bool
is_quoted c = c == b'\\' || (c == b'"' || (ltb c 32 || c == 127))

unfoldable pub any_quoted : Text → Bool
any_quoted [] = false
any_quoted (c ∷ s) = is_quoted c || any_quoted s

unfoldable pub quote_byte : ℕ → Text
quote_byte c =
    if c == b'\\' || c == b'"'
    then b'\\' ∷ c ∷ []
    else if ltb c 32 || c == 127
    then b'\\' ∷ (48 + c / 64) ∷ (48 + c / 8 % 8) ∷ (48 + c % 8) ∷ []
    else c ∷ []

unfoldable pub quote_bytes : Text → Text
unfolding quote_byte
quote_bytes [] = []
quote_bytes (c ∷ s) = quote_byte c ++ quote_bytes s

unfoldable pub diff_path : Text → Text → Text
unfolding any_quoted quote_bytes
diff_path prefix file =
    let name = prefix ++ file in
    if any_quoted name then b'"' ∷ (quote_bytes name ++ b'"' ∷ []) else name

-- `writeDiffLines`, for lines that are not empty.
unfoldable pub ends_in_newline : Text → Bool
ends_in_newline [] = false
ends_in_newline (c ∷ []) = c == b'\n'
ends_in_newline (c ∷ d ∷ s) = ends_in_newline (d ∷ s)

unfoldable pub write_lines : ℕ → List Text → Text
unfolding ends_in_newline
write_lines prefix [] = []
write_lines prefix (l ∷ ls) =
    let rest = write_lines prefix ls in
    prefix
    ∷ (l
        ++ (if ends_in_newline l
            then rest
            else b'\n' ∷ (codes "\\ No newline at end of file" ++ b'\n' ∷ rest)))

abbrev pub number : ℕ → Text
number n = itoa (pos n)

-- The text of `unifiedDiff`.
unfoldable pub render : Text → Parts → Text
unfolding write_lines diff_path itoa
render file p =
    let around = length p.prefix_lines + length p.suffix_lines in
    codes "--- "
    ++ (diff_path (codes "a/") file
        ++ (b'\n'
            ∷ (codes "+++ "
                ++ (diff_path (codes "b/") file
                    ++ (b'\n'
                        ∷ (codes "@@ -"
                            ++ (number (p.context_line + 1)
                                ++ (b','
                                    ∷ (number (around + length p.old_lines)
                                        ++ (codes " +"
                                            ++ (number (p.context_line + 1)
                                                ++ (b','
                                                    ∷ (number (around + length p.new_lines)
                                                        ++ (codes " @@"
                                                            ++ (b'\n'
                                                            ∷ (write_lines b' ' p.prefix_lines
                                                            ++ (write_lines b'-' p.old_lines
                                                            ++ (write_lines b'+' p.new_lines
                                                            ++ write_lines b' '
                                                            p.suffix_lines))))))))))))))))))
