-- ===== src/GitDiff/Patch.antt =====
-- The text of a diff as git writes it with `--unified=0`: what internal/gitdiff/gitdiff.go parses.
use mutation_judge.Base.Decimal.{is_digit}
use mutation_judge.Base.{
  ℕ, suc, Bool, ◌||◌, ◌==◌, if◌then◌else◌, ◌+◌, ◌%◌, ◌<◌, ◌≡◌, ◌≢◌, ◌⊎◌, true, false, List, [], ◌∷◌,
  ◌++◌, map, Option, some, Text, codes, has_prefix, All,
}
use mutation_judge.GitDiff.{no_newline, positive_count}
use mutation_judge.GitDiff.Scan.{atoi}

-- A line behind a hunk header; `unended` is the note on a missing newline.
pub data Payload : Type 0 where
  removed added : Text → Payload
  unended : Payload

abbrev pub payload_line : Payload → Text
payload_line (removed t) = b'-' ∷ t
payload_line (added t) = b'+' ∷ t
payload_line unended = no_newline

abbrev pub removed_in : List Payload → ℕ
removed_in [] = 0
removed_in (removed t ∷ ls) = suc (removed_in ls)
removed_in (added t ∷ ls) = removed_in ls
removed_in (unended ∷ ls) = removed_in ls

abbrev pub added_in : List Payload → ℕ
added_in [] = 0
added_in (removed t ∷ ls) = added_in ls
added_in (added t ∷ ls) = suc (added_in ls)
added_in (unended ∷ ls) = added_in ls

-- The numbers of a header are kept as they are written; an absent count is empty.
pub record Hunk : Type 0 where
  pub old_start : Text
  pub old_count : Text
  pub new_start : Text
  pub new_count : Text
  pub tail : Text
  pub start : ℕ
  pub body : List Payload

abbrev pub count_text : Text → Text
count_text [] = []
count_text (c ∷ s) = b',' ∷ c ∷ s

abbrev pub hunk_header : Hunk → Text
hunk_header h =
    codes "@@ -"
    ++ (h.old_start
        ++ (count_text h.old_count
            ++ (codes " +"
                ++ (h.new_start ++ (count_text h.new_count ++ (codes " @@" ++ h.tail))))))

abbrev pub hunk_lines : Hunk → List Text
hunk_lines h = hunk_header h ∷ map payload_line h.body

abbrev pub AllDigits : Text → Type 0
AllDigits = All (λ c. is_digit c ≡ true)

pub record IsHunk (h : Hunk) : Type 0 where
  pub has_old_start : h.old_start ≢ []
  pub has_new_start : h.new_start ≢ []
  pub old_start_digits : AllDigits h.old_start
  pub old_count_digits : AllDigits h.old_count
  pub new_start_digits : AllDigits h.new_start
  pub new_count_digits : AllDigits h.new_count
  pub start_value : atoi h.new_start ≡ some h.start
  pub old_value : positive_count h.old_count ≡ some (removed_in h.body)
  pub new_value : positive_count h.new_count ≡ some (added_in h.body)

-- The name of a file in a header: absent, as it is, or in quotes.
pub data FileName : Type 0 where
  dev_null : FileName
  plain : Text → FileName
  quoted : Text → Text → FileName

abbrev pub has_space : Text → Bool
has_space [] = false
has_space (c ∷ s) = c == b' ' || has_space s

-- git writes a TAB behind a name with a space.
abbrev pub tab_behind : Text → Text
tab_behind name = if has_space name then b'\t' ∷ [] else []

abbrev pub path_text : Text → FileName → Text
path_text prefix dev_null = codes "/dev/null"
path_text prefix (plain name) = prefix ++ (name ++ tab_behind name)
path_text prefix (quoted s name) = b'"' ∷ (s ++ tab_behind name)

abbrev pub path_name : FileName → Text
path_name dev_null = []
path_name (plain name) = name
path_name (quoted s name) = name

-- A relative name without a space; the text in quotes stands for it.
abbrev pub IsFileName : (Text → Option Text) → Text → FileName → Type 0
IsFileName unquote prefix dev_null = Unit
IsFileName unquote prefix (plain name) =
    (name ≢ []) × (has_prefix (codes "/") name ≡ false) × (has_space name ≡ false)
IsFileName unquote prefix (quoted s name) =
    (name ≢ [])
    × (has_prefix (codes "/") name ≡ false)
    × (has_space name ≡ false)
    × (unquote (b'"' ∷ s) ≡ some (prefix ++ name))

-- The lines of an extended header that go with a change of text.
pub data Metadata : Type 0 where
  index old_mode new_mode new_file_mode deleted_file_mode : Text → Metadata
  similarity_index rename_from rename_to : Text → Metadata

abbrev pub metadata_line : Metadata → Text
metadata_line (index t) = codes "index " ++ t
metadata_line (old_mode t) = codes "old mode " ++ t
metadata_line (new_mode t) = codes "new mode " ++ t
metadata_line (new_file_mode t) = codes "new file mode " ++ t
metadata_line (deleted_file_mode t) = codes "deleted file mode " ++ t
metadata_line (similarity_index t) = codes "similarity index " ++ t
metadata_line (rename_from t) = codes "rename from " ++ t
metadata_line (rename_to t) = codes "rename to " ++ t

pub record Patch : Type 0 where
  pub heading : Text
  pub header : List Metadata
  pub old_path : FileName
  pub new_path : FileName
  pub hunks : List Hunk

abbrev pub hunks_lines : List Hunk → List Text
hunks_lines [] = []
hunks_lines (h ∷ hs) = hunk_lines h ++ hunks_lines hs

abbrev pub patch_lines : Patch → List Text
patch_lines p =
    (codes "diff --git " ++ p.heading)
    ∷ (map metadata_line p.header
        ++ ((codes "--- " ++ path_text (codes "a/") p.old_path)
            ∷ (codes "+++ " ++ path_text (codes "b/") p.new_path)
            ∷ hunks_lines p.hunks))

abbrev pub patches_lines : List Patch → List Text
patches_lines [] = []
patches_lines (p ∷ ps) = patch_lines p ++ patches_lines ps

pub record IsPatch (unquote : Text → Option Text) (p : Patch) : Type 0 where
  pub old_ok : IsFileName unquote (codes "a/") p.old_path
  pub new_ok : IsFileName unquote (codes "b/") p.new_path
  pub hunks_ok : All IsHunk p.hunks

-- A hunk's new lines are `start` and those behind it.
abbrev pub CoversLine : ℕ → Hunk → Type 0
CoversLine k h = (j : ℕ) × (j < added_in h.body) × (k ≡ (h.start + j) % 18446744073709551616)

abbrev pub AnyOf {ℓ} : {A : Type ℓ} → (A → Type 0) → List A → Type 0
AnyOf P [] = ⊥
AnyOf P (x ∷ xs) = P x ⊎ AnyOf P xs

-- Some patch of file `f` has a hunk with line `k`.
abbrev pub Touches : Text → ℕ → List Patch → Type 0
Touches f k =
    AnyOf
      (λ p. (path_name p.new_path ≢ []) × (path_name p.new_path ≡ f) × AnyOf (CoversLine k) p.hunks)
