-- ===== src/GitDiff/Incremental.antt =====
-- Incremental analysis, from the output of git to the mutations that internal/frontend keeps.
use mutation_judge.Base.{
  ℕ, zero, suc, ◌+◌, ◌-◌, ◌%◌, ◌≤◌, ◌<◌, ◌≡◌, ◌≢◌, ◌↔◌, ◌⊎◌, refl, Bool, true, false, ◌||◌, List,
  [], ◌∷◌, ◌++◌, map, Option, some, Text, text_eq, split, ◌==◌, if◌then◌else◌, arith, All,
  Bool-cases, inl, inr,
}
use native.Mathlib.Decide.{dec_lt}
use mutation_judge.Base.Int.{ℤ, pos, int_inc, int_count, int_bits}
use mutation_judge.Model.{Span}
use mutation_judge.GitDiff.{Lines, ok}
use mutation_judge.GitDiff.Scan.{drop_cr}
use mutation_judge.GitDiff.Patch.{Patch, IsPatch, patches_lines, Touches}
use mutation_judge.GitDiff.RoundTrip.{unlines, IsLine, parse-Touches}
use mutation_judge.GitDiff.Changes.{is_invalid, mark_file, add_untracked, changed_lines}
use mutation_judge.Frontend.{any_line, overlaps_changed}

-- The output of `git ls-files -z`.
abbrev pub terminated : List Text → Text
terminated [] = []
terminated (u ∷ us) = u ++ (0 ∷ terminated us)

-- A path that git can print and the code accepts.
abbrev pub IsUntracked : Text → Type 0
IsUntracked u = (u ≢ []) × All (λ c. (c == 0) ≡ false) u × (is_invalid u ≡ false)

abbrev pub is_in : Text → List Text → Bool
is_in g [] = false
is_in g (u ∷ us) = text_eq u g || is_in g us

mark_files : List Text → Lines → Lines
mark_files [] m = m
mark_files (u ∷ us) m = mark_files us (mark_file u m)

mark_files-is_in :
    (us : List Text) (m : Lines) (g : Text) (k : ℕ)
    → mark_files us m g k ≡ (if is_in g us then k == 0 else m g k)
unfolding mark_files
mark_files-is_in [] m g k = refl
mark_files-is_in (u ∷ us) m g k = ground (arith, mark_files-is_in us (mark_file u m) g k)

split_append : (l s : Text) → All (λ c. (c == 0) ≡ false) l → split 0 (l ++ 0 ∷ s) ≡ l ∷ split 0 s
unfolding split
split_append [] s h = refl
split_append (c ∷ l) s h = rw (split_append l s h.1, h.0) refl

add_untracked-terminated :
    (us : List Text) (m : Lines)
    → All IsUntracked us
    → add_untracked m (split 0 (terminated us)) ≡ ok (mark_files us m)
unfolding add_untracked mark_files split
add_untracked-terminated [] m v = refl
add_untracked-terminated ([] ∷ us) m v = absurd (v.0.0 refl)
add_untracked-terminated ((c ∷ u) ∷ us) m v =
    rw (split_append (c ∷ u) (terminated us) v.0.1, v.0.2, add_untracked)
      (add_untracked-terminated us (mark_file (c ∷ u) m) v.1)

any_line_iff :
    (lines : ℕ → Bool) (n a : ℕ)
    → (any_line lines n (pos a) ≡ true)
      ↔ ((l : ℕ) × (a ≤ l) × (l < a + n) × (lines (l % 18446744073709551616) ≡ true))
unfolding any_line int_inc int_bits
any_line_iff lines zero a = (λ h. absurd (ground arith), λ h. absurd (omega (arith, h)))
any_line_iff lines (suc n) a = elim (Bool-cases (lines (a % 18446744073709551616))) [
  | inl e ↦ rw e (λ h. (a, omega arith, omega arith, e), λ h. refl)
  | inr e ↦ rw e (
    λ h.
        let (l, lo, hi, q) = (any_line_iff lines n (a + 1)).0 h in (l, omega arith, omega arith, q),
    λ (l, lo, hi, q). (any_line_iff lines n (a + 1)).1 (l, later l lo q e, omega arith, q),
  )
]
  where
    later :
        (l : ℕ)
        → a ≤ l
        → lines (l % 18446744073709551616) ≡ true
        → lines (a % 18446744073709551616) ≡ false
        → a + 1 ≤ l
    later l lo q e = elim (dec_lt a l) [
      | yes more ↦ omega arith
      | no same ↦ let eq : l ≡ a = omega arith in absurd (ground (arith, eq))
    ]

-- The lines that count for a mutation: those of its span, and line 0.
abbrev pub Counts : ℕ → ℕ → ℕ → Type 0
Counts a b l = (l ≡ 0) ⊎ ((a ≤ l) × (l ≤ b))

abbrev AnyCounts : (ℕ → Bool) → ℕ → ℕ → Type 0
AnyCounts lines a b = (l : ℕ) × Counts a b l × (lines l ≡ true)

within_iff :
    (lines : ℕ → Bool) (a b : ℕ)
    → b < 18446744073709551616
    → (any_line lines (b + 1 - a) (pos a) ≡ true) ↔ ((l : ℕ) × (a ≤ l) × (l ≤ b) × (lines l ≡ true))
within_iff lines a b small = (
  λ h.
      let (l, lo, hi, q) = (any_line_iff lines (b + 1 - a) a).0 h in
      let same : l % 18446744073709551616 ≡ l = omega arith in (l, lo, omega arith, rw same at q),
  λ (l, lo, hi, q).
      let same : l % 18446744073709551616 ≡ l = omega arith in
      (any_line_iff lines (b + 1 - a) a).1 (l, lo, omega arith, rw same q),
)

overlaps_iff :
    (lines : ℕ → Bool) (s t : ℤ) (a b : ℕ)
    → s ≡ pos a
    → t ≡ pos b
    → b < 18446744073709551616
    → ((if lines 0 then true else any_line lines (int_count s t) s) ≡ true) ↔ AnyCounts lines a b
unfolding int_count
overlaps_iff lines s t a b e f small =
    rw (e, f)
      (elim (Bool-cases (lines 0)) [
        | inl z ↦ rw z (λ h. (0, inl refl, z), λ h. refl)
        | inr z ↦ rw z (
          λ h. let (l, lo, hi, q) = (within_iff lines a b small).0 h in (l, inr (lo, hi), q),
          λ (l, k, q).
              (within_iff lines a b small).1
                (elim k [ inl o ↦ absurd (ground (arith, o, q, z)) | inr r ↦ (l, r.0, r.1, q) ]),
        )
      ])

overlaps_changed_iff :
    (sp : Span) (c : Lines) (a b : ℕ)
    → sp.start_line ≡ pos a
    → sp.end_line ≡ pos b
    → b < 18446744073709551616
    → (overlaps_changed sp (some c) ≡ true) ↔ AnyCounts (c sp.file) a b
unfolding overlaps_changed
overlaps_changed_iff sp c a b = overlaps_iff (c sp.file) sp.start_line sp.end_line a b

-- What counts in a file once the untracked files are added.
AnyCounts-mark_files :
    (us : List Text) (ps : List Patch) (m : Lines) (g : Text) (a b : ℕ)
    → ((f : Text) (k : ℕ) → (m f k ≡ true) ↔ Touches f k ps)
    → AnyCounts (mark_files us m g) a b
      ↔ ((is_in g us ≡ true) ⊎ ((l : ℕ) × Counts a b l × Touches g l ps))
AnyCounts-mark_files us ps m g a b marks = elim (Bool-cases (is_in g us)) [
  | inl i ↦ (λ h. inl i, λ h. (0, inl refl, let q = mark_files-is_in us m g 0 in ground (arith, q)))
  | inr o ↦ (
    λ (l, k, q).
        let same = mark_files-is_in us m g l in inr (l, k, (marks g l).0 (ground (arith, same))),
    λ h. elim h [
      | inl i ↦ absurd (ground (arith, i, o))
      | inr (l, k, t) ↦
          let same = mark_files-is_in us m g l in
          let q = (marks g l).1 t in (l, k, ground (arith, same, q))
    ],
  )
]

-- Where git reports these patches of text, to files whose names have no space and with each line below
-- 8 MiB, and these untracked files, an incremental analysis keeps a mutation of lines below 2 ^ 64 exactly
-- if its file is untracked or a patch of its file has a hunk with one of its lines.
pub changed_lines-overlaps :
    (unquote : Text → Option Text) (ps : List Patch) (ls us : List Text) (sp : Span) (a b : ℕ)
    → All (IsPatch unquote) ps
    → map drop_cr ls ≡ patches_lines ps
    → All IsLine ls
    → All IsUntracked us
    → sp.start_line ≡ pos a
    → sp.end_line ≡ pos b
    → b < 18446744073709551616
    → (c : Lines) × (changed_lines unquote (some (unlines ls)) (some (terminated us)) ≡ ok c)
      × ((overlaps_changed sp (some c) ≡ true)
          ↔ ((is_in sp.file us ≡ true) ⊎ ((l : ℕ) × Counts a b l × Touches sp.file l ps)))
unfolding changed_lines
changed_lines-overlaps unquote ps ls us sp a b v e h w s t small =
    let (m, p, marks) = parse-Touches unquote ps ls v e h in
    let kept = overlaps_changed_iff sp (mark_files us m) a b s t small in
    let counts = AnyCounts-mark_files us ps m sp.file a b marks in
    (
      mark_files us m,
      rw (p, changed_lines) (add_untracked-terminated us m w),
      (λ o. counts.0 (kept.0 o), λ o. kept.1 (counts.1 o)),
    )
