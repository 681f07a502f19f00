-- ===== src/GitDiff/Marks.antt =====
-- The lines that the hunk headers of internal/gitdiff/gitdiff.go mark, as a set.
use mutation_judge.Base.{
  ℕ, zero, suc, ◌+◌, ◌%◌, ◌≤◌, ◌<◌, ◌≡◌, ◌≢◌, ◌↔◌, ◌⊎◌, true, List, [], ◌∷◌, Text, text_eq,
  text_eq_iff, arith, Bool-cases, inl, inr,
}
use native.Mathlib.Decide.{dec_le}
use mutation_judge.GitDiff.{Lines, set, mark}
use mutation_judge.GitDiff.Section.{mark_hunk, mark_hunks, mark_patch}
use mutation_judge.GitDiff.Patch.{Hunk, added_in, Patch, path_name, AnyOf, CoversLine, Touches}

-- A line number of a two's complement `int`.
abbrev wrap : ℕ → ℕ
wrap n = n % 18446744073709551616

-- Line `k` of file `g` is one of the lines from the `i`th of a hunk.
abbrev InRange : Text → ℕ → ℕ → ℕ → Text → ℕ → Type 0
InRange f start i n g k = (f ≡ g) × ((j : ℕ) × (i ≤ j) × (j < i + n) × (k ≡ wrap (start + j)))

set_iff :
    (f : Text) (n : ℕ) (m : Lines) (g : Text) (k : ℕ)
    → (set f n m g k ≡ true) ↔ ((m g k ≡ true) ⊎ ((f ≡ g) × (k ≡ n)))
set_iff f n m g k = ground (arith, text_eq_iff f g)

mark-InRange :
    (f : Text) (start i n : ℕ) (m : Lines) (g : Text) (k : ℕ)
    → mark f start i n m g k ≡ true
    → (m g k ≡ true) ⊎ InRange f start i n g k
unfolding mark
mark-InRange f start i zero m g k h = inl h
mark-InRange f start i (suc n) m g k h =
    elim (mark-InRange f start (i + 1) n (set f (wrap (start + i)) m) g k h) [
      | inr (e, (j, lo, hi, q)) ↦ inr (e, (j, omega arith, omega arith, q))
      | inl h' ↦ elim ((set_iff f (wrap (start + i)) m g k).0 h') [
        | inl h'' ↦ inl h''
        | inr (e, q) ↦ inr (e, (i, omega arith, omega arith, q))
      ]
    ]

InRange-mark :
    (f : Text) (start i n : ℕ) (m : Lines) (g : Text) (k : ℕ)
    → (m g k ≡ true) ⊎ InRange f start i n g k
    → mark f start i n m g k ≡ true
unfolding mark
InRange-mark f start i zero m g k (inl h) = h
InRange-mark f start i zero m g k (inr (e, (j, lo, hi, q))) = absurd (omega arith)
InRange-mark f start i (suc n) m g k (inl h) =
    InRange-mark f start (i + 1) n (set f (wrap (start + i)) m) g k
      (inl ((set_iff f (wrap (start + i)) m g k).1 (inl h)))
InRange-mark f start i (suc n) m g k (inr (e, (j, lo, hi, q))) =
    InRange-mark f start (i + 1) n (set f (wrap (start + i)) m) g k (elim (dec_le j i) [
      | yes le ↦ inl ((set_iff f (wrap (start + i)) m g k).1 (inr (e, first_line le)))
      | no above ↦ inr (e, (j, omega arith, omega arith, q))
    ])
  where
    first_line : j ≤ i → k ≡ wrap (start + i)
    first_line le = let same : j ≡ i = omega arith in rw (← same) q

-- The file is there, it is the file `g`, and the hunk has line `k`.
abbrev Marks : Text → Text → ℕ → Hunk → Type 0
Marks f g k h = (f ≢ []) × (f ≡ g) × CoversLine k h

mark_hunk-Marks :
    (f : Text) (x : Hunk) (m : Lines) (g : Text) (k : ℕ)
    → mark_hunk f x m g k ≡ true
    → (m g k ≡ true) ⊎ Marks f g k x
mark_hunk-Marks f x m g k h = elim (Bool-cases (text_eq f [])) [
  | inl e ↦ inl (rw e at h)
  | inr e ↦ elim (mark-InRange f x.start 0 (added_in x.body) m g k (rw e at h)) [
    | inl h' ↦ inl h'
    | inr (q, (j, lo, hi, r)) ↦
        inr ((λ n. ground (arith, text_eq_iff f [])), q, (j, omega arith, r))
  ]
]

Marks-mark_hunk :
    (f : Text) (x : Hunk) (m : Lines) (g : Text) (k : ℕ)
    → (m g k ≡ true) ⊎ Marks f g k x
    → mark_hunk f x m g k ≡ true
Marks-mark_hunk f x m g k h = elim (Bool-cases (text_eq f [])) [
  | inl e ↦ rw e (elim h [ inl h' ↦ h' | inr (n, q, c) ↦ absurd (n ((text_eq_iff f []).0 e)) ])
  | inr e ↦ rw e (
      InRange-mark f x.start 0 (added_in x.body) m g k (elim h [
        | inl h' ↦ inl h'
        | inr (n, q, (j, lt, r)) ↦ inr (q, (j, omega arith, omega arith, r))
      ]))
]

mark_hunks-Touches :
    (f : Text) (hs : List Hunk) (m : Lines) (g : Text) (k : ℕ)
    → mark_hunks f hs m g k ≡ true
    → (m g k ≡ true) ⊎ ((f ≢ []) × (f ≡ g) × AnyOf (CoversLine k) hs)
mark_hunks-Touches f [] m g k h = inl h
mark_hunks-Touches f (x ∷ hs) m g k h = elim (mark_hunks-Touches f hs (mark_hunk f x m) g k h) [
  | inr (n, q, c) ↦ inr (n, q, inr c)
  | inl h' ↦ elim (mark_hunk-Marks f x m g k h') [
    | inl h'' ↦ inl h''
    | inr (n, q, c) ↦ inr (n, q, inl c)
  ]
]

Touches-mark_hunks :
    (f : Text) (hs : List Hunk) (m : Lines) (g : Text) (k : ℕ)
    → (m g k ≡ true) ⊎ ((f ≢ []) × (f ≡ g) × AnyOf (CoversLine k) hs)
    → mark_hunks f hs m g k ≡ true
Touches-mark_hunks f [] m g k (inl h) = h
Touches-mark_hunks f [] m g k (inr h) = absurd h.2
Touches-mark_hunks f (x ∷ hs) m g k (inl h) =
    Touches-mark_hunks f hs (mark_hunk f x m) g k (inl (Marks-mark_hunk f x m g k (inl h)))
Touches-mark_hunks f (x ∷ hs) m g k (inr (n, q, inl c)) =
    Touches-mark_hunks f hs (mark_hunk f x m) g k (inl (Marks-mark_hunk f x m g k (inr (n, q, c))))
Touches-mark_hunks f (x ∷ hs) m g k (inr (n, q, inr c)) =
    Touches-mark_hunks f hs (mark_hunk f x m) g k (inr (n, q, c))

unfoldable pub mark_patches : List Patch → Lines → Lines
mark_patches [] c = c
mark_patches (p ∷ ps) c = mark_patches ps (mark_patch p c)

pub mark_patches_iff :
    (ps : List Patch) (m : Lines) (g : Text) (k : ℕ)
    → (mark_patches ps m g k ≡ true) ↔ ((m g k ≡ true) ⊎ Touches g k ps)
unfolding mark_patches
mark_patches_iff [] m g k = (λ h. inl h, λ h. elim h [ inl h' ↦ h' | inr e ↦ elim e [ ] ])
mark_patches_iff (p ∷ ps) m g k = (
  λ h. elim ((mark_patches_iff ps (mark_patch p m) g k).0 h) [
    | inr t ↦ inr (inr t)
    | inl h' ↦ elim (mark_hunks-Touches (path_name p.new_path) p.hunks m g k h') [
      | inl h'' ↦ inl h''
      | inr t ↦ inr (inl t)
    ]
  ],
  λ h. (mark_patches_iff ps (mark_patch p m) g k).1 (elim h [
    | inl h' ↦ inl (Touches-mark_hunks (path_name p.new_path) p.hunks m g k (inl h'))
    | inr (inl t) ↦ inl (Touches-mark_hunks (path_name p.new_path) p.hunks m g k (inr t))
    | inr (inr t) ↦ inr t
  ]),
)
