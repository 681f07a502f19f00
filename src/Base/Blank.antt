-- ===== src/Base/Blank.antt =====
-- The white space that `strings.TrimSpace` and `bytes.TrimSpace` remove, in UTF-8.
use Prim.Native.Nat.{ℕ, zero, suc}
use mathlib.Core.Bool.{Bool, true, false, ◌&&◌, ◌||◌}
use mathlib.Core.List.{[], ◌∷◌}
use mutation_judge.Base.Strings.{Text}
use mutation_judge.Base.Tests.{leb, ◌==◌, if◌then◌else◌}

-- The bytes of the white space that `strings.TrimSpace` finds in front: one, two or three, or none.
abbrev pub space_width : ℕ → Text → ℕ
space_width c s = if (leb 9 c && leb c 13) || c == 32 then 1 else elim s [
  | [] ↦ 0
  | d ∷ t ↦ if c == 194 then (if d == 133 || d == 160 then 2 else 0) else elim t [
    | [] ↦ 0
    | e ∷ _ ↦
        if c == 225 && (d == 154 && e == 128)
          || c == 226
            && (d == 128 && (leb 128 e && leb e 138 || (e == 168 || (e == 169 || e == 175))))
          || c == 226 && (d == 129 && e == 159)
          || c == 227 && (d == 128 && e == 128)
        then 3
        else 0
  ]
]

-- `strings.TrimSpace(s) == ""`, behind so many bytes of a white space.
unfoldable pub blank_from : ℕ → Text → Bool
blank_from k [] = true
blank_from (suc k) (c ∷ s) = blank_from k s
blank_from zero (c ∷ s) = elim (space_width c s) [ zero ↦ false | suc k ↦ blank_from k s ]

abbrev pub is_blank : Text → Bool
is_blank = blank_from 0
