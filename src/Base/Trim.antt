-- ===== src/Base/Trim.antt =====
-- `strings.TrimSpace`, and `strings.TrimLeft` and `strings.TrimRight` with the cutset " \t".
use mutation_judge.Base.Blank.{space_width, is_blank, blank_from}
use mutation_judge.Base.Strings.{Text}
use mutation_judge.Base.Tests.{◌==◌, if◌then◌else◌}
use Prim.Native.Nat.{ℕ, zero, suc}
use mathlib.Core.Bool.{Bool, ◌||◌}
use mathlib.Core.List.{[], ◌∷◌}

-- What stands behind the white space in front, `k` bytes of which are still to come.
unfoldable pub skip_space : ℕ → Text → Text
skip_space k [] = []
skip_space (suc k) (c ∷ s) = skip_space k s
skip_space zero (c ∷ s) = elim (space_width c s) [ zero ↦ c ∷ s | suc k ↦ skip_space k s ]

-- A text is cut where all that follows is white space.
unfoldable pub cut_space : Text → Text
unfolding blank_from
cut_space [] = []
cut_space (c ∷ s) = let rest = cut_space s in if is_blank (c ∷ s) then [] else c ∷ rest

abbrev pub trim_space : Text → Text
trim_space s = cut_space (skip_space 0 s)

abbrev pub is_tab_or_space : ℕ → Bool
is_tab_or_space c = c == b' ' || c == 9

-- `len(s) - len(strings.TrimLeft(s, " \t"))`
unfoldable pub indent : Text → ℕ
indent [] = 0
indent (c ∷ s) = let rest = indent s in if is_tab_or_space c then suc rest else 0

-- `strings.TrimRight(s, " \t")`
abbrev trim_cons : ℕ → Text → Text
trim_cons c [] = if is_tab_or_space c then [] else c ∷ []
trim_cons c (d ∷ s) = c ∷ d ∷ s

unfoldable pub trim_tabs : Text → Text
trim_tabs [] = []
trim_tabs (c ∷ s) = trim_cons c (trim_tabs s)
