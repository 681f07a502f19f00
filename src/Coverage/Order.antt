-- ===== src/Coverage/Order.antt =====
-- The order in which internal/coverage/coverage.go goes over a map makes no difference.
use mathlib.Core.List.{Permᴰ}
use mathlib.Core.List.Permᴰ.{nil, cons, swap, trans}
use mutation_judge.Base.{
  ◌≡◌, refl, sym, ◌∙◌, Bool, [], ◌∷◌, Text, select, Bool-cases, inl, inr, arith,
}
use mutation_judge.Model.Validate.{is_empty}
use mutation_judge.Coverage.{LineSet, Files, no_index, build_from}
use mutation_judge.Coverage.Resolve.{Distinct, sole, has_suffix_path, build_from-resolve}

-- Two lists of files with nothing to tell them apart by how many and which one they are.
abbrev Alike : Files → Files → Type 0
Alike fs gs = (sole fs ≡ sole gs) × (is_empty fs ≡ is_empty gs)

Alike-cons : (a : Text × LineSet) (fs gs : Files) → Alike fs gs → Alike (a ∷ fs) (a ∷ gs)
Alike-cons a [] [] h = (refl, refl)
Alike-cons a [] (g ∷ gs) h = absurd (ground (arith, h.1))
Alike-cons a (f ∷ fs) [] h = absurd (ground (arith, h.1))
Alike-cons a (f ∷ fs) (g ∷ gs) h = (refl, refl)

module _ (p : Text × LineSet → Bool) where
  select-Alike : {fs gs : Files} → Permᴰ fs gs → Alike (select p fs) (select p gs)
  select-Alike nil = (refl, refl)
  select-Alike (cons {a = a} {b = b} {l₁ = fs} {l₂ = gs} e d) = elim (Bool-cases (p b)) [
    | inl h ↦ rw (e, h) (Alike-cons b (select p fs) (select p gs) (select-Alike d))
    | inr h ↦ rw (e, h) (select-Alike d)
  ]
  select-Alike (swap {a = a} {b = b} {a' = c} {b' = f} {l = fs} e k) = elim (Bool-cases (p c)) [
    | inl h ↦ elim (Bool-cases (p f)) [
      | inl i ↦ rw (e, k, h, i) (refl, refl)
      | inr i ↦ rw (e, k, h, i) (refl, refl)
    ]
    | inr h ↦ elim (Bool-cases (p f)) [
      | inl i ↦ rw (e, k, h, i) (refl, refl)
      | inr i ↦ rw (e, k, h, i) (refl, refl)
    ]
  ]
  select-Alike (trans d k) =
      let (a, b) = select-Alike d in let (c, e) = select-Alike k in (a ∙ c, b ∙ e)

-- The index that `buildSuffixIndex` makes is the same in whatever order it goes over the map of the files.
pub build_from-order :
    (fs gs : Files) (s : Text)
    → Permᴰ fs gs
    → Distinct fs
    → Distinct gs
    → (build_from no_index fs).by_suffix s ≡ (build_from no_index gs).by_suffix s
build_from-order fs gs s d h k =
    build_from-resolve fs s h
    ∙ ((select-Alike (has_suffix_path s) d).0 ∙ sym (build_from-resolve gs s k))
