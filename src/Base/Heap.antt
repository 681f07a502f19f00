-- ===== src/Base/Heap.antt =====
-- container/heap on a slice, with its method Less as a comparison of two items: `heap.Push`, and
-- `heap.Fix` at the root.
pub mod Swap
pub mod Up
pub mod Down
use Prim.Native.Nat.{ℕ, zero, suc, ◌+◌, ◌-◌, ◌*◌, ◌/◌, ◌<◌}
use mathlib.Core.Bool.{Bool, true, false, not, ◌&&◌, ◌||◌}
use mathlib.Core.List.{List, [], ◌∷◌, ◌++◌}
use mathlib.Core.Option.{Option, none, some}
use mathlib.Core.Path.{◌≡◌}
use mutation_judge.Base.Lists.{length, get_elem?}
use mutation_judge.Base.Tests.{ltb, leb, ◌==◌, if◌then◌else◌}

abbrev pub parent : ℕ → ℕ
parent j = (j - 1) / 2

module _ {ℓ} {A : Type ℓ} where
  abbrev pub set : List A → ℕ → A → List A
  set [] i v = []
  set (x ∷ h) zero v = v ∷ h
  set (x ∷ h) (suc i) v = x ∷ set h i v

  abbrev pub exchange : List A → ℕ → ℕ → Option A → Option A → List A
  exchange h i j (some x) (some y) = set (set h i y) j x
  exchange h i j _ _ = h

  -- `h[i], h[j] = h[j], h[i]`
  abbrev pub swap : List A → ℕ → ℕ → List A
  swap h i j = exchange h i j (get_elem? h i) (get_elem? h j)

module _ {ℓ} {A : Type ℓ} (less : A → A → Bool) where
  -- `Less(i, j)`, false out of range.
  abbrev pub either_less : Option A → Option A → Bool
  either_less (some a) (some b) = less a b
  either_less _ _ = false

  abbrev pub less_at : List A → ℕ → ℕ → Bool
  less_at h i j = either_less (get_elem? h i) (get_elem? h j)

  -- `up`, with fuel `j`.
  unfoldable pub up : ℕ → List A → ℕ → List A
  up zero h j = h
  up (suc fuel) h j =
      let rest = up fuel (swap h (parent j) j) (parent j) in
      if parent j == j || not (less_at h j (parent j)) then h else rest

  -- The child of `i` that is taken.
  abbrev pub child : List A → ℕ → ℕ
  child h i =
      if ltb (2 * i + 2) (length h) && less_at h (2 * i + 2) (2 * i + 1)
      then 2 * i + 2
      else 2 * i + 1

  -- `down`, with as much fuel as items.
  unfoldable pub down : ℕ → List A → ℕ → List A
  down zero h i = h
  down (suc fuel) h i =
      let rest = down fuel (swap h i (child h i)) (child h i) in
      if leb (length h) (2 * i + 1) || not (less_at h (child h i) i) then h else rest

  unfoldable pub push : List A → A → List A
  unfolding up
  push h m = up (length h) (h ++ m ∷ []) (length h)

  -- `Fix` at the root, for which `up` has nothing to do.
  unfoldable pub fix : List A → List A
  unfolding down
  fix h = down (length h) h 0

  abbrev pub IsHeap : List A → Type 0
  IsHeap h = (c : ℕ) → 0 < c → less_at h c (parent c) ≡ false
