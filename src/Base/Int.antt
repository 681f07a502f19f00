-- ===== src/Base/Int.antt =====
-- Go's signed integers, where a decoded report may hold a negative one. `negsuc n` is -(n + 1).
use Prim.Native.Nat.{ℕ, suc, ◌+◌, ◌-◌, ◌%◌}
use mathlib.Core.Bool.{Bool, true, false}
use mathlib.Core.Logic.{◌↔◌}
use mathlib.Core.Path.{◌≡◌}
use native.Mathlib.Omega.{arith}
use mutation_judge.Base.Tests.{ltb, ◌==◌, if◌then◌else◌}

pub data ℤ : Type 0 where
  pos : ℕ → ℤ
  negsuc : ℕ → ℤ

unfoldable pub int_eq : ℤ → ℤ → Bool
int_eq (pos a) (pos b) = a == b
int_eq (negsuc a) (negsuc b) = a == b
int_eq _ _ = false

unfoldable pub int_lt : ℤ → ℤ → Bool
int_lt (pos a) (pos b) = ltb a b
int_lt (pos a) (negsuc b) = false
int_lt (negsuc a) (pos b) = true
int_lt (negsuc a) (negsuc b) = ltb b a

-- A sum in the range of the type.
unfoldable pub int_add : ℤ → ℤ → ℤ
int_add (pos a) (pos b) = pos (a + b)
int_add (pos a) (negsuc b) = if ltb b a then pos (a - suc b) else negsuc (b - a)
int_add (negsuc a) (pos b) = if ltb a b then pos (b - suc a) else negsuc (a - b)
int_add (negsuc a) (negsuc b) = negsuc (a + b + 1)

-- `x++`, below the largest value of the type.
unfoldable pub int_inc : ℤ → ℤ
int_inc (pos a) = pos (a + 1)
int_inc (negsuc a) = elim a [ ℕ.zero ↦ pos 0 | suc b ↦ negsuc b ]

-- How many values a loop from the first to the second takes, both included.
unfoldable pub int_count : ℤ → ℤ → ℕ
int_count (pos a) (pos b) = b + 1 - a
int_count (pos a) (negsuc b) = 0
int_count (negsuc a) (pos b) = a + 1 + (b + 1)
int_count (negsuc a) (negsuc b) = a + 1 - b

-- The bits of a 64-bit `int`.
unfoldable pub int_bits : ℤ → ℕ
int_bits (pos a) = a % 18446744073709551616
int_bits (negsuc a) = 18446744073709551615 - a % 18446744073709551616

pub int_eq_iff : (a b : ℤ) → (int_eq a b ≡ true) ↔ (a ≡ b)
unfolding int_eq
int_eq_iff (pos a) (pos b) = ground arith
int_eq_iff _ _ = ground arith

pub int_lt_irrefl : (a : ℤ) → int_lt a a ≡ false
unfolding int_lt
int_lt_irrefl (pos a) = ground arith
int_lt_irrefl (negsuc a) = ground arith

pub int_lt_trans : (a b c : ℤ) → int_lt a b ≡ true → int_lt b c ≡ true → int_lt a c ≡ true
unfolding int_lt
int_lt_trans (pos a) (pos b) (pos c) h k = ground arith
int_lt_trans _ _ _ h k = ground arith

pub int_lt-total : (a b : ℤ) → int_lt a b ≡ false → int_lt b a ≡ false → a ≡ b
unfolding int_lt
int_lt-total (pos a) (pos b) h k = ground arith
int_lt-total _ _ h k = ground arith

pub int_lt-asym : (a b : ℤ) → int_lt a b ≡ true → int_lt b a ≡ false
int_lt-asym a b h = ground (arith, int_lt_irrefl a, int_lt_trans a b a)

pub int_lt-ge_trans : (a b c : ℤ) → int_lt b a ≡ false → int_lt c b ≡ false → int_lt c a ≡ false
int_lt-ge_trans a b c h k = ground (arith, int_lt_trans c a b, int_lt-total a b)
