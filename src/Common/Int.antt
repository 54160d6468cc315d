-- ===== src/Common/Int.antt =====
-- The C type `int`: an integer, its 32-bit pattern, its equality test and its order.
use Prim.Native.Nat.{ℕ, ◌-◌, ◌%◌, ◌^◌, bit_and}
use mathlib.Core.Path.{◌≡◌}
use mathlib.Core.Logic.{◌≢◌, ◌⊎◌}
use mathlib.Core.Bool.{Bool, true, false}
use native.Mathlib.Omega.{arith}
use legacy_point_monitor.Common.Tests.{◌==◌, ltb, if◌then◌else◌}

-- `negsuc n` is -(n + 1).
pub data ℤ : Type 0 where
  pos : ℕ → ℤ
  negsuc : ℕ → ℤ

-- The constant -1, by which the program reports errors.
abbrev pub minus_one : ℤ
minus_one = negsuc 0

infix 50 ◌==ℤ◌
abbrev pub ◌==ℤ◌ : ℤ → ℤ → Bool
pos a ==ℤ pos b = a == b
pos a ==ℤ negsuc b = false
negsuc a ==ℤ pos b = false
negsuc a ==ℤ negsuc b = a == b

-- `(unsigned int) a`
unfoldable pub to_u32 : ℤ → ℕ
to_u32 (pos n) = n % 2 ^ 32
to_u32 (negsuc n) = 2 ^ 32 - 1 - n % 2 ^ 32

-- The `int` with a 32-bit pattern.
unfoldable pub of_u32 : ℕ → ℤ
of_u32 u = if ltb u (2 ^ 31) then pos u else negsuc (2 ^ 32 - 1 - u)

-- `a & b`
infix 60 ◌&ℤ◌
unfoldable pub ◌&ℤ◌ : ℤ → ℤ → ℤ
unfolding to_u32 of_u32
a &ℤ b = of_u32 (bit_and (to_u32 a) (to_u32 b))

pub eq_of_beqℤ : (a b : ℤ) → (a ==ℤ b) ≡ true → a ≡ b
eq_of_beqℤ a b h = ground arith

pub ne_of_beqℤ : (a b : ℤ) → (a ==ℤ b) ≡ false → a ≢ b
ne_of_beqℤ a b h = ground arith

pub beqℤ_refl : (a : ℤ) → (a ==ℤ a) ≡ true
beqℤ_refl a = ground arith

pub beqℤ_of_ne : (a b : ℤ) → a ≢ b → (a ==ℤ b) ≡ false
beqℤ_of_ne a b h = ground arith

pub ℤ-cases : (a b : ℤ) → (a ≡ b) ⊎ (a ≢ b)
ℤ-cases a b = ground arith
