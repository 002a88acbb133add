-- ===== src/Prelude/Int.antt =====
-- Go's `int`, `int64` on 64 bits: the integer, and the two's complement pattern it wraps through.
use Prim.Native.Nat.{ℕ, suc, ◌+◌, ◌-◌, ◌%◌, ◌^◌, ◌<◌}
use mathlib.Core.Path.{◌≡◌}
use mathlib.Core.Bool.{Bool, true, false}
use native.Mathlib.Omega.{arith}
use uade_bot.Prelude.Tests.{ltb, leb, if◌then◌else◌}

-- `negsuc n` is -(n + 1).
pub data ℤ : Type 0 where
  pos : ℕ → ℤ
  negsuc : ℕ → ℤ

abbrev pub two64 : ℕ
two64 = 2 ^ 64

abbrev pub two63 : ℕ
two63 = 2 ^ 63

-- uint64(x)
unfoldable pub to_bits : ℤ → ℕ
to_bits (pos n) = n % two64
to_bits (negsuc n) = two64 - 1 - n % two64

-- int64(b), for a pattern b below 2^64
unfoldable pub of_bits : ℕ → ℤ
of_bits b = if ltb b two63 then pos b else negsuc (two64 - 1 - b)

-- a + b on `int`
infixl 65 ◌+ℤ◌
unfoldable pub ◌+ℤ◌ : ℤ → ℤ → ℤ
unfolding to_bits of_bits
a +ℤ b = of_bits ((to_bits a + to_bits b) % two64)

abbrev pub ltz : ℤ → ℤ → Bool
ltz (pos a) (pos b) = ltb a b
ltz (pos a) (negsuc b) = false
ltz (negsuc a) (pos b) = true
ltz (negsuc a) (negsuc b) = ltb b a

-- a ≤ b
abbrev pub lez : ℤ → ℤ → Bool
lez (pos a) (pos b) = leb a b
lez (pos a) (negsuc b) = false
lez (negsuc a) (pos b) = true
lez (negsuc a) (negsuc b) = leb b a

abbrev pub eqz : ℤ → ℤ → Bool
eqz (pos a) (pos b) = elim (ltb a b) [ true ↦ false | false ↦ leb a b ]
eqz (negsuc a) (negsuc b) = elim (ltb a b) [ true ↦ false | false ↦ leb a b ]
eqz _ _ = false

-- The values that an `int` has.
abbrev pub IsInt64 : ℤ → Type 0
IsInt64 (pos n) = n < two63
IsInt64 (negsuc n) = n < two63

-- Below the largest value, adding to an `int` does not wrap.
pub +ℤ-pos : (a b : ℕ) → a + b < two63 → pos a +ℤ pos b ≡ pos (a + b)
unfolding ◌+ℤ◌
+ℤ-pos a b h = ground arith

-- Taking one from a positive `int`.
pub suc-+ℤ-minus_one : (a : ℕ) → suc a < two63 → pos (suc a) +ℤ negsuc 0 ≡ pos a
unfolding ◌+ℤ◌
suc-+ℤ-minus_one a h = ground arith

-- The pattern of an `int` determines it.
pub of_bits-to_bits : (z : ℤ) → IsInt64 z → of_bits (to_bits z) ≡ z
unfolding of_bits to_bits
of_bits-to_bits (pos n) h = ground arith
of_bits-to_bits (negsuc n) h = ground arith

pub to_bits-lt : (z : ℤ) → to_bits z < two64
unfolding to_bits
to_bits-lt (pos n) = omega arith
to_bits-lt (negsuc n) = omega arith
