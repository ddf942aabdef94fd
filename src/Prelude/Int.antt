-- ===== src/Prelude/Int.antt =====
-- Python's unbounded `int`, over the native numbers.
use Prim.Native.Nat.{ℕ, suc, ◌+◌, ◌-◌, ◌*◌, ◌/◌, ◌%◌}
use mathlib.Core.Bool.{Bool, false}
use cactus_runner.Prelude.Tests.{leb, ltb, ◌==◌, if◌then◌else◌}

-- `negsuc n` is -(n + 1).
pub data ℤ : Type 0 where
  pos : ℕ → ℤ
  negsuc : ℕ → ℤ

abbrev pub pos_part : ℤ → ℕ
pos_part (pos n) = n
pos_part (negsuc n) = 0

abbrev pub neg_part : ℤ → ℕ
neg_part (pos n) = 0
neg_part (negsuc n) = suc n

-- a - b, as an integer.
abbrev pub sub_ℕ : ℕ → ℕ → ℤ
sub_ℕ a b = if leb b a then pos (a - b) else negsuc (b - a - 1)

-- k * a, for a number k.
abbrev pub scale_ℤ : ℕ → ℤ → ℤ
scale_ℤ k a = sub_ℕ (k * pos_part a) (k * neg_part a)

abbrev pub leb_ℤ : ℤ → ℤ → Bool
leb_ℤ a b = leb (pos_part a + neg_part b) (pos_part b + neg_part a)

abbrev pub eqb_ℤ : ℤ → ℤ → Bool
eqb_ℤ (pos a) (pos b) = a == b
eqb_ℤ (negsuc a) (negsuc b) = a == b
eqb_ℤ _ _ = false

abbrev pub neg_ℤ : ℤ → ℤ
neg_ℤ a = sub_ℕ (neg_part a) (pos_part a)

-- a + n
abbrev pub plus_ℕ : ℤ → ℕ → ℤ
plus_ℕ a n = sub_ℕ (pos_part a + n) (neg_part a)

-- a + b
abbrev pub plus_ℤ : ℤ → ℤ → ℤ
plus_ℤ a b = sub_ℕ (pos_part a + pos_part b) (neg_part a + neg_part b)

-- The quotient of two naturals, rounded half to even.
abbrev round_ℕ : ℕ → ℕ → ℕ
round_ℕ a b =
    let q = a / b in
    let r = 2 * (a % b) in if ltb r b then q else if ltb b r then q + 1 else q + q % 2

-- round(a / b)
unfoldable pub round_quotient : ℤ → ℤ → ℤ
round_quotient (pos a) (pos b) = pos (round_ℕ a b)
round_quotient (negsuc a) (negsuc b) = pos (round_ℕ (suc a) (suc b))
round_quotient (pos a) (negsuc b) = neg_ℤ (pos (round_ℕ a (suc b)))
round_quotient (negsuc a) (pos b) = neg_ℤ (pos (round_ℕ (suc a) b))
