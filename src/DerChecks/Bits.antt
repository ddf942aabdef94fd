-- ===== src/DerChecks/Bits.antt =====
-- check.py: the flags that the checks on settings and capability ask for, bit by bit.
use cactus_runner.Prelude.{
  ℕ, zero, suc, ◌+◌, ◌*◌, ◌/◌, ◌%◌, ◌≤◌, ◌<◌, String, [], ◌≡◌, ◌↔◌, refl, sym, ◌∙◌, ap, arith,
}
use cactus_runner.Services.{Services, Field}
use cactus_runner.DeviceChecks.{bitand_upto, bitand}
use cactus_runner.SoftChecker.{add}
use cactus_runner.DerChecks.{bits_set}

-- The bit at a position, from the lowest.
pub bit : (position n : ℕ) → ℕ
bit zero n = n % 2
bit (suc i) n = bit i (n / 2)

bit-zero : (i : ℕ) → bit i 0 ≡ 0
unfolding bit
bit-zero zero = refl
bit-zero (suc i) = bit-zero i

below_two : (x y z : ℕ) → x < 2 → y < 2 → ((x * y + 2 * z) % 2 ≡ x * y) × ((x * y + 2 * z) / 2 ≡ z)
below_two zero y z h k = (omega arith, omega arith)
below_two (suc zero) y z h k = (omega arith, omega arith)
below_two (suc (suc x)) y z h k = absurd (omega arith)

bit-none : (a b i : ℕ) → a ≡ 0 → bit i 0 ≡ bit i a * bit i b
bit-none a b i e = rw (e, bit-zero i) omega arith

bit-step :
    (k a b i : ℕ)
    → ((j : ℕ) → bit j (bitand_upto k (a / 2) (b / 2)) ≡ bit j (a / 2) * bit j (b / 2))
    → 0 < a
    → bit i (a % 2 * (b % 2) + 2 * bitand_upto k (a / 2) (b / 2)) ≡ bit i a * bit i b
unfolding bit
bit-step k a b zero each h =
    (below_two (a % 2) (b % 2) (bitand_upto k (a / 2) (b / 2)) (omega arith) (omega arith)).0
bit-step k a b (suc i) each h =
    rw ((below_two (a % 2) (b % 2) (bitand_upto k (a / 2) (b / 2)) (omega arith) (omega arith)).1)
      (each i)

bit-bitand_upto : (k a b i : ℕ) → a ≤ k → bit i (bitand_upto k a b) ≡ bit i a * bit i b
unfolding bitand_upto
bit-bitand_upto zero a b i h = bit-none a b i (omega arith)
bit-bitand_upto (suc k) a b i h =
    let each : (j : ℕ) → bit j (bitand_upto k (a / 2) (b / 2)) ≡ bit j (a / 2) * bit j (b / 2) =
      λ j. bit-bitand_upto k (a / 2) (b / 2) j (omega arith) in
    ground (arith, bit-none a b i, bit-step k a b i each)

bit-bitand : (a b i : ℕ) → bit i (bitand a b) ≡ bit i a * bit i b
unfolding bitand
bit-bitand a b i = bit-bitand_upto a a b i (omega arith)

bit-below : (i n : ℕ) → bit i n < 2
unfolding bit
bit-below zero n = omega arith
bit-below (suc i) n = bit-below i (n / 2)

-- Numbers with the same bits are equal.
same_bits : (k a b : ℕ) → a ≤ k → b ≤ k → ((i : ℕ) → bit i a ≡ bit i b) → a ≡ b
unfolding bit
same_bits zero a b h l each = omega arith
same_bits (suc k) a b h l each =
    let halves : a / 2 ≡ b / 2 =
      same_bits k (a / 2) (b / 2) (omega arith) (omega arith) (λ i. each (suc i)) in
    omega (arith, each 0)

absorbed : (x y : ℕ) → y < 2 → (y ≡ 1 → x ≡ 1) → x * y ≡ y
absorbed x zero l h = omega arith
absorbed x (suc zero) l h = omega (arith, h refl)
absorbed x (suc (suc y)) l h = absurd (omega arith)

factor : (x y : ℕ) → y ≡ x * y → y ≡ 1 → x ≡ 1
factor x zero e h = absurd (omega arith)
factor x (suc zero) e h = omega arith
factor x (suc (suc y)) e h = absurd (omega arith)

-- Each bit of the second number is a bit of the first.
pub HasBits : (found expected : ℕ) → Type 0
HasBits found expected = (i : ℕ) → bit i expected ≡ 1 → bit i found ≡ 1

bitand-HasBits : (found expected : ℕ) → (bitand found expected ≡ expected) ↔ HasBits found expected
unfolding HasBits
bitand-HasBits found expected = (
  (λ e i one.
      factor (bit i found) (bit i expected) (sym (ap (bit i) e) ∙ bit-bitand found expected i) one),
  (λ each. same_bits (bitand found expected + expected) _ _ (omega arith) (omega arith) (λ i.
      bit-bitand found expected i
      ∙ absorbed (bit i found) (bit i expected) (bit-below i expected) (each i))),
)

module _ (S : Services) where
  -- A parameter that asks for flags adds no failure exactly if each of its bits is set in the column.
  pub bits_set-HasBits :
      (label : String) (field : Field) (found expected : ℕ)
      → (bits_set S label field found expected ≡ []) ↔ HasBits found expected
  unfolding bits_set add
  bits_set-HasBits label field found expected = ground (arith, bitand-HasBits found expected)
