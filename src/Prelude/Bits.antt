-- ===== src/Prelude/Bits.antt =====
-- The source's `|` of fields that do not overlap is a sum, and its `&` with k low ones is a
-- remainder, at every width. The native operations are recursions on binary digits with fuel.
use Prim.Native.Nat.{
  ℕ, zero, suc, ◌+◌, ◌-◌, ◌*◌, ◌/◌, ◌%◌, ◌^◌, ◌≤◌, ◌<◌, min, max, bit_and, bit_or, bit_and-bitwise,
  bit_or-bitwise, digits,
}
use mathlib.Core.Path.{◌≡◌, refl, ap}
use native.Mathlib.Nat.{pow-suc, one-le-pow}
use native.Mathlib.Omega.{arith}

module _ (rest : ℕ → ℕ) (op : ℕ → ℕ → ℕ) where
  -- Any two amounts of fuel that reach the first operand agree.
  enough_fuel : (n k a b : ℕ) → a ≤ n → a ≤ k → digits rest op n a b ≡ digits rest op k a b
  enough_fuel zero zero a b h l = refl
  enough_fuel zero (suc k) zero b h l = refl
  enough_fuel (suc n) zero zero b h l = refl
  enough_fuel (suc n) (suc k) zero b h l = refl
  enough_fuel zero _ (suc a) b h l = absurd (omega arith)
  enough_fuel (suc n) zero (suc a) b h l = absurd (omega arith)
  enough_fuel (suc n) (suc k) (suc a) b h l =
      ap (λ (t : ℕ). t * 2 + op (suc a % 2) (b % 2))
        (enough_fuel n k (suc a / 2) (b / 2) (omega arith) (omega arith))

-- The lowest digit of each operation.
pub bit_or_low : (a b : ℕ) → bit_or a b ≡ bit_or (a / 2) (b / 2) * 2 + max (a % 2) (b % 2)
bit_or_low zero b = omega (arith, bit_or-bitwise 0 b, bit_or-bitwise 0 (b / 2))
bit_or_low (suc a) b = omega (
  arith,
  bit_or-bitwise (suc a) b,
  bit_or-bitwise (suc a / 2) (b / 2),
  enough_fuel (λ y. y) max a (suc a / 2) (suc a / 2) (b / 2) (omega arith) (omega arith),
)

pub bit_and_low : (a b : ℕ) → bit_and a b ≡ bit_and (a / 2) (b / 2) * 2 + min (a % 2) (b % 2)
bit_and_low zero b = omega (arith, bit_and-bitwise 0 b, bit_and-bitwise 0 (b / 2))
bit_and_low (suc a) b = omega (
  arith,
  bit_and-bitwise (suc a) b,
  bit_and-bitwise (suc a / 2) (b / 2),
  enough_fuel (λ y. 0) min a (suc a / 2) (suc a / 2) (b / 2) (omega arith) (omega arith),
)

bit_or-zero_below : (n a : ℕ) → a ≤ n → bit_or a 0 ≡ a
bit_or-zero_below n zero h = refl
bit_or-zero_below zero (suc a) h = absurd (omega arith)
bit_or-zero_below (suc n) (suc a) h =
    omega (arith, bit_or_low (suc a) 0, bit_or-zero_below n (suc a / 2) (omega arith))

bit_and-zero_below : (n a : ℕ) → a ≤ n → bit_and a 0 ≡ 0
bit_and-zero_below n zero h = refl
bit_and-zero_below zero (suc a) h = absurd (omega arith)
bit_and-zero_below (suc n) (suc a) h =
    omega (arith, bit_and_low (suc a) 0, bit_and-zero_below n (suc a / 2) (omega arith))

-- a * 2 ^ (k + 1) is twice a * 2 ^ k
double_shift : (a k : ℕ) → a * 2 ^ suc k ≡ 2 * (a * 2 ^ k)
double_shift a k = omega (arith, ap (λ (t : ℕ). a * t) (pow-suc 2 k))

-- A field above bit k and one below it.
pub bit_or_disjoint : (k a b : ℕ) → b < 2 ^ k → bit_or (a * 2 ^ k) b ≡ a * 2 ^ k + b
bit_or_disjoint zero a b h = ground (arith, bit_or-zero_below a a)
bit_or_disjoint (suc k) a b h = ground (
  arith,
  bit_or_low (a * 2 ^ suc k) b,
  double_shift a k,
  pow-suc 2 k,
  bit_or_disjoint k a (b / 2),
)

bit_or_comm_below : (n a b : ℕ) → a ≤ n → b ≤ n → bit_or a b ≡ bit_or b a
bit_or_comm_below zero zero zero h l = refl
bit_or_comm_below (suc n) zero zero h l = refl
bit_or_comm_below zero (suc a) b h l = absurd (omega arith)
bit_or_comm_below zero zero (suc b) h l = absurd (omega arith)
bit_or_comm_below (suc n) a b h l = omega (
  arith,
  bit_or_low a b,
  bit_or_low b a,
  bit_or_comm_below n (a / 2) (b / 2) (omega arith) (omega arith),
)

pub bit_or_comm : (a b : ℕ) → bit_or a b ≡ bit_or b a
bit_or_comm a b = bit_or_comm_below (a + b) a b (omega arith) (omega arith)

-- The low field first, as an accumulator that grows upwards.
pub bit_or_above : (k a b : ℕ) → b < 2 ^ k → bit_or b (a * 2 ^ k) ≡ b + a * 2 ^ k
bit_or_above k a b h = omega (arith, bit_or_comm b (a * 2 ^ k), bit_or_disjoint k a b h)

mask_of_sum : (k a b : ℕ) → b < 2 ^ k → bit_and (a * 2 ^ k + b) (2 ^ k - 1) ≡ b
mask_of_sum zero a b h = ground (arith, bit_and-zero_below (a + b) (a + b))
mask_of_sum (suc k) a b h = ground (
  arith,
  bit_and_low (a * 2 ^ suc k + b) (2 ^ suc k - 1),
  double_shift a k,
  pow-suc 2 k,
  mask_of_sum k a (b / 2),
)

-- The k low bits.
pub bit_and_mask : (k a : ℕ) → bit_and a (2 ^ k - 1) ≡ a % 2 ^ k
bit_and_mask k a = ground (arith, one-le-pow k 2, mask_of_sum k (a / 2 ^ k) (a % 2 ^ k))
