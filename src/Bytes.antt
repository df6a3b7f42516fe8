-- ===== src/Bytes.antt =====
-- Bytes and nibbles: the ranges of the values, and the two shifts that the path codecs share, and the equality of byte arrays.
pub mod Slices
use state_actor.Prelude.{
  ℕ, ◌+◌, ◌*◌, ◌/◌, ◌%◌, ◌<◌, ◌≡◌, refl, arith, Bool, true, false, List, [], ◌∷◌, All, bit_and,
  bit_or, ◌==◌, ==_refl, ==_iff, Bool-cases, inl, inr, if◌then◌else◌,
}
use state_actor.Prelude.Bits.{bit_or_disjoint, bit_and_mask}

abbrev pub IsByte : ℕ → Type 0
IsByte b = b < 256

abbrev pub IsNibble : ℕ → Type 0
IsNibble n = n < 16

abbrev pub Bytes : List ℕ → Type 0
Bytes = All IsByte

abbrev pub Nibbles : List ℕ → Type 0
Nibbles = All IsNibble

-- `b>>4` and `b&0x0f`
unfoldable pub high : ℕ → ℕ
high b = b / 16

unfoldable pub low : ℕ → ℕ
low b = bit_and b 0x0f

-- `(a<<4)|b` on bytes
unfoldable pub join : ℕ → ℕ → ℕ
join a b = bit_or (a * 16 % 256) b

pub low-eq-mod : (b : ℕ) → low b ≡ b % 16
unfolding low
low-eq-mod b = bit_and_mask 4 b

pub join-eq-sum : (a b : ℕ) → a < 16 → b < 16 → join a b ≡ a * 16 + b
unfolding join
join-eq-sum a b h l = ground (arith, bit_or_disjoint 4 a b)

pub high-join : (a b : ℕ) → a < 16 → b < 16 → high (join a b) ≡ a
unfolding high
high-join a b h l = omega (arith, join-eq-sum a b h l)

pub low-join : (a b : ℕ) → a < 16 → b < 16 → low (join a b) ≡ b
low-join a b h l = omega (arith, join-eq-sum a b h l, low-eq-mod (join a b))

pub join-high-low : (b : ℕ) → b < 256 → join (high b) (low b) ≡ b
unfolding high
join-high-low b h = omega (arith, join-eq-sum (b / 16) (low b), low-eq-mod b)

pub high-lt : (b : ℕ) → b < 256 → high b < 16
unfolding high
high-lt b h = omega arith

pub low-lt : (b : ℕ) → low b < 16
low-lt b = omega (arith, low-eq-mod b)

pub join-lt : (a b : ℕ) → a < 16 → b < 16 → join a b < 256
join-lt a b h l = omega (arith, join-eq-sum a b h l)

-- `a == b` on byte arrays.
unfoldable pub same_bytes : List ℕ → List ℕ → Bool
same_bytes [] [] = true
same_bytes [] (y ∷ b) = false
same_bytes (x ∷ a) [] = false
same_bytes (x ∷ a) (y ∷ b) = let rest = same_bytes a b in if x == y then rest else false

pub same_bytes_refl : (a : List ℕ) → same_bytes a a ≡ true
unfolding same_bytes
same_bytes_refl [] = refl
same_bytes_refl (x ∷ a) = rw (==_refl x) (same_bytes_refl a)

pub same_bytes_eq : (a b : List ℕ) → same_bytes a b ≡ true → a ≡ b
unfolding same_bytes
same_bytes_eq [] [] h = refl
same_bytes_eq [] (y ∷ b) h = cc
same_bytes_eq (x ∷ a) [] h = cc
same_bytes_eq (x ∷ a) (y ∷ b) h = elim (Bool-cases (x == y)) [
  | inl e ↦ rw ((==_iff x y).0 e, same_bytes_eq a b (rw e at h)) refl
  | inr e ↦ cc
]
