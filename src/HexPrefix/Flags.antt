-- ===== src/HexPrefix/Flags.antt =====
-- The flag byte: what the decoder's tests say at each of the values that it takes.
use state_actor.Prelude.{
  ℕ, ◌<◌, ◌≡◌, refl, arith, Bool, true, false, not, ◌&&◌, ◌||◌, ◌==◌, if◌then◌else◌, bit_and,
  bit_or,
}
use state_actor.Prelude.Tables.{holds_below, holds_at}
use state_actor.Bytes.{low}

-- The flag of an even path, and of an odd one that starts with `n`.
abbrev pub even_flag : Bool → ℕ
even_flag leaf = if leaf then bit_or 0 0x20 else 0

abbrev pub odd_flag : Bool → ℕ → ℕ
odd_flag leaf n = if leaf then bit_or (bit_or 0x10 n) 0x20 else bit_or 0x10 n

abbrev pub is_leaf : ℕ → Bool
is_leaf f = not (bit_and f 0x20 == 0)

abbrev reads_odd : ℕ → ℕ → Bool
reads_odd n f = (bit_and f 0xc0 == 0) && (not (bit_and f 0x10 == 0) && (low f == n))

pub record ReadsOdd (leaf : Bool) (n f : ℕ) : Type 0 where
  pub clear : (bit_and f 0xc0 == 0) ≡ true
  pub odd : (bit_and f 0x10 == 0) ≡ false
  pub kind : is_leaf f ≡ leaf
  pub digit : low f ≡ n

leaf_flags : (n : ℕ) → n < 16 → (reads_odd n (odd_flag true n) && is_leaf (odd_flag true n)) ≡ true
unfolding holds_below low
leaf_flags n h =
    holds_at 16 (λ n. reads_odd n (odd_flag true n) && is_leaf (odd_flag true n)) n refl h

extension_flags :
    (n : ℕ) → n < 16 → (reads_odd n (odd_flag false n) && not (is_leaf (odd_flag false n))) ≡ true
unfolding holds_below low
extension_flags n h =
    holds_at 16 (λ n. reads_odd n (odd_flag false n) && not (is_leaf (odd_flag false n))) n refl h

pub odd_flag-ReadsOdd : (leaf : Bool) (n : ℕ) → n < 16 → ReadsOdd leaf n (odd_flag leaf n)
odd_flag-ReadsOdd true n h = ground (arith, leaf_flags n h)
odd_flag-ReadsOdd false n h = ground (arith, extension_flags n h)

-- A flag that passes the tests is the flag of what was read.
abbrev rebuilt : ℕ → Bool
rebuilt f =
    not (bit_and f 0xc0 == 0)
    || (if bit_and f 0x10 == 0
        then not (low f == 0) || (f == even_flag (is_leaf f))
        else (f == odd_flag (is_leaf f) (low f)))

pub flag_rebuilt : (f : ℕ) → f < 256 → rebuilt f ≡ true
unfolding holds_below low
flag_rebuilt f h = holds_at 256 rebuilt f refl h
