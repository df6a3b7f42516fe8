-- ===== src/Reth/Bitflags.antt =====
-- internal/reth/codec.go: the bit flags before a struct, the first field in the lowest bits. A method
-- returns the new state; `none` is a panic.
pub mod Fields
pub mod RoundTrip
use state_actor.Prelude.{
  ℕ, ◌+◌, ◌-◌, ◌*◌, ◌/◌, ◌%◌, ◌^◌, Bool, Option, none, some, List, [], ◌∷◌, ltb, leb, ◌==◌,
  if◌then◌else◌, not, ◌&&◌, bit_and, bit_or,
}
use state_actor.Nimbus.Sbe.{u64_mod}

pub record BitflagBuilder : Type 0 where
  pub bits : ℕ
  pub used_bits : ℕ

abbrev pub new_builder : BitflagBuilder
new_builder = record { bits = 0; used_bits = 0 }

unfoldable pub put : BitflagBuilder → ℕ → ℕ → Option BitflagBuilder
put b value width =
    if ltb 64 width
    then none
    else if ltb width 64 && leb (2 ^ width % u64_mod) value
    then none
    else some (record {
      bits = bit_or b.bits (value * 2 ^ b.used_bits % u64_mod);
      used_bits = b.used_bits + width;
    })

unfoldable pub put_bool : BitflagBuilder → Bool → Option BitflagBuilder
unfolding put
put_bool b v = put b (if v then 1 else 0) 1

unfoldable pub put_u64_length : BitflagBuilder → ℕ → Option BitflagBuilder
unfolding put
put_u64_length b n = put b n 4

unfoldable pub put_u256_length : BitflagBuilder → ℕ → Option BitflagBuilder
unfolding put
put_u256_length b n = put b n 6

unfoldable pub finalize : BitflagBuilder → ℕ → Option (List ℕ)
finalize b total_bits =
    if not (total_bits == b.used_bits)
    then none
    else if total_bits == 0
    then some []
    else if leb total_bits 8
    then some ((b.bits % 256) ∷ [])
    else if leb total_bits 16
    then some ((b.bits % 256) ∷ (b.bits / 2 ^ 8 % 256) ∷ [])
    else none

pub record BitflagReader : Type 0 where
  pub bits : ℕ
  pub consumed : ℕ
  pub limit : ℕ

-- The loop over the header.
unfoldable pub gather : List ℕ → ℕ → ℕ → Option ℕ
gather [] i bits = some bits
gather (c ∷ header) i bits =
    let rest = gather header (i + 1) (bit_or bits (c * 2 ^ (i * 8) % u64_mod)) in
    if leb 8 i then none else rest

abbrev pub reader_at : ℕ → Option ℕ → Option BitflagReader
reader_at total_bits none = none
reader_at total_bits (some bits) = some (record { bits = bits; consumed = 0; limit = total_bits })

unfoldable pub init : List ℕ → ℕ → Option BitflagReader
unfolding gather
init header total_bits = reader_at total_bits (gather header 0 0)

-- `(uint64(1) << width) - 1` wraps where the shift leaves nothing.
abbrev pub mask : ℕ → ℕ
mask width = (2 ^ width % u64_mod + (u64_mod - 1)) % u64_mod

unfoldable pub get : BitflagReader → ℕ → Option (ℕ × BitflagReader)
get r width =
    if ltb r.limit (r.consumed + width)
    then none
    else some (
      bit_and (r.bits / 2 ^ r.consumed) (mask width),
      record { bits = r.bits; consumed = r.consumed + width; limit = r.limit },
    )

abbrev pub as_bool : Option (ℕ × BitflagReader) → Option (Bool × BitflagReader)
as_bool none = none
as_bool (some (v, r)) = some (not (v == 0), r)

unfoldable pub get_bool : BitflagReader → Option (Bool × BitflagReader)
unfolding get
get_bool r = as_bool (get r 1)

unfoldable pub get_u64_length : BitflagReader → Option (ℕ × BitflagReader)
unfolding get
get_u64_length r = get r 4

unfoldable pub get_u256_length : BitflagReader → Option (ℕ × BitflagReader)
unfolding get
get_u256_length r = get r 6
