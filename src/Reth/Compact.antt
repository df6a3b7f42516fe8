-- ===== src/Reth/Compact.antt =====
-- internal/reth/codec.go: integers and byte strings whose length stands elsewhere. A buffer and the
-- count of the bytes written come back as a pair; `none` is a panic. The 256-bit integers are those
-- of the uint256 package, a parameter.
pub mod RoundTrip
use state_actor.Prelude.{
  ℕ, zero, suc, ◌+◌, ◌-◌, ◌/◌, ◌%◌, ◌^◌, Option, none, some, List, [], ◌∷◌, ◌++◌, length, take, ltb,
  ◌==◌, if◌then◌else◌,
}
use state_actor.Nimbus.Sbe.Trim.{zeros}
use state_actor.Nimbus.Sbe.{trim_zeros, be_loop}

-- `raw`, and then `for i < 8 && raw[i] == 0`.
abbrev pub u64_bytes : ℕ → List ℕ
u64_bytes v =
    (v / 2 ^ 56 % 256)
    ∷ (v / 2 ^ 48 % 256)
    ∷ (v / 2 ^ 40 % 256)
    ∷ (v / 2 ^ 32 % 256)
    ∷ (v / 2 ^ 24 % 256)
    ∷ (v / 2 ^ 16 % 256)
    ∷ (v / 2 ^ 8 % 256)
    ∷ (v % 256)
    ∷ []

unfoldable pub encode_u64_compact : List ℕ → ℕ → List ℕ × ℕ
unfolding trim_zeros
encode_u64_compact buf v =
    if v == 0 then (buf, 0) else (let raw = trim_zeros 8 (u64_bytes v) in (buf ++ raw, length raw))

-- The loop over `b[i]` shifts and adds as that of `DecodeSBE` does.
unfoldable pub decode_u64_compact : List ℕ → ℕ → Option ℕ
unfolding be_loop
decode_u64_compact b n =
    if ltb 8 n then none else if ltb (length b) n then none else some (be_loop 0 (take n b))

-- `uint256.Int`, `WriteToSlice` on 32 bytes, and `SetBytes`.
module _ {U : Type 0} (write_to_slice : U → List ℕ) (set_bytes : List ℕ → U) where
  unfoldable pub encode_u256_compact : List ℕ → U → List ℕ × ℕ
  unfolding trim_zeros
  encode_u256_compact buf v = let raw = trim_zeros 32 (write_to_slice v) in (buf ++ raw, length raw)

  unfoldable pub decode_u256_compact : List ℕ → ℕ → Option U
  decode_u256_compact b n =
      if ltb 32 n
      then none
      else if ltb (length b) n
      then none
      else some (set_bytes (zeros (32 - n) (take n b)))

unfoldable pub encode_bytes_compact : List ℕ → List ℕ → List ℕ × ℕ
encode_bytes_compact buf b = (buf ++ b, length b)

unfoldable pub decode_bytes_compact : List ℕ → ℕ → Option (List ℕ)
decode_bytes_compact b n = if ltb (length b) n then none else some (take n b)
