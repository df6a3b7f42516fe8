-- ===== src/Reth/Compact/RoundTrip.antt =====
-- What is written with its length recorded is read back, and takes the fewest bytes.
use state_actor.Prelude.{
  ℕ, zero, suc, ◌-◌, ◌≤◌, ◌≡◌, refl, sym, ap, ◌∙◌, arith, some, List, [], ◌∷◌, ◌++◌, length,
  length-append, take-append, ltb, ◌==◌, Bool-cases, false, inl, inr, bit_or, ==_iff,
}
use state_actor.Nimbus.Sbe.{IsU64, trim_zeros, be_loop}
use state_actor.Nimbus.Sbe.Trim.{length-trim_zeros, zeros-trim_zeros}
use state_actor.Nimbus.Sbe.RoundTrip.{be_bytes, be_value-be_bytes}
use state_actor.Reth.Compact.{
  u64_bytes, encode_u64_compact, decode_u64_compact, encode_u256_compact, decode_u256_compact,
}

u64_bytes-eq : (v : ℕ) → u64_bytes v ≡ be_bytes 8 v
unfolding be_bytes
u64_bytes-eq v = ground arith

-- Leading zeros do not count.
be_loop-trim_zeros : (k : ℕ) (b : List ℕ) → be_loop 0 (trim_zeros k b) ≡ be_loop 0 b
unfolding be_loop trim_zeros
be_loop-trim_zeros zero b = refl
be_loop-trim_zeros (suc k) [] = refl
be_loop-trim_zeros (suc k) (x ∷ b) = elim (Bool-cases (x == 0)) [
  | inl e ↦
      rw e (be_loop-trim_zeros k b ∙ ap (λ t. be_loop (bit_or 0 t) b) (sym ((==_iff x 0).0 e)))
  | inr e ↦ rw e refl
]

fits : (b rest : List ℕ) → ltb (length (b ++ rest)) (length b) ≡ false
fits b rest = ground (arith, length-append b rest)

not_above : (m n : ℕ) → n ≤ m → ltb m n ≡ false
not_above m n l = ground arith

nothing_read : (rest : List ℕ) → decode_u64_compact rest 0 ≡ some 0
unfolding decode_u64_compact be_loop
nothing_read rest = rw (not_above (length rest) 0 (omega arith)) refl

raw_size : (v : ℕ) → length (trim_zeros 8 (u64_bytes v)) ≤ 8
raw_size v = length-trim_zeros 8 (u64_bytes v)

raw_read :
    (v : ℕ) (rest : List ℕ)
    → IsU64 v
    → decode_u64_compact (trim_zeros 8 (u64_bytes v) ++ rest) (length (trim_zeros 8 (u64_bytes v)))
      ≡ some v
unfolding decode_u64_compact
raw_read v rest h =
    let raw = trim_zeros 8 (u64_bytes v) in
    rw (not_above 8 (length raw) (raw_size v), fits raw rest, take-append raw rest)
      (ap some (
        be_loop-trim_zeros 8 (u64_bytes v)
        ∙ ap (be_loop 0) (u64_bytes-eq v)
        ∙ be_value-be_bytes 8 v h (omega arith) (omega arith)))

-- For a uint64, `decodeU64Compact` reads what `encodeU64Compact` writes, whatever follows, when it
-- is given the byte count that the encoder returns, which is at most eight.
decode_u64_compact-encode_u64_compact :
    (v : ℕ) (rest : List ℕ)
    → IsU64 v
    → let (b, n) = encode_u64_compact [] v in
      (decode_u64_compact (b ++ rest) n ≡ some v) × (length b ≡ n) × (n ≤ 8)
unfolding encode_u64_compact decode_u64_compact
decode_u64_compact-encode_u64_compact v rest h = elim (Bool-cases (v == 0)) [
  | inl e ↦ rw e (nothing_read rest ∙ ap some (sym ((==_iff v 0).0 e)), refl, omega arith)
  | inr e ↦ rw e (raw_read v rest h, refl, raw_size v)
]

-- For any 256-bit integer that takes 32 bytes, and that those bytes spell: `decodeU256Compact` reads
-- what `encodeU256Compact` writes, whatever follows, when it is given the byte count that the
-- encoder returns, which is at most 32.
pub decode_u256_compact-encode_u256_compact :
    {U : Type 0} (write_to_slice : U → List ℕ) (set_bytes : List ℕ → U)
    → ((v : U) → length (write_to_slice v) ≡ 32)
    → ((v : U) → set_bytes (write_to_slice v) ≡ v)
    → (v : U) (rest : List ℕ)
    → let (b, n) = encode_u256_compact write_to_slice set_bytes [] v in
      (decode_u256_compact write_to_slice set_bytes (b ++ rest) n ≡ some v)
      × (length b ≡ n)
      × (n ≤ 32)
unfolding encode_u256_compact decode_u256_compact
decode_u256_compact-encode_u256_compact write_to_slice set_bytes size spells v rest =
    let raw = write_to_slice v in
    let b = trim_zeros 32 raw in
    let small : length b ≤ 32 = omega (arith, size v, length-trim_zeros 32 raw) in
    let whole : 32 - length b ≡ length raw - length b = omega (arith, size v) in
    (
      rw
          (
            not_above 32 (length b) small,
            fits b rest,
            take-append b rest,
            whole,
            zeros-trim_zeros 32 raw,
            spells v,
          )
          refl,
      refl,
      small,
    )
