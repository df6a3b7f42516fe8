-- ===== src/Reth/VarUint.antt =====
-- internal/reth/codec.go: the LEB128 integers that reth writes as lengths.
pub mod RoundTrip
use mathlib.Core.Logic.{dite}
use mathlib.Core.WellFounded.{Acc}
use native.Mathlib.Decide.{dec_lt}
use state_actor.Prelude.{
  ℕ, ◌+◌, ◌*◌, ◌/◌, ◌%◌, ◌^◌, ◌<◌, arith, Option, none, some, List, [], ◌∷◌, ◌++◌, leb, ◌==◌,
  if◌then◌else◌, bit_and, bit_or,
}
use state_actor.Prelude.Order.{lt_wf}
use state_actor.Nimbus.Sbe.{u64_mod}

pub shift_falls : (v : ℕ) → 127 < v → v / 128 < v
shift_falls v h = omega arith

-- `for v >= 0x80 { … v >>= 7 }`
pub encode_var_uint_loop : List ℕ → (v : ℕ) → Acc ◌<◌ v → List ℕ
encode_var_uint_loop buf v (Acc.intro _ below) =
    dite (dec_lt 127 v)
      (λ h.
        encode_var_uint_loop (buf ++ (bit_or (v % 256) 0x80 ∷ [])) (v / 128)
          (below _ (shift_falls v h)))
      (λ _. buf ++ ((v % 256) ∷ []))

unfoldable pub encode_var_uint : List ℕ → ℕ → List ℕ
unfolding encode_var_uint_loop lt_wf dec_lt
encode_var_uint buf v = encode_var_uint_loop buf v (lt_wf.apply v)

-- The loop over the bytes; `none` is a panic, past ten bytes or at the end of the slice.
unfoldable pub decode_var_uint_loop : List ℕ → ℕ → ℕ → ℕ → Option (ℕ × ℕ)
decode_var_uint_loop [] i v shift = none
decode_var_uint_loop (c ∷ b) i v shift =
    let v' = bit_or v (bit_and c 0x7f * 2 ^ shift % u64_mod) in
    let rest = decode_var_uint_loop b (i + 1) v' (shift + 7) in
    if leb 10 i then none else if bit_and c 0x80 == 0 then some (v', i + 1) else rest

unfoldable pub decode_var_uint : List ℕ → Option (ℕ × ℕ)
unfolding decode_var_uint_loop
decode_var_uint b = decode_var_uint_loop b 0 0 0
