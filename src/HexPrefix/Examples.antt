-- ===== src/HexPrefix/Examples.antt =====
-- Runs of the path codecs, and their theorems at concrete paths.
use state_actor.Prelude.{◌≡◌, ◌↔◌, refl, arith, true, false, [], ◌∷◌, none, some}
use state_actor.Bytes.{Nibbles}
use state_actor.Ethrex.Nibbles.{compact_encode}
use state_actor.Besu.Compact
use state_actor.Nimbus.HexPrefix.{append_hex_prefix, decode_hex_prefix}
use state_actor.HexPrefix.RoundTrip.{decode_hex_prefix_iff}
use state_actor.HexPrefix.Agreement.{encoders_agree, decoders_agree}

odd_leaf_run : append_hex_prefix [] (0x1 ∷ 0x5 ∷ 0xa ∷ []) true ≡ 0x31 ∷ 0x5a ∷ []
unfolding append_hex_prefix
odd_leaf_run = refl

even_extension_run : Compact.compact_encode (0x5 ∷ 0xa ∷ []) false ≡ some (0x00 ∷ 0x5a ∷ [])
unfolding Compact.compact_encode
even_extension_run = refl

-- The strict decoder refuses the padding nibble that Besu's ignores.
padding_run : decode_hex_prefix (0x05 ∷ []) ≡ none
unfolding decode_hex_prefix
padding_run = refl

padding_ignored_run : Compact.compact_decode (0x05 ∷ []) ≡ some ([], false)
unfolding Compact.compact_decode
padding_ignored_run = refl

odd_leaf_decoded : decode_hex_prefix (0x31 ∷ 0x5a ∷ []) ≡ some (0x1 ∷ 0x5 ∷ 0xa ∷ [], true)
unfolding decode_hex_prefix
odd_leaf_decoded = refl

decode_hex_prefix_iff_example :
    (decode_hex_prefix (0x31 ∷ 0x5a ∷ []) ≡ some (0x1 ∷ 0x5 ∷ 0xa ∷ [], true)) ↔ (
      Nibbles (0x1 ∷ 0x5 ∷ 0xa ∷ [])
      × (append_hex_prefix [] (0x1 ∷ 0x5 ∷ 0xa ∷ []) true ≡ 0x31 ∷ 0x5a ∷ []))
decode_hex_prefix_iff_example =
    decode_hex_prefix_iff (0x31 ∷ 0x5a ∷ []) (0x1 ∷ 0x5 ∷ 0xa ∷ []) true (omega arith)

encoders_agree_example :
    (Compact.compact_encode (0x1 ∷ 0x5 ∷ 0xa ∷ []) true
      ≡ some (compact_encode (0x1 ∷ 0x5 ∷ 0xa ∷ []) true))
    × (compact_encode (0x1 ∷ 0x5 ∷ 0xa ∷ []) true
        ≡ append_hex_prefix [] (0x1 ∷ 0x5 ∷ 0xa ∷ []) true)
encoders_agree_example = encoders_agree (0x1 ∷ 0x5 ∷ 0xa ∷ []) true (omega arith)

decoders_agree_example :
    Compact.compact_decode (0x31 ∷ 0x5a ∷ []) ≡ some (0x1 ∷ 0x5 ∷ 0xa ∷ [], true)
decoders_agree_example =
    decoders_agree (0x31 ∷ 0x5a ∷ []) (0x1 ∷ 0x5 ∷ 0xa ∷ []) true (omega arith) odd_leaf_decoded
