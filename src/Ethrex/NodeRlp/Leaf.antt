-- ===== src/Ethrex/NodeRlp/Leaf.antt =====
-- A leaf that is encoded reads back as its path and its value.
use state_actor.Prelude.{
  ℕ, ◌+◌, ◌/◌, ◌^◌, ◌≤◌, ◌<◌, ◌≡◌, sym, ap, ◌∙◌, arith, true, some, List, [], ◌++◌, append-nil,
  length, length-append,
}
use state_actor.Bytes.{Nibbles}
use state_actor.Nimbus.HexPrefix.{hex_prefix_len, decode_hex_prefix}
use state_actor.HexPrefix.RoundTrip.{decode_hex_prefix-append_hex_prefix, length-append_hex_prefix}
use state_actor.HexPrefix.Agreement.{encoders_agree}
use state_actor.Ethrex.Nibbles.{compact_encode}
use state_actor.Ethrex.NodeRlp.{rlp_encode_bytes, rlp_encode_list_raw, encode_leaf}
use state_actor.Ethrex.NodeRlp.Reader.{text, sequence, read_item}
use state_actor.Ethrex.NodeRlp.RoundTrip.{
  append_rlp_bytes-rlp_encode_bytes, read_item-rlp_encode_bytes, read_item-rlp_encode_list_raw,
  length-rlp_encode_bytes,
}

encode_leaf-eq :
    (path value : List ℕ)
    → encode_leaf path value
      ≡ rlp_encode_list_raw (rlp_encode_bytes (compact_encode path true) ++ rlp_encode_bytes value)
unfolding encode_leaf compact_encode
encode_leaf-eq path value = ap rlp_encode_list_raw (
    append_rlp_bytes-rlp_encode_bytes _ value
    ∙ ap (λ p. p ++ rlp_encode_bytes value) (append_rlp_bytes-rlp_encode_bytes [] _))

length-compact_encode :
    (path : List ℕ) → Nibbles path → length (compact_encode path true) ≡ 1 + length path / 2
unfolding hex_prefix_len
length-compact_encode path v =
    ap length ((encoders_agree path true v).1) ∙ length-append_hex_prefix [] path true ∙ omega arith

-- For a path of at most 64 nibbles and a value below 2 ^ 63 bytes, an encoded leaf reads as an RLP
-- list of two strings and nothing more, all three in the shortest form, which is the only one the
-- reader takes: the first string decodes, as a hex-prefix path, to the leaf's path with the flag of a
-- leaf, and the second is the value.
pub read_item-encode_leaf :
    (path value : List ℕ)
    → Nibbles path
    → length path ≤ 64
    → length value < 2 ^ 63
    → (payload : List ℕ) × (compact : List ℕ) × (rest : List ℕ) × (read_item
          (encode_leaf path value)
        ≡ some (sequence payload, []))
      × (read_item payload ≡ some (text compact, rest))
      × (decode_hex_prefix compact ≡ some (path, true))
      × (read_item rest ≡ some (text value, []))
read_item-encode_leaf path value n l m =
    let compact = compact_encode path true in
    let rest = rlp_encode_bytes value in
    let size = length-compact_encode path n in
    (
      rlp_encode_bytes compact ++ rest,
      compact,
      rest,
      ap read_item (encode_leaf-eq path value ∙ sym (append-nil _))
          ∙ read_item-rlp_encode_list_raw (rlp_encode_bytes compact ++ rest) [] (
              omega (
                arith,
                size,
                length-append (rlp_encode_bytes compact) rest,
                length-rlp_encode_bytes compact,
                length-rlp_encode_bytes value,
              )),
      read_item-rlp_encode_bytes compact rest (omega (arith, size)),
      ap decode_hex_prefix ((encoders_agree path true n).1)
          ∙ decode_hex_prefix-append_hex_prefix path true n,
      ap read_item (sym (append-nil rest)) ∙ read_item-rlp_encode_bytes value [] (omega arith),
    )
