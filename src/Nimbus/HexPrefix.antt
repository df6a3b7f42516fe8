-- ===== src/Nimbus/HexPrefix.antt =====
-- internal/nimbus/hexprefix.go: the hex-prefix form of a nibble path, and its strict decoder.
use state_actor.Prelude.{
  ℕ, ◌+◌, ◌/◌, ◌%◌, Bool, Option, none, some, List, [], ◌∷◌, ◌++◌, length, ◌==◌, if◌then◌else◌,
  bit_and, bit_or, not,
}
use state_actor.Bytes.{low}
use state_actor.Ethrex.Nibbles.{append_nibbles, pack_pairs, odd_head, odd_rest}

unfoldable pub append_hex_prefix : List ℕ → List ℕ → Bool → List ℕ
unfolding pack_pairs
append_hex_prefix dst nibbles leaf =
    let odd = length nibbles % 2 == 1 in
    let flag = if odd then bit_or 0x10 (odd_head nibbles) else 0 in
    let flag' = if leaf then bit_or flag 0x20 else flag in
    pack_pairs (dst ++ (flag' ∷ [])) (if odd then odd_rest nibbles else nibbles)

unfoldable pub hex_prefix_len : ℕ → ℕ
hex_prefix_len nibble_count = 1 + nibble_count / 2

-- `none` is `errHexPrefix`. The last loop of the source is that of `append_nibbles`.
unfoldable pub decode_hex_prefix : List ℕ → Option (List ℕ × Bool)
unfolding append_nibbles low
decode_hex_prefix [] = none
decode_hex_prefix (flag ∷ rest) =
    if not (bit_and flag 0xc0 == 0)
    then none
    else (let leaf = not (bit_and flag 0x20 == 0) in
        let odd = not (bit_and flag 0x10 == 0) in
        if odd
        then some (append_nibbles (low flag ∷ []) rest, leaf)
        else if not (low flag == 0)
        then none
        else some (append_nibbles [] rest, leaf))
