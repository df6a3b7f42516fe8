-- ===== src/Besu/Streaming/Nodes.antt =====
-- internal/besu/trie/streaming_storage_builder.go and hash.go: the masks of the spine and the node
-- encodings, with Keccak and geth's RLP package as parameters. `none` is a panic.
use state_actor.Besu.Compact.{compact_encode}
use state_actor.Besu.Trie.{leaf_terminator}
use state_actor.Prelude.{
  ℕ, zero, suc, ◌+◌, ◌/◌, ◌%◌, ◌^◌, Bool, true, false, not, Option, none, some, List, [], ◌∷◌,
  length, ltb, leb, ◌==◌, if◌then◌else◌, bit_and, bit_or,
}

-- `Keccak256Hash`, and `EncodeToBytes` of a byte slice, of a list of byte slices and of a list of raw
-- values, which does not fail on these types.
pub record Coding : Type 0 where
  pub keccak : List ℕ → List ℕ
  pub encode_string : List ℕ → List ℕ
  pub encode_strings : List (List ℕ) → List ℕ
  pub encode_raw : List (List ℕ) → List ℕ

abbrev pub empty_trie_node_hash : List ℕ
empty_trie_node_hash =
    0x56 ∷ 0xe8 ∷ 0x1f ∷ 0x17 ∷ 0x1b ∷ 0xcc ∷ 0x55 ∷ 0xa6 ∷ 0xff ∷ 0x83 ∷ 0x45 ∷ 0xe6 ∷ 0x92 ∷ 0xc0
    ∷ 0xf8 ∷ 0x6e ∷ 0x5b ∷ 0x48 ∷ 0xe0 ∷ 0x1b ∷ 0x99 ∷ 0x6c ∷ 0xad ∷ 0xc0 ∷ 0x01 ∷ 0x62 ∷ 0x2f
    ∷ 0xb5 ∷ 0xe3 ∷ 0x63 ∷ 0xb4 ∷ 0x21 ∷ []

abbrev pub is_referenced_by_hash : List ℕ → Bool
is_referenced_by_hash rlp = leb 32 (length rlp)

-- The loop on a uint16 ends after at most 16 rounds.
unfoldable pub popcount_loop : ℕ → ℕ → ℕ
popcount_loop zero x = 0
popcount_loop (suc n) x = x % 2 + popcount_loop n (x / 2)

unfoldable pub popcount : ℕ → ℕ
unfolding popcount_loop
popcount x = popcount_loop 16 x

-- `uint16(1) << digit`
abbrev pub shifted_one : ℕ → ℕ
shifted_one digit = if ltb digit 16 then 2 ^ digit else 0

-- The masks are padded with zeros up to the index, and the bit is set there.
unfoldable pub set_mask : List ℕ → ℕ → ℕ → List ℕ
set_mask [] zero digit = bit_or 0 (shifted_one digit) ∷ []
set_mask [] (suc i) digit = 0 ∷ set_mask [] i digit
set_mask (x ∷ masks) zero digit = bit_or x (shifted_one digit) ∷ masks
set_mask (x ∷ masks) (suc i) digit = x ∷ set_mask masks i digit

abbrev pub before_mask : ℕ → List ℕ → List ℕ
before_mask x [] = if x == 0 then [] else x ∷ []
before_mask x (y ∷ masks) = x ∷ y ∷ masks

-- The masks without the zeros at their end.
unfoldable pub strip_zeros : List ℕ → List ℕ
strip_zeros [] = []
strip_zeros (x ∷ masks) = before_mask x (strip_zeros masks)

-- The path without the terminator at its end.
unfoldable pub strip_terminator : List ℕ → List ℕ
strip_terminator [] = []
strip_terminator (x ∷ []) = if x == leaf_terminator then [] else x ∷ []
strip_terminator (x ∷ y ∷ path) = x ∷ strip_terminator (y ∷ path)

abbrev pub with_item : List ℕ → Option (List (List ℕ)) → Option (List (List ℕ))
with_item item none = none
with_item item (some items) = some (item ∷ items)

-- The slots from `slot` on, `left` in number, with their children; `none` when these run out.
unfoldable pub branch_items : ℕ → ℕ → ℕ → List (List ℕ) → Option (List (List ℕ))
branch_items zero slot mask children = some ((0x80 ∷ []) ∷ [])
branch_items (suc left) slot mask [] =
    let rest = branch_items left (suc slot) mask [] in
    if bit_and mask (2 ^ slot) == 0 then with_item (0x80 ∷ []) rest else none
branch_items (suc left) slot mask (c ∷ children) =
    let empty = branch_items left (suc slot) mask (c ∷ children) in
    let taken = branch_items left (suc slot) mask children in
    if bit_and mask (2 ^ slot) == 0 then with_item (0x80 ∷ []) empty else with_item c taken

module _ (coding : Coding) where
  open coding use {keccak, encode_string, encode_strings, encode_raw}

  unfoldable pub encode_leaf_rlp : List ℕ → List ℕ → Option (List ℕ)
  unfolding compact_encode strip_terminator
  encode_leaf_rlp path value = elim (compact_encode (strip_terminator path) true) [
    | none ↦ none
    | some hp ↦ some (encode_strings (hp ∷ value ∷ []))
  ]

  unfoldable pub encode_extension_rlp : List ℕ → List ℕ → Option (List ℕ)
  unfolding compact_encode
  encode_extension_rlp path child_ref = elim (compact_encode path false) [
    | none ↦ none
    | some hp ↦ some (encode_raw (encode_string hp ∷ child_ref ∷ []))
  ]

  unfoldable pub encode_branch_rlp : ℕ → List (List ℕ) → Option (List ℕ)
  unfolding branch_items
  encode_branch_rlp state_mask children = elim (branch_items 16 0 state_mask children) [
    | none ↦ none
    | some items ↦ some (encode_raw items)
  ]

  unfoldable pub ref_of_rlp : List ℕ → List ℕ
  ref_of_rlp rlp = if not (is_referenced_by_hash rlp) then rlp else 0xa0 ∷ keccak rlp
