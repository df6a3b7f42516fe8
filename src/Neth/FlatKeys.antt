-- ===== src/Neth/FlatKeys.antt =====
-- internal/neth/flat: the columns and the row keys of the flat layout, and the value of the
-- CurrentState marker.
pub mod Nodes
pub mod Distinct
mod Examples
use state_actor.Prelude.{
  ℕ, ◌+◌, ◌%◌, List, [], ◌∷◌, ◌++◌, take, drop, leb, if◌then◌else◌, bit_and, bit_or,
}
use state_actor.Nimbus.Sbe.RoundTrip.{be_bytes}

pub data Column : Type 0 where
  default metadata account storage state_nodes state_top_nodes storage_nodes fallback_nodes : Column

abbrev pub account_key_len : ℕ
account_key_len = 20

abbrev pub storage_prefix_portion : ℕ
storage_prefix_portion = 4

abbrev pub storage_postfix_portion : ℕ
storage_postfix_portion = 16

abbrev pub state_top_threshold : ℕ
state_top_threshold = 5

abbrev pub shortened_threshold : ℕ
shortened_threshold = 15

abbrev pub addr_hash_prefix_len : ℕ
addr_hash_prefix_len = 20

abbrev pub state_top_key_len : ℕ
state_top_key_len = 3

abbrev pub shortened_key_len : ℕ
shortened_key_len = 8

-- Hashes and paths are arrays of 32 bytes.
unfoldable pub account_key : List ℕ → List ℕ
account_key addr_hash = take account_key_len addr_hash

-- The first four bytes of the address hash, and the sixteen that follow them.
abbrev pub prefix_of : List ℕ → List ℕ
prefix_of addr_hash = take storage_prefix_portion addr_hash

abbrev pub postfix_of : List ℕ → List ℕ
postfix_of addr_hash = take storage_postfix_portion (drop storage_prefix_portion addr_hash)

unfoldable pub storage_key : List ℕ → List ℕ → List ℕ
storage_key addr_hash slot_key_hash = prefix_of addr_hash ++ (slot_key_hash ++ postfix_of addr_hash)

-- `out[n-1] = (out[n-1] & 0xf0) | byte(pathLen & 0x0f)` on the last byte.
unfoldable pub set_last : ℕ → List ℕ → List ℕ
set_last path_len [] = []
set_last path_len (x ∷ []) = bit_or (bit_and x 0xf0) (bit_and path_len 0x0f) ∷ []
set_last path_len (x ∷ y ∷ out) = x ∷ set_last path_len (y ∷ out)

unfoldable pub encode_with_8_byte : List ℕ → ℕ → List ℕ
unfolding set_last
encode_with_8_byte path path_len = set_last path_len (take shortened_key_len path)

unfoldable pub state_node_key : List ℕ → ℕ → Column × List ℕ
unfolding set_last encode_with_8_byte
state_node_key path path_len =
    if leb path_len state_top_threshold
    then (state_top_nodes, set_last path_len (take state_top_key_len path))
    else if leb path_len shortened_threshold
    then (state_nodes, encode_with_8_byte path path_len)
    else (fallback_nodes, 0x00 ∷ (take 32 path ++ ((path_len % 256) ∷ [])))

unfoldable pub storage_node_key : List ℕ → List ℕ → ℕ → Column × List ℕ
unfolding encode_with_8_byte
storage_node_key addr_hash path path_len =
    if leb path_len shortened_threshold
    then (
      storage_nodes,
      prefix_of addr_hash ++ (encode_with_8_byte path path_len ++ postfix_of addr_hash),
    )
    else (
      fallback_nodes,
      0x01 ∷ (prefix_of addr_hash ++ (take 32 path ++ ((path_len % 256) ∷ postfix_of addr_hash))),
    )

-- The block number is an int64 of two's complement, and the root has 32 bytes.
unfoldable pub current_state_value : ℕ → List ℕ → List ℕ
unfolding be_bytes
current_state_value block_number root = be_bytes 8 block_number ++ root
