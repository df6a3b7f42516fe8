-- ===== src/Reth/StoredNibbles/Examples.antt =====
-- An entry with an odd number of nibbles, written and read, and a key of 65 bytes.
use state_actor.Prelude.{ℕ, ◌≡◌, refl, arith, none, some, List, [], ◌∷◌, ◌++◌, length}
use state_actor.Nimbus.Sbe.Trim.{zeros}
use state_actor.Reth.BranchNode.{BranchNodeCompact, popcount16, decode_compact}
use state_actor.Reth.BranchNode.RoundTrip.{IsBranchNode}
use state_actor.Reth.StoredNibbles.{
  StoredNibbles, StorageTrieEntry, pack_nibbles, encode_packed_account_key, encode_packed_compact,
}
use state_actor.Reth.StoredNibbles.RoundTrip.{Unpacks, decode_compact-encode_packed_compact}

abbrev path : StoredNibbles
path = record { nibble_count = 3; nibbles = 0xa ∷ 0xb ∷ 0xc ∷ zeros 61 [] }

abbrev entry_node : BranchNodeCompact
entry_node = record {
  state_mask = 0b1011;
  tree_mask = 0b1000;
  hash_mask = 0b0010;
  hashes = zeros 31 (5 ∷ []) ∷ [];
  root_hash = none;
}

abbrev entry : StorageTrieEntry
entry = record { sub_key = path; node = entry_node }

entry_node-IsBranchNode : IsBranchNode entry_node
unfolding popcount16
entry_node-IsBranchNode = record {
  state_small = omega arith;
  tree_small = omega arith;
  hash_small = omega arith;
  count = refl;
  tree_subset = refl;
  hash_subset = refl;
  hashes_sized = (refl, tt);
  root_sized = tt;
}

pack_run : pack_nibbles (0xa ∷ 0xb ∷ 0xc ∷ []) ≡ 0xab ∷ 0xc0 ∷ []
unfolding pack_nibbles
pack_run = refl

decode_compact-encode_packed_compact_example :
    (key : List ℕ) × (b : List ℕ) × (encode_packed_account_key [] path ≡ some key)
    × Unpacks path key
    × (encode_packed_compact [] entry ≡ some (key ++ b, length (key ++ b)))
    × (decode_compact b (length b) ≡ some (entry_node, length b))
decode_compact-encode_packed_compact_example =
    decode_compact-encode_packed_compact entry
      (record { count = omega arith; sized = refl; counted = omega arith }) entry_node-IsBranchNode
