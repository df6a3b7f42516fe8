-- ===== src/Reth/BranchNode/Examples.antt =====
-- A branch node with a root hash, written and read.
use state_actor.Prelude.{ℕ, ◌≡◌, refl, arith, some, List, [], ◌∷◌, ◌++◌, length}
use state_actor.Nimbus.Sbe.Trim.{zeros}
use state_actor.Reth.BranchNode.{BranchNodeCompact, popcount16, encode_compact, decode_compact}
use state_actor.Reth.BranchNode.RoundTrip.{decode_compact-encode_compact}

popcount_run : popcount16 0xf0f1 ≡ 9
unfolding popcount16
popcount_run = refl

abbrev node : BranchNodeCompact
node = record {
  state_mask = 0b1011;
  tree_mask = 0b1000;
  hash_mask = 0b0010;
  hashes = zeros 31 (5 ∷ []) ∷ [];
  root_hash = some (zeros 31 (6 ∷ []));
}

decode_compact-encode_compact_example :
    (b : List ℕ) × (encode_compact [] node ≡ some (b, length b))
    × (decode_compact (b ++ (1 ∷ [])) (length b) ≡ some (node, length b))
unfolding popcount16
decode_compact-encode_compact_example = decode_compact-encode_compact node (1 ∷ []) (record {
  state_small = omega arith;
  tree_small = omega arith;
  hash_small = omega arith;
  count = refl;
  tree_subset = refl;
  hash_subset = refl;
  hashes_sized = (refl, tt);
  root_sized = refl;
})
