-- ===== src/Besu/Commit/Examples.antt =====
-- Runs of Commit over a sink that lists its rows, with RLP and a stand-in for keccak.
use mathlib.Core.List.{Memᴰ}
use state_actor.Besu.Trie
use state_actor.Prelude.{
  ℕ, zero, suc, ◌≡◌, ◌↔◌, refl, arith, Bool, true, false, some, List, [], ◌∷◌,
}
use state_actor.Besu.Trie.{Node, null, new, add_accounts}
use state_actor.Besu.Trie.Keys.{IsHash}
use state_actor.Besu.Trie.Accounts.{Account}
use state_actor.Besu.Streaming.{Coding, NodeSink, account_trie_emitter, storage_trie_emitter}
use state_actor.Besu.Commit.{written, and_written, commit}
use state_actor.Besu.Commit.Encodings.{IsRlp, concat, all_encoded}
use state_actor.Besu.Commit.Rows.{NodeRow, put_all}
use state_actor.Besu.Commit.Apart.{Apart}
use state_actor.Besu.Commit.Stored.{IsNodeRow}
use state_actor.Besu.Commit.Results.{IsReliable, commit-root, commit-committed_rows}
use state_actor.Besu.Commit.Storage.{
  StorageBuilder, begin_storage, commit_storage, add_slots, commit_storage-root,
}
use state_actor.Ethrex.Nibbles.{bytes_to_nibbles}
use state_actor.Ethrex.NodeRlp.{rlp_encode_bytes, rlp_encode_list_raw}
use state_actor.Ethrex.Builder.{Builder, Row, added, compare_le, new_builder, rlp_encoder}
use state_actor.Ethrex.Builder.Finish.{root}
use state_actor.Ethrex.Builder.Accounts.{add_leaves, Ascend}
use state_actor.Ethrex.Builder.Bytes.{encode}

abbrev repeated : ℕ → ℕ → List ℕ
repeated zero b = []
repeated (suc n) b = b ∷ repeated n b

abbrev stamp : List ℕ → List ℕ
stamp [] = repeated 32 0
stamp (x ∷ b) = repeated 32 x

abbrev rlp_coding : Coding
rlp_coding = record {
  keccak = stamp;
  encode_string = rlp_encode_bytes;
  encode_strings = λ items. rlp_encode_list_raw (concat (all_encoded items));
  encode_raw = λ items. rlp_encode_list_raw (concat items);
}

rlp_coding-IsRlp : IsRlp rlp_coding
rlp_coding-IsRlp = record {
  of_string = λ b. refl;
  of_strings = λ items. refl;
  of_raw = λ items. refl;
}

abbrev listing : NodeSink (List NodeRow)
listing = record {
  put_account_state_trie_node = λ s location hash rlp. (true, (location, hash, rlp) ∷ s);
  put_account_storage_trie_node =
      λ s addr_hash location hash rlp. (true, (location, hash, rlp) ∷ s);
}

listing-IsReliable : IsReliable rlp_coding listing
listing-IsReliable account_trie_emitter s location hash bytes = refl
listing-IsReliable (storage_trie_emitter addr_hash) s location hash bytes = refl

abbrev first : List ℕ
first = 0x11 ∷ 0x22 ∷ repeated 30 0xab

abbrev second : List ℕ
second = 0x11 ∷ 0x23 ∷ repeated 30 0xcd

abbrev third : List ℕ
third = repeated 32 0xff

abbrev later : List Account
later = (second, 2 ∷ []) ∷ (third, 3 ∷ []) ∷ []

first-IsHash : IsHash first
first-IsHash = omega arith

later-Ascend : Ascend first later
unfolding compare_le bytes_to_nibbles
later-Ascend = (omega arith, refl, (omega arith, refl, tt))

commit-root_example :
    (eb : Builder (List ℕ)) × (rows : List (Row (List ℕ))) × (bb : Trie.Builder) × (s' : List
      NodeRow)
    × (root_hash : List ℕ) × (root_rlp : List ℕ) × (add_leaves
          (rlp_encoder stamp)
          (new_builder (rlp_encoder stamp))
          ((first, 1 ∷ []) ∷ later)
        ≡ added eb)
    × (root stamp eb ≡ some (root_hash, rows))
    × (add_accounts new ((first, 1 ∷ []) ∷ later) ≡ some bb)
    × (commit rlp_coding listing bb [] ≡ written (root_hash, root_rlp) s')
commit-root_example =
    commit-root rlp_coding rlp_coding-IsRlp listing first (1 ∷ []) later [] first-IsHash
      later-Ascend listing-IsReliable

commit_storage-root_example :
    (eb : Builder (List ℕ)) × (rows : List (Row (List ℕ))) × (sb : StorageBuilder) × (s' : List
      NodeRow)
    × (root_hash : List ℕ) × (add_leaves
          (rlp_encoder stamp)
          (new_builder (rlp_encoder stamp))
          ((first, 1 ∷ []) ∷ later)
        ≡ added eb)
    × (root stamp eb ≡ some (root_hash, rows))
    × (add_slots (begin_storage third) ((first, 1 ∷ []) ∷ later) ≡ some sb)
    × (commit_storage rlp_coding listing sb [] ≡ written root_hash s')
commit_storage-root_example =
    commit_storage-root rlp_coding rlp_coding-IsRlp listing third first (1 ∷ []) later []
      first-IsHash later-Ascend listing-IsReliable

-- A sink that takes two rows.
abbrev put_if_room : List NodeRow → NodeRow → Bool × List NodeRow
put_if_room [] row = (true, row ∷ [])
put_if_room (x ∷ []) row = (true, row ∷ x ∷ [])
put_if_room (x ∷ y ∷ s) row = (false, x ∷ y ∷ s)

abbrev small : NodeSink (List NodeRow)
small = record {
  put_account_state_trie_node = λ s location hash rlp. put_if_room s (location, hash, rlp);
  put_account_storage_trie_node =
      λ s addr_hash location hash rlp. put_if_room s (location, hash, rlp);
}

commit-committed_rows_example :
    (b : Trie.Builder) × (rows : List NodeRow) × (add_accounts new
        ((third, 3 ∷ []) ∷ (first, 1 ∷ []) ∷ [])
      ≡ some b)
    × (commit rlp_coding small b []
        ≡ and_written
            (put_all rlp_coding small account_trie_emitter rows [])
            (λ _ s'. written (stamp (encode stamp b.root), encode stamp b.root) s'))
    × ((row : NodeRow) → Memᴰ row rows ↔ IsNodeRow rlp_coding b.root row)
    × Apart rows
commit-committed_rows_example =
    commit-committed_rows rlp_coding rlp_coding-IsRlp small third (3 ∷ []) ((first, 1 ∷ []) ∷ []) []
      (omega arith)
