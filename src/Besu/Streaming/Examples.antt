-- ===== src/Besu/Streaming/Examples.antt =====
-- Runs of the streaming builder, with encodings that only concatenate and a sink that lists its rows.
use state_actor.Prelude.{ℕ, ◌≡◌, ◌≢◌, refl, arith, true, List, [], ◌∷◌, ◌++◌, take}
use state_actor.Besu.Trie.Keys.{IsHash}
use state_actor.Streamsort.Keys.{Entry, key_before}
use state_actor.Besu.Streaming.{
  Coding, NodeSink, Emitter, account_trie_emitter, storage_trie_emitter, StreamingBuilder, finished,
  failed, panicked, out_of_fuel, empty_stack, new_streaming_builder, emit, popcount,
}
use state_actor.Besu.Streaming.Stream.{stream}
use state_actor.Besu.Streaming.Roots.{stream_never_breaks, stream_has_root}

abbrev pub joined : List (List ℕ) → List ℕ
joined [] = []
joined (x ∷ xs) = x ++ joined xs

abbrev pub plain : Coding
plain = record {
  keccak = λ b. take 32 b;
  encode_string = λ b. b;
  encode_strings = joined;
  encode_raw = joined;
}

abbrev pub row_sink : NodeSink (List (List ℕ))
row_sink = record {
  put_account_state_trie_node = λ s location hash rlp. (true, location ∷ s);
  put_account_storage_trie_node = λ s addr_hash location hash rlp. (true, location ∷ s);
}

abbrev first_hash : List ℕ
first_hash =
    0x12 ∷ 0x30 ∷ 0 ∷ 0 ∷ 0 ∷ 0 ∷ 0 ∷ 0 ∷ 0 ∷ 0 ∷ 0 ∷ 0 ∷ 0 ∷ 0 ∷ 0 ∷ 0 ∷ 0 ∷ 0 ∷ 0 ∷ 0 ∷ 0 ∷ 0 ∷ 0
    ∷ 0 ∷ 0 ∷ 0 ∷ 0 ∷ 0 ∷ 0 ∷ 0 ∷ 0 ∷ 0 ∷ []

abbrev second_hash : List ℕ
second_hash =
    0x12 ∷ 0x34 ∷ 0 ∷ 0 ∷ 0 ∷ 0 ∷ 0 ∷ 0 ∷ 0 ∷ 0 ∷ 0 ∷ 0 ∷ 0 ∷ 0 ∷ 0 ∷ 0 ∷ 0 ∷ 0 ∷ 0 ∷ 0 ∷ 0 ∷ 0 ∷ 0
    ∷ 0 ∷ 0 ∷ 0 ∷ 0 ∷ 0 ∷ 0 ∷ 0 ∷ 0 ∷ 0 ∷ []

first_hash-IsHash : IsHash first_hash
first_hash-IsHash = omega arith

second_hash-IsHash : IsHash second_hash
second_hash-IsHash = omega arith

abbrev two_leaves : List Entry
two_leaves = (first_hash, 1 ∷ 2 ∷ []) ∷ (second_hash, 3 ∷ []) ∷ []

mask_run : popcount 0x8011 ≡ 3
unfolding popcount
mask_run = refl

stream_never_breaks_example :
    let o =
      stream plain row_sink
        (new_streaming_builder plain row_sink [] account_trie_emitter)
        two_leaves in
    (o ≢ panicked)
    × (o ≢ out_of_fuel)
    × ((b : StreamingBuilder (List (List ℕ))) → o ≢ failed empty_stack b)
stream_never_breaks_example =
    stream_never_breaks plain row_sink [] account_trie_emitter two_leaves
      (first_hash-IsHash.0, (second_hash-IsHash.0, tt))

pub row_sink_reliable :
    (em : Emitter) (s : List (List ℕ)) (location hash rlp : List ℕ)
    → (emit plain row_sink em s location hash rlp).0 ≡ true
row_sink_reliable account_trie_emitter s location hash rlp = refl
row_sink_reliable (storage_trie_emitter addr_hash) s location hash rlp = refl

stream_has_root_example :
    (root : List ℕ × List ℕ) × (b : StreamingBuilder (List (List ℕ))) × (stream plain row_sink
        (new_streaming_builder plain row_sink [] account_trie_emitter)
        two_leaves
      ≡ finished root b)
unfolding key_before
stream_has_root_example =
    stream_has_root plain row_sink [] account_trie_emitter two_leaves row_sink_reliable
      (first_hash-IsHash, (second_hash-IsHash, tt)) ((refl, tt), (tt, tt))
