-- ===== src/Besu/Commit.antt =====
-- internal/besu/trie/node.go, builder.go and location.go: the encodings of the resident trie and
-- Commit, with the node sink, Keccak and geth's RLP package as parameters. An
-- error is a value and a panic is another one. The two methods of the nodes that only pass the
-- encoding on, and the lazily cached encodings, are not repeated.
pub mod Encodings
pub mod Agreement
pub mod Rows
pub mod Walk
pub mod Whole
pub mod Occurs
pub mod Stored
pub mod Apart
pub mod Results
pub mod Storage
mod Examples
use state_actor.Besu.Trie.{Node, null, leaf, extension, branch, Builder, insert_node, key_path}
use state_actor.Besu.Streaming.{
  Coding, NodeSink, Emitter, account_trie_emitter, storage_trie_emitter, emit,
  is_referenced_by_hash, empty_trie_node_hash, encode_leaf_rlp, encode_extension_rlp, ref_of_rlp,
}
use state_actor.Bytes.{same_bytes}
use state_actor.Prelude.{
  ℕ, zero, suc, ◌+◌, Bool, true, false, not, Option, none, some, List, [], ◌∷◌, ◌++◌, ◌==◌,
  if◌then◌else◌,
}

abbrev pub root_location : List ℕ
root_location = []

-- `AppendNibble`; the nibble is the index of a branch's loop.
abbrev pub append_nibble : List ℕ → ℕ → List ℕ
append_nibble location nibble = location ++ (nibble ∷ [])

abbrev pub append_path : List ℕ → List ℕ → List ℕ
append_path location path = location ++ path

abbrev pub is_null : Node → Bool
is_null null = true
is_null (leaf path value) = false
is_null (extension path child) = false
is_null (branch children value) = false

-- How a call that writes to the sink ends: with a value, with the sink's error, or with a panic.
pub data Written (S A : Type 0) : Type 0 where
  written : A → S → Written S A
  write_failed : S → Written S A
  write_panicked : Written S A

-- `if err := …; err != nil { return err }`
abbrev pub and_written : {S A B : Type 0} → Written S A → (A → S → Written S B) → Written S B
and_written (written a s) next = next a s
and_written (write_failed s) next = write_failed s
and_written write_panicked next = write_panicked

abbrev pub put_result : {S : Type 0} → Bool × S → Written S (Unit {0})
put_result (true, s) = written tt s
put_result (false, s) = write_failed s

abbrev pub encoding_or_panic :
    {S A : Type 0} → Option (List ℕ) → (List ℕ → Written S A) → Written S A
encoding_or_panic none next = write_panicked
encoding_or_panic (some rlp) next = next rlp

module _ (coding : Coding) where
  open coding use {keccak, encode_string, encode_raw}

  abbrev ref_of_bytes : Option (List ℕ) → Option (List ℕ)
  ref_of_bytes none = none
  ref_of_bytes (some bytes) = some (ref_of_rlp coding bytes)

  -- `EncodedBytesRef` of a node, from its encoding.
  abbrev pub encoded_bytes_ref : Node → Option (List ℕ) → Option (List ℕ)
  encoded_bytes_ref null bytes = some (0x80 ∷ [])
  encoded_bytes_ref (leaf path value) bytes = ref_of_bytes bytes
  encoded_bytes_ref (extension path child) bytes = ref_of_bytes bytes
  encoded_bytes_ref (branch children value) bytes = ref_of_bytes bytes

  abbrev before_refs : Option (List ℕ) → Option (List (List ℕ)) → Option (List (List ℕ))
  before_refs none rest = none
  before_refs (some item) none = none
  before_refs (some item) (some rest) = some (item ∷ rest)

  -- The 17th slot.
  abbrev pub value_item : Option (List ℕ) → List ℕ
  value_item none = 0x80 ∷ []
  value_item (some value) = encode_string value

  -- The loop over the slots with `left` of 16 to go.
  unfoldable pub child_items : ℕ → (ℕ → Option (List ℕ)) → List ℕ → ℕ → Option (List (List ℕ))
  child_items zero refs last i = some (last ∷ [])
  child_items (suc left) refs last i = before_refs (refs i) (child_items left refs last (i + 1))

  -- A leaf and an extension are encoded as in the streaming builder.
  abbrev leaf_bytes : List ℕ → List ℕ → Option (List ℕ)
  leaf_bytes path value = encode_leaf_rlp coding path value

  abbrev extension_bytes : List ℕ → Option (List ℕ) → Option (List ℕ)
  extension_bytes path none = none
  extension_bytes path (some child_ref) = encode_extension_rlp coding path child_ref

  abbrev branch_bytes : Option (List (List ℕ)) → Option (List ℕ)
  branch_bytes none = none
  branch_bytes (some items) = some (encode_raw items)

  unfoldable pub encoded_bytes : Node → Option (List ℕ)
  unfolding encode_leaf_rlp encode_extension_rlp ref_of_rlp child_items
  encoded_bytes null = some (0x80 ∷ [])
  encoded_bytes (leaf path value) = leaf_bytes path value
  encoded_bytes (extension path child) =
      extension_bytes path (encoded_bytes_ref child (encoded_bytes child))
  encoded_bytes (branch children value) = branch_bytes (
      child_items 16 (λ i. encoded_bytes_ref (children i) (encoded_bytes (children i)))
        (value_item value) 0)

  -- `Hash` of a node, from its encoding.
  abbrev pub node_hash : Node → List ℕ → List ℕ
  node_hash null bytes = empty_trie_node_hash
  node_hash (leaf path value) bytes = keccak bytes
  node_hash (extension path child) bytes = keccak bytes
  node_hash (branch children value) bytes = keccak bytes

  module _ {S : Type 0} (node_sink : NodeSink S) where
    abbrev pub put_node : Emitter → S → List ℕ → List ℕ → List ℕ → Written S (Unit {0})
    put_node em s location hash rlp = put_result (emit coding node_sink em s location hash rlp)

    abbrev pub emit_encoded : Emitter → S → List ℕ → Node → List ℕ → Written S (Unit {0})
    emit_encoded em s location n rlp =
        let hash = node_hash n rlp in
        if not (is_referenced_by_hash rlp)
        then written tt s
        else if same_bytes hash empty_trie_node_hash
        then written tt s
        else put_node em s location hash rlp

    unfoldable pub maybe_emit_node : Emitter → S → List ℕ → Node → Written S (Unit {0})
    unfolding encoded_bytes same_bytes
    maybe_emit_node em s location n =
        encoding_or_panic (encoded_bytes n) (emit_encoded em s location n)

    -- The loop over a branch's slots with `left` of 16 to go; `visit` walks one child.
    unfoldable pub commit_children :
        ℕ → (ℕ → Node) → (ℕ → S → Written S (Unit {0})) → ℕ → S → Written S (Unit {0})
    commit_children zero children visit i s = written tt s
    commit_children (suc left) children visit i s =
        and_written (if is_null (children i) then written tt s else visit i s)
          (λ _ s'. commit_children left children visit (i + 1) s')

    unfoldable pub commit_traversal : Emitter → Node → List ℕ → S → Written S (Unit {0})
    unfolding maybe_emit_node commit_children
    commit_traversal em null location s = written tt s
    commit_traversal em (leaf path value) location s =
        maybe_emit_node em s location (leaf path value)
    commit_traversal em (extension path child) location s =
        and_written (commit_traversal em child (append_path location path) s)
          (λ _ s'. maybe_emit_node em s' location (extension path child))
    commit_traversal em (branch children value) location s =
        and_written
          (commit_children 16 children
            (λ i s'. commit_traversal em (children i) (append_nibble location i) s') 0 s)
          (λ _ s'. maybe_emit_node em s' location (branch children value))

    -- `Commit` behind its traversal: a root that no parent would refer to by its hash goes to the
    -- sink here.
    abbrev pub commit_root : Emitter → Node → List ℕ → S → Written S (List ℕ × List ℕ)
    commit_root em root root_rlp s =
        let root_hash = node_hash root root_rlp in
        if not (is_referenced_by_hash root_rlp)
        then and_written (put_node em s root_location root_hash root_rlp)
            (λ _ s'. written (root_hash, root_rlp) s')
        else written (root_hash, root_rlp) s

    -- The two methods `Commit` differ in the emitter and in the encoding that one of them drops.
    unfoldable pub commit_trie : Emitter → Node → ℕ → S → Written S (List ℕ × List ℕ)
    unfolding commit_traversal encoded_bytes
    commit_trie em root count s =
        if count == 0
        then written (empty_trie_node_hash, 0x80 ∷ []) s
        else and_written (commit_traversal em root root_location s)
            (λ _ s'. encoding_or_panic (encoded_bytes root) (λ rlp. commit_root em root rlp s'))

    unfoldable pub commit : Builder → S → Written S (List ℕ × List ℕ)
    unfolding commit_trie
    commit b s = commit_trie account_trie_emitter b.root b.count s
