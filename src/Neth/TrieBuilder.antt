-- ===== src/Neth/TrieBuilder.antt =====
-- internal/neth/trie/builder.go: the builder over two stack tries. Geth's StackTrie and the sink are
-- parameters. A method returns what it returns and the builder as it leaves it, which after an error
-- keeps what was written to it.
pub mod Writes
pub mod Calls
pub mod Health
pub mod Noted
pub mod Errors
pub mod Protocol
use state_actor.Bytes.{same_bytes}
use state_actor.Prelude.{
  ℕ, zero, suc, ◌+◌, ◌*◌, ◌%◌, Bool, true, false, not, ◌&&◌, ◌||◌, Option, none, some, List, [],
  ◌∷◌, length, ◌==◌, if◌then◌else◌, bit_and, bit_or,
}

-- What `OnTrieNode` is called with: the nibble path, the hash and the RLP.
pub record TrieNode : Type 0 where
  pub path : List ℕ
  pub node_hash : List ℕ
  pub blob : List ℕ

-- `Update` and `Hash` with the calls of `OnTrieNode` that they make; an error of `Update` is `false`.
pub record StackTrie (T : Type 0) : Type 0 where
  pub new_trie : T
  pub update : T → List ℕ → List ℕ → Bool × T × List TrieNode
  pub hash : T → List ℕ × T × List TrieNode

-- The sink; an error is `false`.
pub record NodeStorage (S : Type 0) : Type 0 where
  pub set_state_node : S → List ℕ → ℕ → List ℕ → List ℕ → Bool × S
  pub set_storage_node : S → List ℕ → List ℕ → ℕ → List ℕ → List ℕ → Bool × S

pub data Error : Type 0 where
  state_node_failed storage_node_failed unfinished_storage open_storage storage_update
        account_update nil_trie :
      Error

pub data Result (A : Type 0) : Type 0 where
  ok : A → Result A
  fail : Error → Result A

pub record Builder (T S : Type 0) : Type 0 where
  pub storage : S
  pub err : Option Error
  pub account_trie : T
  pub account_count : ℕ
  pub has_storage_trie : Bool
  pub current_storage_addr_hash : List ℕ
  pub current_storage_trie : Option T
  pub current_storage_count : ℕ

abbrev pub empty_tree_hash : List ℕ
empty_tree_hash =
    0x56 ∷ 0xe8 ∷ 0x1f ∷ 0x17 ∷ 0x1b ∷ 0xcc ∷ 0x55 ∷ 0xa6 ∷ 0xff ∷ 0x83 ∷ 0x45 ∷ 0xe6 ∷ 0x92 ∷ 0xc0
    ∷ 0xf8 ∷ 0x6e ∷ 0x5b ∷ 0x48 ∷ 0xe0 ∷ 0x1b ∷ 0x99 ∷ 0x6c ∷ 0xad ∷ 0xc0 ∷ 0x01 ∷ 0x62 ∷ 0x2f
    ∷ 0xb5 ∷ 0xe3 ∷ 0x63 ∷ 0xb4 ∷ 0x21 ∷ []

-- The loop writes two nibbles to a byte; `room` bytes of the 32 are left.
unfoldable pub pack_loop : ℕ → List ℕ → List ℕ
pack_loop zero nibbles = []
pack_loop (suc room) [] = 0 ∷ pack_loop room []
pack_loop (suc room) (a ∷ []) = (a * 16 % 256) ∷ pack_loop room []
pack_loop (suc room) (a ∷ b ∷ nibbles) =
    bit_or (a * 16 % 256) (bit_and b 0x0f) ∷ pack_loop room nibbles

unfoldable pub pack_nibbles_to_32 : List ℕ → List ℕ
unfolding pack_loop
pack_nibbles_to_32 nibbles = pack_loop 32 nibbles

-- `if b.err != nil { return … }`: the first argument is what is done without an error.
abbrev pub unless_set {ℓ} : {A : Type ℓ} → A → (Error → A) → Option Error → A
unless_set done failed none = done
unless_set done failed (some e) = failed e

module _ {T S : Type 0} where
  -- `return b.err`, or a value with it.
  abbrev pub with_err : {A : Type 0} → A → Builder T S → Result A × Builder T S
  with_err a b = (unless_set (ok a) fail b.err, b)

  -- The result of a write: the first error is kept.
  abbrev pub wrote : Builder T S → Error → Bool × S → Builder T S
  wrote b e (true, s) = record b { storage = s }
  wrote b e (false, s) = record b { storage = s; err = some e }

  -- Every entry point returns the first error of the sink.
  abbrev pub unless_failed :
      {A : Type 0} → Builder T S → Result A × Builder T S → Result A × Builder T S
  unless_failed b r = unless_set r (λ e. (fail e, b)) b.err

module _ {T S : Type 0} (trie : StackTrie T) (sink : NodeStorage S) where
  unfoldable pub new_builder : S → Builder T S
  new_builder s = record {
    storage = s;
    err = none;
    account_trie = trie.new_trie;
    account_count = 0;
    has_storage_trie = false;
    current_storage_addr_hash = [];
    current_storage_trie = none;
    current_storage_count = 0;
  }

  unfoldable pub account_sink : Builder T S → TrieNode → Builder T S
  unfolding pack_nibbles_to_32
  account_sink b n = elim b.err [
    | some e ↦ b
    | none ↦ wrote b state_node_failed (
        sink.set_state_node b.storage (pack_nibbles_to_32 n.path) (length n.path) n.node_hash
          n.blob)
  ]

  unfoldable pub storage_sink : List ℕ → Builder T S → TrieNode → Builder T S
  unfolding pack_nibbles_to_32
  storage_sink addr_hash b n = elim b.err [
    | some e ↦ b
    | none ↦ wrote b storage_node_failed (
        sink.set_storage_node b.storage addr_hash (pack_nibbles_to_32 n.path) (length n.path)
          n.node_hash n.blob)
  ]

  -- The calls of `OnTrieNode`, in order.
  unfoldable pub emit :
      (Builder T S → TrieNode → Builder T S) → Builder T S → List TrieNode → Builder T S
  emit on_trie_node b [] = b
  emit on_trie_node b (n ∷ nodes) = emit on_trie_node (on_trie_node b n) nodes

  -- `currentStorageTrie.Update` and what follows it.
  unfoldable pub update_storage :
      Builder T S → List ℕ → List ℕ → List ℕ → Option T → Result (Unit {0}) × Builder T S
  unfolding emit storage_sink
  update_storage b addr_hash slot_key_hash value_rlp none = (fail nil_trie, b)
  update_storage b addr_hash slot_key_hash value_rlp (some t) =
      let (done, t', nodes) = trie.update t slot_key_hash value_rlp in
      let b' = emit (storage_sink addr_hash) (record b { current_storage_trie = some t' }) nodes in
      if done
      then with_err tt (record b' { current_storage_count = b'.current_storage_count + 1 })
      else (fail storage_update, b')

  -- The builder with the storage trie of `addr_hash` open.
  abbrev pub open_trie : Builder T S → List ℕ → Builder T S
  open_trie b addr_hash =
      if not b.has_storage_trie
      then record b {
        current_storage_addr_hash = addr_hash;
        current_storage_trie = some trie.new_trie;
        current_storage_count = 0;
        has_storage_trie = true;
      }
      else b

  unfoldable pub add_storage_slot :
      Builder T S → List ℕ → List ℕ → List ℕ → Result (Unit {0}) × Builder T S
  unfolding update_storage same_bytes
  add_storage_slot b addr_hash slot_key_hash value_rlp = unless_failed b (
      if b.has_storage_trie && not (same_bytes b.current_storage_addr_hash addr_hash)
      then (fail unfinished_storage, b)
      else (let o = open_trie b addr_hash in
          update_storage o addr_hash slot_key_hash value_rlp o.current_storage_trie))

  -- The rest of `FinalizeStorageRoot` behind its short cuts.
  unfoldable pub close_storage : Builder T S → List ℕ → Option T → Result (List ℕ) × Builder T S
  unfolding emit storage_sink
  close_storage b addr_hash none = (fail nil_trie, b)
  close_storage b addr_hash (some t) =
      let (root, t', nodes) = trie.hash t in
      let b' = emit (storage_sink b.current_storage_addr_hash) b nodes in
      with_err root (record b' {
        has_storage_trie = false;
        current_storage_trie = none;
        current_storage_count = 0;
      })

  unfoldable pub finalize_storage_root : Builder T S → List ℕ → Result (List ℕ) × Builder T S
  unfolding close_storage same_bytes
  finalize_storage_root b addr_hash = unless_failed b (
      if not b.has_storage_trie || not (same_bytes b.current_storage_addr_hash addr_hash)
      then (ok empty_tree_hash, b)
      else if b.current_storage_count == 0
      then (ok empty_tree_hash, record b { has_storage_trie = false; current_storage_trie = none })
      else close_storage b addr_hash b.current_storage_trie)

  unfoldable pub add_account : Builder T S → List ℕ → List ℕ → Result (Unit {0}) × Builder T S
  unfolding emit account_sink
  add_account b addr_hash account_rlp = unless_failed b (
      if b.has_storage_trie
      then (fail open_storage, b)
      else (let (done, t', nodes) = trie.update b.account_trie addr_hash account_rlp in
          let b' = emit account_sink (record b { account_trie = t' }) nodes in
          if done
          then with_err tt (record b' { account_count = b'.account_count + 1 })
          else (fail account_update, b')))

  unfoldable pub finalize_state_root : Builder T S → Result (List ℕ) × Builder T S
  unfolding emit account_sink
  finalize_state_root b = unless_failed b (
      if b.account_count == 0
      then (ok empty_tree_hash, b)
      else (let (root, t', nodes) = trie.hash b.account_trie in
          let b' = emit account_sink (record b { account_trie = t' }) nodes in with_err root b'))
