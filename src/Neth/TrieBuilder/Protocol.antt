-- ===== src/Neth/TrieBuilder/Protocol.antt =====
-- The sequence of calls that the builder's comment prescribes, against what it is to compute: a
-- storage trie for each account, and one account trie over their roots.
pub mod Steps
pub mod Refinement
use state_actor.Prelude.{
  ℕ, suc, ◌+◌, ◌≡◌, refl, sym, ap, ◌∙◌, arith, Bool, true, false, not, ◌&&◌, ◌||◌, Option, none,
  some, List, [], ◌∷◌, if◌then◌else◌, ◌==◌, ==_refl, length,
}
use state_actor.Neth.TrieBuilder.{
  TrieNode, StackTrie, NodeStorage, Error, Result, ok, fail, Builder, with_err, unless_set, wrote,
  emit, account_sink, storage_sink, update_storage, close_storage, empty_tree_hash, new_builder,
  add_storage_slot, finalize_storage_root, add_account, finalize_state_root, open_trie,
}
use state_actor.Neth.TrieBuilder.Writes.{written, emit-account_sink, emit-storage_sink}

-- An account: its hash, its slots, and its RLP for a storage root.
pub record Account : Type 0 where
  pub addr_hash : List ℕ
  pub slots : List (List ℕ × List ℕ)
  pub account_rlp : List ℕ → List ℕ

-- A call behind another: an error ends the sequence.
abbrev pub after :
    {A B T S : Type 0}
    → Result A × Builder T S
    → (A → Builder T S → Result B × Builder T S)
    → Result B × Builder T S
after (ok a, b) f = f a b
after (fail e, b) f = (fail e, b)

module _ {T : Type 0} (trie : StackTrie T) where
  -- What is to be computed.
  abbrev pub updated : T → List (List ℕ × List ℕ) → T
  updated t [] = t
  updated t ((key, value) ∷ leaves) = updated (trie.update t key value).1 leaves

  abbrev pub root_of : List (List ℕ × List ℕ) → List ℕ
  root_of [] = empty_tree_hash
  root_of (leaf ∷ leaves) = (trie.hash (updated trie.new_trie (leaf ∷ leaves))).0

  abbrev pub account_leaves : List Account → List (List ℕ × List ℕ)
  account_leaves [] = []
  account_leaves (a ∷ accounts) =
      (a.addr_hash, a.account_rlp (root_of a.slots)) ∷ account_leaves accounts

  -- The stack trie takes the leaves in this order.
  abbrev pub Accepts : T → List (List ℕ × List ℕ) → Type 0
  Accepts t [] = Unit
  Accepts t ((key, value) ∷ leaves) =
      ((trie.update t key value).0 ≡ true) × Accepts (trie.update t key value).1 leaves

  abbrev pub AcceptsSlots : List Account → Type 0
  AcceptsSlots [] = Unit
  AcceptsSlots (a ∷ accounts) = Accepts trie.new_trie a.slots × AcceptsSlots accounts

module _ {T S : Type 0} (trie : StackTrie T) (sink : NodeStorage S) where
  -- The calls, in the prescribed order.
  unfoldable pub add_slots :
      Builder T S → List ℕ → List (List ℕ × List ℕ) → Result (Unit {0}) × Builder T S
  unfolding add_storage_slot
  add_slots b addr_hash [] = (ok tt, b)
  add_slots b addr_hash ((key, value) ∷ slots) =
      after (add_storage_slot trie sink b addr_hash key value)
        (λ _ b'. add_slots b' addr_hash slots)

  unfoldable pub add_whole_account : Builder T S → Account → Result (Unit {0}) × Builder T S
  unfolding add_slots finalize_storage_root add_account
  add_whole_account b a = after (add_slots b a.addr_hash a.slots) (λ _ b'.
      after (finalize_storage_root trie sink b' a.addr_hash)
        (λ root b''. add_account trie sink b'' a.addr_hash (a.account_rlp root)))

  unfoldable pub add_whole_accounts : Builder T S → List Account → Result (Unit {0}) × Builder T S
  unfolding add_whole_account
  add_whole_accounts b [] = (ok tt, b)
  add_whole_accounts b (a ∷ accounts) =
      after (add_whole_account b a) (λ _ b'. add_whole_accounts b' accounts)

  unfoldable pub build : S → List Account → Result (List ℕ) × Builder T S
  unfolding add_whole_accounts finalize_state_root new_builder
  build s accounts =
      after (add_whole_accounts (new_builder trie sink s) accounts)
        (λ _ b. finalize_state_root trie sink b)

  -- A sink that never fails.
  pub record IsReliable : Type 0 where
    pub state_nodes :
        (s : S) (path : List ℕ) (n : ℕ) (keccak rlp : List ℕ)
        → (sink.set_state_node s path n keccak rlp).0 ≡ true
    pub storage_nodes :
        (s : S) (addr_hash path : List ℕ) (n : ℕ) (keccak rlp : List ℕ)
        → (sink.set_storage_node s addr_hash path n keccak rlp).0 ≡ true

  -- With such a sink, emitting nodes changes the sink alone.
  wrote_ok :
      (b : Builder T S) (e : Error) (r : Bool × S)
      → r.0 ≡ true
      → b.err ≡ none
      → (wrote b e r).err ≡ none
  wrote_ok b e (true, s) h n = n
  wrote_ok b e (false, s) h n = cc

  emit_ok :
      (f : Builder T S → TrieNode → Builder T S)
      → ((b : Builder T S) (n : TrieNode) → b.err ≡ none → (f b n).err ≡ none)
      → (b : Builder T S) (nodes : List TrieNode) → b.err ≡ none
      → (emit trie sink f b nodes).err ≡ none
  unfolding emit
  emit_ok f k b [] h = h
  emit_ok f k b (n ∷ nodes) h = emit_ok f k (f b n) nodes (k b n h)
