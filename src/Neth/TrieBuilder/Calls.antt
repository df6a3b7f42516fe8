-- ===== src/Neth/TrieBuilder/Calls.antt =====
-- Any sequence of calls of the builder's methods, in any order.
use state_actor.Prelude.{ℕ, Option, none, some, List, [], ◌∷◌}
use state_actor.Neth.TrieBuilder.{
  StackTrie, NodeStorage, Error, Result, ok, fail, Builder, add_storage_slot, finalize_storage_root,
  add_account, finalize_state_root,
}

pub data Call : Type 0 where
  slot : List ℕ → List ℕ → List ℕ → Call
  storage_root : List ℕ → Call
  account : List ℕ → List ℕ → Call
  state_root : Call

abbrev pub failure : {A : Type 0} → Result A → Option Error
failure (ok a) = none
failure (fail e) = some e

abbrev pub ended : {A T S : Type 0} → Result A × Builder T S → Option Error × Builder T S
ended (r, b) = (failure r, b)

module _ {T S : Type 0} (trie : StackTrie T) (sink : NodeStorage S) where
  -- The error of a call, and the builder behind it.
  unfoldable pub call : Builder T S → Call → Option Error × Builder T S
  unfolding add_storage_slot finalize_storage_root add_account finalize_state_root
  call b (slot addr_hash slot_key_hash value_rlp) =
      ended (add_storage_slot trie sink b addr_hash slot_key_hash value_rlp)
  call b (storage_root addr_hash) = ended (finalize_storage_root trie sink b addr_hash)
  call b (account addr_hash account_rlp) = ended (add_account trie sink b addr_hash account_rlp)
  call b state_root = ended (finalize_state_root trie sink b)

  unfoldable pub run : Builder T S → List Call → Builder T S
  unfolding call
  run b [] = b
  run b (c ∷ calls) = run (call b c).1 calls
