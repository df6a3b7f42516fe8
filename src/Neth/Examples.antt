-- ===== src/Neth/Examples.antt =====
-- Runs of the trie builder with a small trie and sink, and its theorems there.
use state_actor.Prelude.{ℕ, ◌+◌, ◌≡◌, ◌≢◌, refl, true, false, none, some, List, [], ◌∷◌}
use state_actor.Neth.TrieBuilder.{StackTrie, NodeStorage, Error, nil_trie, ok, new_builder}
use state_actor.Neth.TrieBuilder.Calls.{Call, slot, storage_root, account, state_root, call, run}
use state_actor.Neth.TrieBuilder.Noted.{noting}
use state_actor.Neth.TrieBuilder.Errors.{no_nil_trie, first_error_stays}
use state_actor.Neth.TrieBuilder.Protocol.{Account, build, root_of, account_leaves}
use state_actor.Neth.TrieBuilder.Protocol.Refinement.{build-root_of}

-- A trie that keeps its leaves' keys in one list, and reports that list as its only node.
abbrev keys_trie : StackTrie (List ℕ)
keys_trie = record {
  new_trie = [];
  update = λ t key value. (true, key_of key ∷ t, []);
  hash = λ t. (t, t, record { path = []; node_hash = t; blob = t } ∷ []);
}
  where
    key_of : List ℕ → ℕ
    key_of [] = 0
    key_of (x ∷ xs) = x

-- A sink that counts, and one that fails at its first node.
abbrev counter : NodeStorage ℕ
counter = record {
  set_state_node = λ s path n keccak rlp. (true, s + 1);
  set_storage_node = λ s addr_hash path n keccak rlp. (true, s + 1);
}

abbrev broken : NodeStorage ℕ
broken = record {
  set_state_node = λ s path n keccak rlp. (false, s + 1);
  set_storage_node = λ s addr_hash path n keccak rlp. (true, s + 1);
}

abbrev two_accounts : List Account
two_accounts =
    record {
      addr_hash = 3 ∷ [];
      slots = (1 ∷ [], 9 ∷ []) ∷ (2 ∷ [], 8 ∷ []) ∷ [];
      account_rlp = λ root. root;
    }
    ∷ record { addr_hash = 4 ∷ []; slots = []; account_rlp = λ root. root }
    ∷ []

build-root_of_example :
    (build keys_trie counter 0 two_accounts).0
    ≡ ok (root_of keys_trie (account_leaves keys_trie two_accounts))
build-root_of_example =
    build-root_of keys_trie counter
      (record { state_nodes = λ s p n k r. refl; storage_nodes = λ s a p n k r. refl }) two_accounts
      0 ((refl, (refl, tt)), (tt, tt)) (refl, (refl, tt))

abbrev calls : List Call
calls = account (3 ∷ []) (5 ∷ []) ∷ slot (4 ∷ []) (1 ∷ []) (2 ∷ []) ∷ storage_root (5 ∷ []) ∷ []

no_nil_trie_example :
    (call keys_trie counter
      (run keys_trie counter (new_builder keys_trie counter 0) calls)
      (storage_root (4 ∷ []))).0
    ≢ some nil_trie
no_nil_trie_example = no_nil_trie keys_trie counter 0 calls (storage_root (4 ∷ []))

-- The sink fails at the account's node.
abbrev one_account : List Call
one_account = account (3 ∷ []) (5 ∷ []) ∷ []

first_error_stays_example :
    let b =
      run keys_trie
        (noting broken)
        (new_builder keys_trie (noting broken) (0, false))
        one_account in
    let b' = (call keys_trie (noting broken) b state_root).1 in
    ((call keys_trie (noting broken) b state_root).0 ≢ none)
    × (e : Error) × (b'.err ≡ some e)
    × (run keys_trie (noting broken) b' calls ≡ b')
    × (call keys_trie (noting broken) b' state_root ≡ (some e, b'))
unfolding run new_builder call
first_error_stays_example =
    first_error_stays keys_trie broken 0 one_account state_root calls state_root refl
