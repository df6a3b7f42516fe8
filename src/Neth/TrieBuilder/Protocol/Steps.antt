-- ===== src/Neth/TrieBuilder/Protocol/Steps.antt =====
-- One call of the prescribed sequence, with a sink that does not fail.
use state_actor.Prelude.{
  ℕ, suc, ◌+◌, ◌≡◌, refl, ap, ◌∙◌, Bool, true, false, Option, none, some, List, if◌then◌else◌, ◌==◌,
  arith,
}
use state_actor.Bytes.{same_bytes_refl}
use state_actor.Neth.TrieBuilder.{
  TrieNode, StackTrie, NodeStorage, Error, state_node_failed, storage_node_failed, account_update,
  storage_update, Result, ok, fail, Builder, with_err, unless_set, emit, account_sink, storage_sink,
  update_storage, close_storage, add_storage_slot, finalize_storage_root, add_account,
  finalize_state_root,
}
use state_actor.Neth.TrieBuilder.Writes.{emit-account_sink, emit-storage_sink}
use state_actor.Neth.TrieBuilder.Protocol.{IsReliable, wrote_ok, emit_ok}

-- The builder between two accounts, and with an open storage trie.
abbrev pub idle : {T S : Type 0} → S → T → ℕ → List ℕ → Builder T S
idle s accounts m addr_hash = record {
  storage = s;
  err = none;
  account_trie = accounts;
  account_count = m;
  has_storage_trie = false;
  current_storage_addr_hash = addr_hash;
  current_storage_trie = none;
  current_storage_count = 0;
}

abbrev pub storing : {T S : Type 0} → S → T → ℕ → List ℕ → T → ℕ → Builder T S
storing s accounts m addr_hash t n = record {
  storage = s;
  err = none;
  account_trie = accounts;
  account_count = m;
  has_storage_trie = true;
  current_storage_addr_hash = addr_hash;
  current_storage_trie = some t;
  current_storage_count = n;
}

plus_one : (n : ℕ) → n + 1 ≡ suc n
plus_one n = omega arith

suc_nonzero : (n : ℕ) → (suc n == 0) ≡ false
suc_nonzero n = ground arith

otherwise : {A : Type 0} (failed : Bool) (x y : A) → failed ≡ false → (if failed then x else y) ≡ y
otherwise failed x y h = rw h refl

unless_set_ok :
    {T S : Type 0} (b c : Builder T S) (o : Option Error)
    → o ≡ none
    → c.err ≡ none
    → (unless_set c (λ e. b) o).err ≡ none
unless_set_ok b c none h k = k
unless_set_ok b c (some e) h k = cc

module _ {T S : Type 0} (trie : StackTrie T) (sink : NodeStorage S)
    (reliable : IsReliable trie sink) where
  account_sink_ok :
      (b : Builder T S) (n : TrieNode) → b.err ≡ none → (account_sink trie sink b n).err ≡ none
  unfolding account_sink
  account_sink_ok b n h =
      unless_set_ok b _ b.err h
        (wrote_ok trie sink b state_node_failed _ (reliable.state_nodes _ _ _ _ _) h)

  storage_sink_ok :
      (addr_hash : List ℕ) (b : Builder T S) (n : TrieNode)
      → b.err ≡ none
      → (storage_sink trie sink addr_hash b n).err ≡ none
  unfolding storage_sink
  storage_sink_ok addr_hash b n h =
      unless_set_ok b _ b.err h
        (wrote_ok trie sink b storage_node_failed _ (reliable.storage_nodes _ _ _ _ _ _) h)

  account_nodes :
      (b : Builder T S) (nodes : List TrieNode)
      → b.err ≡ none
      → emit trie sink (account_sink trie sink) b nodes ≡ record b {
        storage = (emit trie sink (account_sink trie sink) b nodes).storage;
        err = none;
      }
  account_nodes b nodes h =
      let c = emit trie sink (account_sink trie sink) b nodes in
      emit-account_sink trie sink b nodes
      ∙ ap (λ e. record b { storage = c.storage; err = e })
          (emit_ok trie sink (account_sink trie sink) account_sink_ok b nodes h)

  storage_nodes :
      (addr_hash : List ℕ) (b : Builder T S) (nodes : List TrieNode)
      → b.err ≡ none
      → emit trie sink (storage_sink trie sink addr_hash) b nodes ≡ record b {
        storage = (emit trie sink (storage_sink trie sink addr_hash) b nodes).storage;
        err = none;
      }
  storage_nodes addr_hash b nodes h =
      let c = emit trie sink (storage_sink trie sink addr_hash) b nodes in
      emit-storage_sink trie sink addr_hash b nodes
      ∙ ap (λ e. record b { storage = c.storage; err = e })
          (emit_ok trie sink (storage_sink trie sink addr_hash) (storage_sink_ok addr_hash) b nodes
            h)

  accepted : {A : Type 0} (done : Bool) (x y : A) → done ≡ true → (if done then x else y) ≡ x
  accepted done x y h = rw h refl

  update_storage_ok :
      (s : S) (accounts : T) (m : ℕ) (addr_hash : List ℕ) (t : T) (n : ℕ) (key value : List ℕ)
      → (trie.update t key value).0 ≡ true
      → (s' : S) × (update_storage trie sink
            (storing s accounts m addr_hash t n)
            addr_hash
            key
            value
            (some t)
          ≡ (ok tt, storing s' accounts m addr_hash (trie.update t key value).1 (suc n)))
  unfolding update_storage
  update_storage_ok s accounts m addr_hash t n key value h =
      let b = storing s accounts m addr_hash (trie.update t key value).1 n in
      let nodes = (trie.update t key value).2 in
      let c = emit trie sink (storage_sink trie sink addr_hash) b nodes in
      (
        c.storage,
        accepted (trie.update t key value).0
              (with_err tt (record c { current_storage_count = c.current_storage_count + 1 }))
              (fail storage_update, c) h
            ∙ ap
                (λ (d : Builder T S).
                  with_err tt (record d { current_storage_count = d.current_storage_count + 1 }))
                (storage_nodes addr_hash b nodes refl)
            ∙ ap
                (λ k. (ok tt, storing c.storage accounts m addr_hash (trie.update t key value).1 k))
                (plus_one n),
      )

  pub add_storage_slot-idle :
      (s : S) (accounts : T) (m : ℕ) (old addr_hash key value : List ℕ)
      → (trie.update trie.new_trie key value).0 ≡ true
      → (s' : S) × (add_storage_slot trie sink (idle s accounts m old) addr_hash key value
          ≡ (ok tt, storing s' accounts m addr_hash (trie.update trie.new_trie key value).1 1))
  unfolding add_storage_slot
  add_storage_slot-idle s accounts m old addr_hash key value h =
      update_storage_ok s accounts m addr_hash trie.new_trie 0 key value h

  pub add_storage_slot-storing :
      (s : S) (accounts : T) (m : ℕ) (addr_hash : List ℕ) (t : T) (n : ℕ) (key value : List ℕ)
      → (trie.update t key value).0 ≡ true
      → (s' : S) × (add_storage_slot trie sink
            (storing s accounts m addr_hash t n)
            addr_hash
            key
            value
          ≡ (ok tt, storing s' accounts m addr_hash (trie.update t key value).1 (suc n)))
  unfolding add_storage_slot
  add_storage_slot-storing s accounts m addr_hash t n key value h =
      rw (same_bytes_refl addr_hash) (update_storage_ok s accounts m addr_hash t n key value h)

  pub finalize_storage_root-storing :
      (s : S) (accounts : T) (m : ℕ) (addr_hash : List ℕ) (t : T) (n : ℕ)
      → (s' : S) × (finalize_storage_root trie sink
            (storing s accounts m addr_hash t (suc n))
            addr_hash
          ≡ (ok (trie.hash t).0, idle s' accounts m addr_hash))
  unfolding finalize_storage_root close_storage
  finalize_storage_root-storing s accounts m addr_hash t n =
      let b = storing s accounts m addr_hash t (suc n) in
      let nodes = (trie.hash t).2 in
      let c = emit trie sink (storage_sink trie sink addr_hash) b nodes in
      rw (same_bytes_refl addr_hash) (
        c.storage,
        otherwise (suc n == 0) _ _ (suc_nonzero n)
            ∙ ap
                (λ (d : Builder T S). with_err (trie.hash t).0 (record d {
                  has_storage_trie = false;
                  current_storage_trie = none;
                  current_storage_count = 0;
                }))
                (storage_nodes addr_hash b nodes refl),
      )

  pub add_account-idle :
      (s : S) (accounts : T) (m : ℕ) (old addr_hash rlp : List ℕ)
      → (trie.update accounts addr_hash rlp).0 ≡ true
      → (s' : S) × (add_account trie sink (idle s accounts m old) addr_hash rlp
          ≡ (ok tt, idle s' (trie.update accounts addr_hash rlp).1 (suc m) old))
  unfolding add_account
  add_account-idle s accounts m old addr_hash rlp h =
      let b = idle s (trie.update accounts addr_hash rlp).1 m old in
      let nodes = (trie.update accounts addr_hash rlp).2 in
      let c = emit trie sink (account_sink trie sink) b nodes in
      (
        c.storage,
        accepted (trie.update accounts addr_hash rlp).0
              (with_err tt (record c { account_count = c.account_count + 1 }))
              (fail account_update, c) h
            ∙ ap
                (λ (d : Builder T S).
                  with_err tt (record d { account_count = d.account_count + 1 }))
                (account_nodes b nodes refl)
            ∙ ap (λ k. (ok tt, idle c.storage (trie.update accounts addr_hash rlp).1 k old))
                (plus_one m),
      )

  pub finalize_state_root-idle :
      (s : S) (accounts : T) (m : ℕ) (old : List ℕ)
      → (finalize_state_root trie sink (idle s accounts (suc m) old)).0 ≡ ok (trie.hash accounts).0
  unfolding finalize_state_root
  finalize_state_root-idle s accounts m old =
      ap (λ (r : Result (List ℕ) × Builder T S). r.0) (otherwise (suc m == 0) _ _ (suc_nonzero m))
      ∙ ap (λ (d : Builder T S). (with_err (trie.hash accounts).0 d).0)
          (account_nodes (idle s (trie.hash accounts).1 (suc m) old) (trie.hash accounts).2 refl)
