-- ===== src/Neth/TrieBuilder/Health.antt =====
-- The open storage trie is there exactly while the flag is set, whatever is called.
use state_actor.Prelude.{
  ℕ, ◌+◌, ◌≡◌, ◌≢◌, refl, Bool, true, false, not, ◌&&◌, ◌||◌, Option, none, some, List, [], ◌∷◌,
  if◌then◌else◌, ◌==◌,
}
use state_actor.Bytes.{same_bytes}
use state_actor.Neth.TrieBuilder.{
  TrieNode, StackTrie, NodeStorage, Error, state_node_failed, storage_node_failed, nil_trie, wrote,
  Result, ok, fail, Builder, with_err, unless_set, open_trie, new_builder, emit, account_sink,
  storage_sink, update_storage, close_storage, add_storage_slot, finalize_storage_root, add_account,
  finalize_state_root,
}
use state_actor.Neth.TrieBuilder.Calls.{
  Call, slot, storage_root, account, state_root, failure, ended, call, run,
}

module _ {T S : Type 0} (trie : StackTrie T) (sink : NodeStorage S) where
  -- The open storage trie is there exactly while the flag is set.
  abbrev pub IsOpenOrNil : Bool → Option T → Type 0
  IsOpenOrNil true none = ⊥
  IsOpenOrNil true (some t) = Unit
  IsOpenOrNil false none = Unit
  IsOpenOrNil false (some t) = ⊥

  abbrev pub IsHealthy : Builder T S → Type 0
  IsHealthy b = (b.err ≢ some nil_trie) × IsOpenOrNil b.has_storage_trie b.current_storage_trie

  -- What a call returns and leaves.
  abbrev pub Sound : Option Error × Builder T S → Type 0
  Sound (o, b) = (o ≢ some nil_trie) × IsHealthy b

  wrote-IsHealthy :
      (b : Builder T S) (e : Error) (r : Bool × S)
      → e ≢ nil_trie
      → IsHealthy b
      → IsHealthy (wrote b e r)
  wrote-IsHealthy b e (true, s) n h = h
  wrote-IsHealthy b e (false, s) n h = (λ q. n (cc q), h.1)

  unless_set-IsHealthy :
      (b c : Builder T S) (o : Option Error)
      → IsHealthy b
      → IsHealthy c
      → IsHealthy (unless_set c (λ e. b) o)
  unless_set-IsHealthy b c none h k = k
  unless_set-IsHealthy b c (some e) h k = h

  account_sink-IsHealthy :
      (b : Builder T S) (n : TrieNode) → IsHealthy b → IsHealthy (account_sink trie sink b n)
  unfolding account_sink
  account_sink-IsHealthy b n h =
      unless_set-IsHealthy b _ b.err h (wrote-IsHealthy b state_node_failed _ (λ q. cc) h)

  storage_sink-IsHealthy :
      (addr_hash : List ℕ) (b : Builder T S) (n : TrieNode)
      → IsHealthy b
      → IsHealthy (storage_sink trie sink addr_hash b n)
  unfolding storage_sink
  storage_sink-IsHealthy addr_hash b n h =
      unless_set-IsHealthy b _ b.err h (wrote-IsHealthy b storage_node_failed _ (λ q. cc) h)

  emit-IsHealthy :
      (f : Builder T S → TrieNode → Builder T S)
      → ((b : Builder T S) (n : TrieNode) → IsHealthy b → IsHealthy (f b n))
      → (b : Builder T S) (nodes : List TrieNode) → IsHealthy b
      → IsHealthy (emit trie sink f b nodes)
  unfolding emit
  emit-IsHealthy f k b [] h = h
  emit-IsHealthy f k b (n ∷ nodes) h = emit-IsHealthy f k (f b n) nodes (k b n h)

  after_failure :
      {A : Type 0} (b : Builder T S) (r : Result A × Builder T S) (o : Option Error)
      → o ≢ some nil_trie
      → IsHealthy b
      → Sound (ended r)
      → Sound (ended (unless_set r (λ e. (fail e, b)) o))
  after_failure b r none n c h = h
  after_failure b r (some e) n c h = (n, c)

  returned : {A : Type 0} (a : A) (b : Builder T S) → IsHealthy b → Sound (ended (with_err a b))
  returned a b h = (not_nil b.err h.0, h)
    where
      not_nil :
          (o : Option Error)
          → o ≢ some nil_trie
          → failure (unless_set (ok a) fail o) ≢ some nil_trie
      not_nil none n q = cc
      not_nil (some e) n q = n q

  branch :
      {A : Type 0} (t : Bool) (r r' : Result A × Builder T S)
      → (t ≡ true → Sound (ended r))
      → (t ≡ false → Sound (ended r'))
      → Sound (ended (if t then r else r'))
  branch true r r' h k = h refl
  branch false r r' h k = k refl

  update_storage-Sound :
      (b : Builder T S) (addr_hash slot_key_hash value_rlp : List ℕ) (o : Option T)
      → b.err ≢ some nil_trie
      → b.has_storage_trie ≡ true
      → IsOpenOrNil true o
      → Sound (ended (update_storage trie sink b addr_hash slot_key_hash value_rlp o))
  unfolding update_storage
  update_storage-Sound b addr_hash slot_key_hash value_rlp none n e h = absurd h
  update_storage-Sound b addr_hash slot_key_hash value_rlp (some t) n e h =
      let (done, t', nodes) = trie.update t slot_key_hash value_rlp in
      let b' =
        emit trie sink (storage_sink trie sink addr_hash)
          (record b { current_storage_trie = some t' }) nodes in
      let h' : IsHealthy b' =
        emit-IsHealthy (storage_sink trie sink addr_hash) (storage_sink-IsHealthy addr_hash)
          (record b { current_storage_trie = some t' }) nodes
          (n, still_open b.has_storage_trie t' e) in
      branch done _ _
        (λ d. returned tt (record b' { current_storage_count = b'.current_storage_count + 1 }) h')
        (λ d. (λ q. cc, h'))
    where
      still_open : (has : Bool) (t : T) → has ≡ true → IsOpenOrNil has (some t)
      still_open true t e = tt
      still_open false t e = cc

  abbrev IsOpen : Builder T S → Type 0
  IsOpen o =
      (o.err ≢ some nil_trie)
      × (o.has_storage_trie ≡ true)
      × IsOpenOrNil true o.current_storage_trie

  chosen-IsOpen :
      (has : Bool) (x y : Builder T S)
      → IsOpen x
      → (has ≡ true → IsOpen y)
      → IsOpen (if not has then x else y)
  chosen-IsOpen true x y h k = k refl
  chosen-IsOpen false x y h k = h

  opened :
      (b : Builder T S) (addr_hash : List ℕ)
      → IsHealthy b
      → IsOpen (open_trie trie sink b addr_hash)
  opened b addr_hash h =
      chosen-IsOpen b.has_storage_trie _ b (h.0, refl, tt) (λ e. (h.0, e, rw e at (h.1)))

  open_of :
      (has same : Bool) (o : Option T)
      → (not has || not same) ≡ false
      → IsOpenOrNil has o
      → IsOpenOrNil true o
  open_of true same o t h = h
  open_of false same o t h = cc

  add_storage_slot-Sound :
      (b : Builder T S) (addr_hash slot_key_hash value_rlp : List ℕ)
      → IsHealthy b
      → Sound (ended (add_storage_slot trie sink b addr_hash slot_key_hash value_rlp))
  unfolding add_storage_slot
  add_storage_slot-Sound b addr_hash slot_key_hash value_rlp h = after_failure b _ b.err h.0 h (
      branch (b.has_storage_trie && not (same_bytes b.current_storage_addr_hash addr_hash)) _ _
        (λ t. (λ q. cc, h))
        (λ t.
          let o = open_trie trie sink b addr_hash in
          let (n, e, k) = opened b addr_hash h in
          update_storage-Sound o addr_hash slot_key_hash value_rlp o.current_storage_trie n e k))

  close_storage-Sound :
      (b : Builder T S) (addr_hash : List ℕ) (o : Option T)
      → IsHealthy b
      → IsOpenOrNil true o
      → Sound (ended (close_storage trie sink b addr_hash o))
  unfolding close_storage
  close_storage-Sound b addr_hash none h k = absurd k
  close_storage-Sound b addr_hash (some t) h k =
      let (root, t', nodes) = trie.hash t in
      let sends = storage_sink trie sink b.current_storage_addr_hash in
      let h' : IsHealthy (emit trie sink sends b nodes) =
        emit-IsHealthy sends (storage_sink-IsHealthy b.current_storage_addr_hash) b nodes h in
      returned root
        (record (emit trie sink sends b nodes) {
          has_storage_trie = false;
          current_storage_trie = none;
          current_storage_count = 0;
        })
        (h'.0, tt)

  finalize_storage_root-Sound :
      (b : Builder T S) (addr_hash : List ℕ)
      → IsHealthy b
      → Sound (ended (finalize_storage_root trie sink b addr_hash))
  unfolding finalize_storage_root
  finalize_storage_root-Sound b addr_hash h = after_failure b _ b.err h.0 h (
      branch (not b.has_storage_trie || not (same_bytes b.current_storage_addr_hash addr_hash)) _ _
        (λ t. (λ q. cc, h))
        (λ t.
          branch (b.current_storage_count == 0) _ _ (λ z. (λ q. cc, (h.0, tt)))
            (λ z. close_storage-Sound b addr_hash b.current_storage_trie h (
              open_of b.has_storage_trie (same_bytes b.current_storage_addr_hash addr_hash)
                b.current_storage_trie t h.1))))

  add_account-Sound :
      (b : Builder T S) (addr_hash account_rlp : List ℕ)
      → IsHealthy b
      → Sound (ended (add_account trie sink b addr_hash account_rlp))
  unfolding add_account
  add_account-Sound b addr_hash account_rlp h =
      let (done, t', nodes) = trie.update b.account_trie addr_hash account_rlp in
      let b' = emit trie sink (account_sink trie sink) (record b { account_trie = t' }) nodes in
      let h' : IsHealthy b' =
        emit-IsHealthy (account_sink trie sink) account_sink-IsHealthy
          (record b { account_trie = t' }) nodes h in
      after_failure b _ b.err h.0 h (
        branch b.has_storage_trie _ _ (λ t. (λ q. cc, h))
          (λ t.
            branch done _ _
              (λ d. returned tt (record b' { account_count = b'.account_count + 1 }) h')
              (λ d. (λ q. cc, h'))))

  finalize_state_root-Sound :
      (b : Builder T S) → IsHealthy b → Sound (ended (finalize_state_root trie sink b))
  unfolding finalize_state_root
  finalize_state_root-Sound b h =
      let (root, t', nodes) = trie.hash b.account_trie in
      let b' = emit trie sink (account_sink trie sink) (record b { account_trie = t' }) nodes in
      let h' : IsHealthy b' =
        emit-IsHealthy (account_sink trie sink) account_sink-IsHealthy
          (record b { account_trie = t' }) nodes h in
      after_failure b _ b.err h.0 h
        (branch (b.account_count == 0) _ _ (λ z. (λ q. cc, h)) (λ z. returned root b' h'))

  pub call-Sound : (b : Builder T S) (c : Call) → IsHealthy b → Sound (call trie sink b c)
  unfolding call
  call-Sound b (slot addr_hash slot_key_hash value_rlp) h =
      add_storage_slot-Sound b addr_hash slot_key_hash value_rlp h
  call-Sound b (storage_root addr_hash) h = finalize_storage_root-Sound b addr_hash h
  call-Sound b (account addr_hash account_rlp) h = add_account-Sound b addr_hash account_rlp h
  call-Sound b state_root h = finalize_state_root-Sound b h

  pub run-IsHealthy :
      (calls : List Call) (b : Builder T S) → IsHealthy b → IsHealthy (run trie sink b calls)
  unfolding run
  run-IsHealthy [] b h = h
  run-IsHealthy (c ∷ calls) b h = run-IsHealthy calls (call trie sink b c).1 (call-Sound b c h).1

  pub new_builder-IsHealthy : (s : S) → IsHealthy (new_builder trie sink s)
  unfolding new_builder
  new_builder-IsHealthy s = (λ q. cc, tt)
