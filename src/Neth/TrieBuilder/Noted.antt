-- ===== src/Neth/TrieBuilder/Noted.antt =====
-- A sink that notes whether it has failed, next to the error that the builder keeps.
use state_actor.Bytes.{same_bytes}
use state_actor.Prelude.{
  ℕ, ◌+◌, ◌≡◌, refl, sym, ap, ◌∙◌, Bool, true, false, not, ◌&&◌, ◌||◌, Option, none, some, List, [],
  ◌∷◌, if◌then◌else◌, ◌==◌,
}
use state_actor.Neth.TrieBuilder.{
  TrieNode, StackTrie, NodeStorage, Error, state_node_failed, storage_node_failed, wrote, Result,
  ok, fail, Builder, with_err, unless_set, open_trie, new_builder, emit, account_sink, storage_sink,
  update_storage, close_storage, add_storage_slot, finalize_storage_root, add_account,
  finalize_state_root,
}
use state_actor.Neth.TrieBuilder.Calls.{
  Call, slot, storage_root, account, state_root, failure, ended, call, run,
}

abbrev noted : {S : Type 0} → Bool → Bool × S → Bool × (S × Bool)
noted failed (done, s) = (done, (s, failed || not done))

-- The sink with a flag that its first failure sets.
abbrev pub noting : {S : Type 0} → NodeStorage S → NodeStorage (S × Bool)
noting sink = record {
  set_state_node =
      λ (s, failed) path n hash rlp. noted failed (sink.set_state_node s path n hash rlp);
  set_storage_node = λ (s, failed) addr_hash path n hash rlp.
      noted failed (sink.set_storage_node s addr_hash path n hash rlp);
}

abbrev pub is_set : Option Error → Bool
is_set none = false
is_set (some e) = true

module _ {T S : Type 0} (trie : StackTrie T) (sink : NodeStorage S) where
  abbrev pub IsNoted : Builder T (S × Bool) → Type 0
  IsNoted b = b.storage.1 ≡ is_set b.err

  -- A call leaves a builder with the error noted, and returns an error whenever there is one.
  abbrev pub IsTold : Option Error × Builder T (S × Bool) → Type 0
  IsTold (o, b) = IsNoted b × (is_set b.err ≡ true → is_set o ≡ true)

  wrote-IsNoted :
      (b : Builder T (S × Bool)) (e : Error) (r : Bool × S)
      → b.storage.1 ≡ false
      → b.err ≡ none
      → IsNoted (wrote b e (noted b.storage.1 r))
  wrote-IsNoted b e (true, s) h k = rw (h, k) refl
  wrote-IsNoted b e (false, s) h k = rw h refl

  unless_set-IsNoted :
      (b c : Builder T (S × Bool)) (o : Option Error)
      → IsNoted b
      → (o ≡ none → IsNoted c)
      → IsNoted (unless_set c (λ e. b) o)
  unless_set-IsNoted b c none h k = k refl
  unless_set-IsNoted b c (some e) h k = h

  account_sink-IsNoted :
      (b : Builder T (S × Bool)) (n : TrieNode)
      → IsNoted b
      → IsNoted (account_sink trie (noting sink) b n)
  unfolding account_sink
  account_sink-IsNoted b n h =
      unless_set-IsNoted b _ b.err h (λ e. wrote-IsNoted b state_node_failed _ (h ∙ ap is_set e) e)

  storage_sink-IsNoted :
      (addr_hash : List ℕ) (b : Builder T (S × Bool)) (n : TrieNode)
      → IsNoted b
      → IsNoted (storage_sink trie (noting sink) addr_hash b n)
  unfolding storage_sink
  storage_sink-IsNoted addr_hash b n h =
      unless_set-IsNoted b _ b.err h
        (λ e. wrote-IsNoted b storage_node_failed _ (h ∙ ap is_set e) e)

  emit-IsNoted :
      (f : Builder T (S × Bool) → TrieNode → Builder T (S × Bool))
      → ((b : Builder T (S × Bool)) (n : TrieNode) → IsNoted b → IsNoted (f b n))
      → (b : Builder T (S × Bool)) (nodes : List TrieNode) → IsNoted b
      → IsNoted (emit trie (noting sink) f b nodes)
  unfolding emit
  emit-IsNoted f k b [] h = h
  emit-IsNoted f k b (n ∷ nodes) h = emit-IsNoted f k (f b n) nodes (k b n h)

  after_failure :
      {A : Type 0} (b : Builder T (S × Bool)) (r : Result A × Builder T (S × Bool))
      (o : Option Error)
      → IsNoted b
      → (o ≡ none → IsTold (ended r))
      → IsTold (ended (unless_set r (λ e. (fail e, b)) o))
  after_failure b r none h k = k refl
  after_failure b r (some e) h k = (h, λ s. refl)

  returned :
      {A : Type 0} (a : A) (b : Builder T (S × Bool)) → IsNoted b → IsTold (ended (with_err a b))
  returned a b h = (h, reported b.err)
    where
      reported :
          (o : Option Error) → is_set o ≡ true → is_set (failure (unless_set (ok a) fail o)) ≡ true
      reported none s = s
      reported (some e) s = refl

  -- Without an error so far.
  untouched :
      {A : Type 0} (a : A) (b : Builder T (S × Bool)) → IsNoted b → b.err ≡ none → IsTold (none, b)
  untouched a b h e = (h, λ s. sym (ap is_set e) ∙ s)

  branch :
      {A : Type 0} (t : Bool) (r r' : Result A × Builder T (S × Bool))
      → IsTold (ended r)
      → IsTold (ended r')
      → IsTold (ended (if t then r else r'))
  branch true r r' h k = h
  branch false r r' h k = k

  update_storage-IsTold :
      (b : Builder T (S × Bool)) (addr_hash slot_key_hash value_rlp : List ℕ) (o : Option T)
      → IsNoted b
      → IsTold (ended (update_storage trie (noting sink) b addr_hash slot_key_hash value_rlp o))
  unfolding update_storage
  update_storage-IsTold b addr_hash slot_key_hash value_rlp none h = (h, λ s. refl)
  update_storage-IsTold b addr_hash slot_key_hash value_rlp (some t) h =
      let (done, t', nodes) = trie.update t slot_key_hash value_rlp in
      let b1 : Builder T (S × Bool) = record b { current_storage_trie = some t' } in
      let b' = emit trie (noting sink) (storage_sink trie (noting sink) addr_hash) b1 nodes in
      let h' : IsNoted b' =
        emit-IsNoted (storage_sink trie (noting sink) addr_hash) (storage_sink-IsNoted addr_hash) b1
          nodes h in
      branch done _ _
        (returned tt (record b' { current_storage_count = b'.current_storage_count + 1 }) h')
        (h', λ s. refl)

  chosen-IsNoted :
      (has : Bool) (x y : Builder T (S × Bool))
      → IsNoted x
      → IsNoted y
      → IsNoted (if not has then x else y)
  chosen-IsNoted true x y h k = k
  chosen-IsNoted false x y h k = h

  close_storage-IsTold :
      (b : Builder T (S × Bool)) (addr_hash : List ℕ) (o : Option T)
      → IsNoted b
      → IsTold (ended (close_storage trie (noting sink) b addr_hash o))
  unfolding close_storage
  close_storage-IsTold b addr_hash none h = (h, λ s. refl)
  close_storage-IsTold b addr_hash (some t) h =
      let (root, t', nodes) = trie.hash t in
      let sends = storage_sink trie (noting sink) b.current_storage_addr_hash in
      let b' = emit trie (noting sink) sends b nodes in
      let h' : IsNoted b' =
        emit-IsNoted sends (storage_sink-IsNoted b.current_storage_addr_hash) b nodes h in
      returned root
        (record b' {
          has_storage_trie = false;
          current_storage_trie = none;
          current_storage_count = 0;
        })
        h'

  account_nodes-IsNoted :
      (b : Builder T (S × Bool)) (nodes : List TrieNode)
      → IsNoted b
      → IsNoted (emit trie (noting sink) (account_sink trie (noting sink)) b nodes)
  account_nodes-IsNoted = emit-IsNoted (account_sink trie (noting sink)) account_sink-IsNoted

  pub call-IsTold :
      (b : Builder T (S × Bool)) (c : Call) → IsNoted b → IsTold (call trie (noting sink) b c)
  unfolding call add_storage_slot finalize_storage_root add_account finalize_state_root
  call-IsTold b (slot addr_hash slot_key_hash value_rlp) h =
      let o = open_trie trie (noting sink) b addr_hash in
      after_failure b _ b.err h (λ e.
        branch (b.has_storage_trie && not (same_bytes b.current_storage_addr_hash addr_hash)) _ _
          (h, λ s. refl)
          (update_storage-IsTold o addr_hash slot_key_hash value_rlp o.current_storage_trie
            (chosen-IsNoted b.has_storage_trie _ b h h)))
  call-IsTold b (storage_root addr_hash) h = after_failure b _ b.err h (λ e.
      branch (not b.has_storage_trie || not (same_bytes b.current_storage_addr_hash addr_hash)) _ _
        (untouched tt b h e)
        (branch (b.current_storage_count == 0) _ _ (h, λ s. sym (ap is_set e) ∙ s)
          (close_storage-IsTold b addr_hash b.current_storage_trie h)))
  call-IsTold b (account addr_hash account_rlp) h =
      let (done, t', nodes) = trie.update b.account_trie addr_hash account_rlp in
      let b1 : Builder T (S × Bool) = record b { account_trie = t' } in
      let b' = emit trie (noting sink) (account_sink trie (noting sink)) b1 nodes in
      let h' : IsNoted b' = account_nodes-IsNoted b1 nodes h in
      after_failure b _ b.err h (λ e.
        branch b.has_storage_trie _ _ (h, λ s. refl)
          (branch done _ _ (returned tt (record b' { account_count = b'.account_count + 1 }) h')
            (h', λ s. refl)))
  call-IsTold b state_root h =
      let (root, t', nodes) = trie.hash b.account_trie in
      let b1 : Builder T (S × Bool) = record b { account_trie = t' } in
      let b' = emit trie (noting sink) (account_sink trie (noting sink)) b1 nodes in
      let h' : IsNoted b' = account_nodes-IsNoted b1 nodes h in
      after_failure b _ b.err h
        (λ e. branch (b.account_count == 0) _ _ (untouched tt b h e) (returned root b' h'))

  pub run-IsNoted :
      (calls : List Call) (b : Builder T (S × Bool))
      → IsNoted b
      → IsNoted (run trie (noting sink) b calls)
  unfolding run
  run-IsNoted [] b h = h
  run-IsNoted (c ∷ calls) b h =
      run-IsNoted calls (call trie (noting sink) b c).1 (call-IsTold b c h).0

  pub new_builder-IsNoted : (s : S) → IsNoted (new_builder trie (noting sink) (s, false))
  unfolding new_builder
  new_builder-IsNoted s = refl
