-- ===== src/Neth/TrieBuilder/Writes.antt =====
-- What the calls of `OnTrieNode` change: the sink and its first error, and nothing else.
use state_actor.Prelude.{
  ℕ, ◌≡◌, refl, ◌∙◌, ap, Bool, true, false, Option, none, some, List, [], ◌∷◌, length,
}
use state_actor.Neth.TrieBuilder.{
  TrieNode, StackTrie, NodeStorage, Error, Builder, state_node_failed, storage_node_failed,
  pack_nibbles_to_32, wrote, unless_set, account_sink, storage_sink, emit,
}

module _ {T S : Type 0} where
  -- The builder `b` with the sink and the error of `c`.
  abbrev pub written : Builder T S → Builder T S → Builder T S
  written b c = record b { storage = c.storage; err = c.err }

  wrote-eq : (b : Builder T S) (e : Error) (r : Bool × S) → wrote b e r ≡ written b (wrote b e r)
  wrote-eq b e (true, s) = refl
  wrote-eq b e (false, s) = refl

  unless_set-eq :
      (b c : Builder T S) (o : Option Error)
      → c ≡ written b c
      → unless_set c (λ e. b) o ≡ written b (unless_set c (λ e. b) o)
  unless_set-eq b c none h = h
  unless_set-eq b c (some e) h = refl

  emit-eq :
      (f : Builder T S → TrieNode → Builder T S)
      → ((b : Builder T S) (n : TrieNode) → f b n ≡ written b (f b n))
      → (trie : StackTrie T) (sink : NodeStorage S) (b : Builder T S) (nodes : List TrieNode)
      → emit trie sink f b nodes ≡ written b (emit trie sink f b nodes)
  unfolding emit
  emit-eq f h trie sink b [] = refl
  emit-eq f h trie sink b (n ∷ nodes) =
      emit-eq f h trie sink (f b n) nodes
      ∙ ap (λ c. written c (emit trie sink f (f b n) nodes)) (h b n)

module _ {T S : Type 0} (trie : StackTrie T) (sink : NodeStorage S) where
  account_sink-eq :
      (b : Builder T S) (n : TrieNode)
      → account_sink trie sink b n ≡ written b (account_sink trie sink b n)
  unfolding account_sink
  account_sink-eq b n =
      let packed = pack_nibbles_to_32 n.path in
      let r = sink.set_state_node b.storage packed (length n.path) n.node_hash n.blob in
      unless_set-eq b (wrote b state_node_failed r) b.err (wrote-eq b state_node_failed r)

  storage_sink-eq :
      (addr_hash : List ℕ) (b : Builder T S) (n : TrieNode)
      → storage_sink trie sink addr_hash b n ≡ written b (storage_sink trie sink addr_hash b n)
  unfolding storage_sink
  storage_sink-eq addr_hash b n =
      let packed = pack_nibbles_to_32 n.path in
      let r = sink.set_storage_node b.storage addr_hash packed (length n.path) n.node_hash n.blob in
      unless_set-eq b (wrote b storage_node_failed r) b.err (wrote-eq b storage_node_failed r)

  pub emit-account_sink :
      (b : Builder T S) (nodes : List TrieNode)
      → emit trie sink (account_sink trie sink) b nodes
        ≡ written b (emit trie sink (account_sink trie sink) b nodes)
  emit-account_sink = emit-eq (account_sink trie sink) account_sink-eq trie sink

  pub emit-storage_sink :
      (addr_hash : List ℕ) (b : Builder T S) (nodes : List TrieNode)
      → emit trie sink (storage_sink trie sink addr_hash) b nodes
        ≡ written b (emit trie sink (storage_sink trie sink addr_hash) b nodes)
  emit-storage_sink addr_hash =
      emit-eq (storage_sink trie sink addr_hash) (storage_sink-eq addr_hash) trie sink
