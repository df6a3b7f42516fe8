-- ===== src/Besu/Commit/Walk.antt =====
-- Commit on a well-formed trie: what it writes and what it returns.
use state_actor.Besu.Trie.{Node, null, leaf, extension, branch}
use state_actor.Besu.Trie.WellFormed.{IsWellFormed}
use state_actor.Besu.Streaming.{Coding, NodeSink, Emitter}
use state_actor.Besu.Commit.{
  Written, written, and_written, is_null, encoded_bytes, maybe_emit_node, commit_traversal,
  emit_encoded,
}
use state_actor.Besu.Commit.Encodings.{IsRlp}
use state_actor.Besu.Commit.Agreement.{encoded}
use state_actor.Besu.Commit.Rows.{
  NodeRow, child_rows, own_row, rows_of, put_all, put_all-append, own_row-put, children_put,
  and_written_ext,
}
use state_actor.Ethrex.Builder.Bytes.{encode}
use state_actor.Prelude.{ℕ, ◌≡◌, ◌≢◌, refl, sym, ap, ◌∙◌, some, List, [], ◌∷◌, ◌++◌, if◌then◌else◌}

module _ (coding : Coding) (rlp : IsRlp coding) {S : Type 0} (node_sink : NodeSink S)
    (em : Emitter) where
  open coding use {keccak}

  maybe_emit_node-eq :
      (n : Node) (location bytes : List ℕ) (s : S)
      → encoded_bytes coding n ≡ some bytes
      → maybe_emit_node coding node_sink em s location n
        ≡ emit_encoded coding node_sink em s location n bytes
  unfolding maybe_emit_node
  maybe_emit_node-eq n location bytes s e = rw (e, maybe_emit_node) refl

  -- Any node but the null node, by its hash.
  own_put :
      (n : Node) (location : List ℕ) (s : S)
      → n ≢ null
      → encoded_bytes coding n ≡ some (encode keccak n)
      → maybe_emit_node coding node_sink em s location n
        ≡ put_all coding node_sink em (own_row coding location (encode keccak n)) s
  own_put null location s used e = absurd (used refl)
  own_put (leaf p v) location s used e =
      maybe_emit_node-eq _ location _ s e ∙ own_row-put coding node_sink em location _ s
  own_put (extension p c) location s used e =
      maybe_emit_node-eq _ location _ s e ∙ own_row-put coding node_sink em location _ s
  own_put (branch children bv) location s used e =
      maybe_emit_node-eq _ location _ s e ∙ own_row-put coding node_sink em location _ s

  skip_null :
      (c : Node) (location : List ℕ) (s : S)
      → commit_traversal coding node_sink em c location s
        ≡ put_all coding node_sink em (rows_of coding c location) s
      → (if is_null c then written tt s else commit_traversal coding node_sink em c location s)
        ≡ put_all coding node_sink em (rows_of coding c location) s
  unfolding rows_of put_all
  skip_null null location s h = refl
  skip_null (leaf p v) location s h = h
  skip_null (extension p c) location s h = h
  skip_null (branch children bv) location s h = h

  -- The children's rows, then the node's own.
  then_own :
      (n : Node) (location : List ℕ) (rows : List NodeRow) (r : Written S (Unit {0})) (s : S)
      → n ≢ null
      → encoded_bytes coding n ≡ some (encode keccak n)
      → r ≡ put_all coding node_sink em rows s
      → and_written r (λ _ s'. maybe_emit_node coding node_sink em s' location n)
        ≡ put_all coding node_sink em (rows ++ own_row coding location (encode keccak n)) s
  then_own n location rows r s used e h =
      ap (λ q. and_written q (λ _ s'. maybe_emit_node coding node_sink em s' location n)) h
      ∙ and_written_ext (put_all coding node_sink em rows s) _ _
          (λ _ s'. own_put n location s' used e)
      ∙ sym (put_all-append coding node_sink em rows _ s)

  pub commit_traversal-put_all :
      (n : ℕ) (t : Node) (location : List ℕ) (s : S)
      → IsWellFormed n t
      → commit_traversal coding node_sink em t location s
        ≡ put_all coding node_sink em (rows_of coding t location) s
  unfolding commit_traversal rows_of put_all
  commit_traversal-put_all n null location s wf = refl
  commit_traversal-put_all n (leaf p v) location s wf =
      own_put (leaf p v) location s (λ e. cc) (encoded coding rlp n (leaf p v) wf).1
  commit_traversal-put_all n (extension p c) location s wf =
      then_own (extension p c) location (rows_of coding c (location ++ p)) _ s (λ e. cc)
        (encoded coding rlp n (extension p c) wf).1
        (commit_traversal-put_all wf.0 c (location ++ p) s wf.5)
  commit_traversal-put_all n (branch children bv) location s wf =
      then_own (branch children bv) location
        (child_rows 16 (λ i. rows_of coding (children i) (location ++ (i ∷ []))) 0) _ s (λ e. cc)
        (encoded coding rlp n (branch children bv) wf).1
        (children_put coding node_sink em 16 children _ _ 0 s (λ i s'.
          skip_null (children i) (location ++ (i ∷ [])) s'
            (commit_traversal-put_all wf.0 (children i) (location ++ (i ∷ [])) s' (wf.3 i))))
