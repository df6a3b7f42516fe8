-- ===== src/Besu/Commit/Whole.antt =====
-- Commit as a whole: the rows it writes, up to the sink's first error, and the root it returns.
use state_actor.Besu.Trie.{Node, null, leaf, extension, branch}
use state_actor.Besu.Trie.WellFormed.{IsWellFormed}
use state_actor.Besu.Streaming.{Coding, NodeSink, Emitter, is_referenced_by_hash}
use state_actor.Besu.Commit.{
  Written, written, and_written, node_hash, put_node, commit_root, commit_trie,
}
use state_actor.Besu.Commit.Encodings.{IsRlp}
use state_actor.Besu.Commit.Agreement.{encoded_bytes-encode}
use state_actor.Besu.Commit.Rows.{
  NodeRow, rows_of, put_all, put_all-append, and_written_ext, and_written_assoc,
  and_written-written,
}
use state_actor.Besu.Commit.Walk.{commit_traversal-put_all}
use state_actor.Ethrex.Builder.Bytes.{encode}
use state_actor.Prelude.{
  ℕ, ◌≡◌, ◌≢◌, refl, sym, ap, ◌∙◌, false, not, List, [], ◌∷◌, ◌++◌, ◌==◌, Bool-cases, inl, inr,
  if◌then◌else◌,
}

module _ (coding : Coding) where
  open coding use {keccak}

  -- A root that is not in the rows of the traversal.
  abbrev pub root_row : List ℕ → List NodeRow
  root_row rlp = if not (is_referenced_by_hash rlp) then ([], keccak rlp, rlp) ∷ [] else []

  abbrev pub committed_rows : Node → List NodeRow
  committed_rows t = rows_of coding t [] ++ root_row (encode keccak t)

  node_hash-keccak : (t : Node) (rlp : List ℕ) → t ≢ null → node_hash coding t rlp ≡ keccak rlp
  node_hash-keccak null rlp used = absurd (used refl)
  node_hash-keccak (leaf p v) rlp used = refl
  node_hash-keccak (extension p c) rlp used = refl
  node_hash-keccak (branch children bv) rlp used = refl

  module _ {S : Type 0} (node_sink : NodeSink S) (em : Emitter) where
    abbrev pub returning : List ℕ → Unit {0} → S → Written S (List ℕ × List ℕ)
    returning rlp _ s = written (keccak rlp, rlp) s

    commit_root-put_all :
        (t : Node) (rlp : List ℕ) (s : S)
        → t ≢ null
        → commit_root coding node_sink em t rlp s
          ≡ and_written (put_all coding node_sink em (root_row rlp) s) (returning rlp)
    unfolding put_all
    commit_root-put_all t rlp s used =
        rw (node_hash-keccak t rlp used) (elim (Bool-cases (is_referenced_by_hash rlp)) [
          | inl e ↦ rw e refl
          | inr e ↦
              rw e
                (rw (and_written-written (put_node coding node_sink em s [] (keccak rlp) rlp)) refl)
        ])

    module _ (rlp : IsRlp coding) where
      pub commit_trie-put_all :
          (n count : ℕ) (t : Node) (s : S)
          → IsWellFormed n t
          → t ≢ null
          → (count == 0) ≡ false
          → commit_trie coding node_sink em t count s
            ≡ and_written
                (put_all coding node_sink em (committed_rows t) s)
                (returning (encode keccak t))
      unfolding commit_trie
      commit_trie-put_all n count t s wf used some_leaf =
          let e = encode keccak t in
          let rows = rows_of coding t [] in
          rw (some_leaf, encoded_bytes-encode coding rlp n t wf used)
            (ap (λ r. and_written r (λ _ s'. commit_root coding node_sink em t e s'))
                (commit_traversal-put_all coding rlp node_sink em n t [] s wf)
              ∙ and_written_ext (put_all coding node_sink em rows s) _ _
                  (λ _ s'. commit_root-put_all t e s' used)
              ∙ sym (and_written_assoc (put_all coding node_sink em rows s) _ _)
              ∙ ap (λ r. and_written r (returning e))
                  (sym (put_all-append coding node_sink em rows (root_row e) s)))
