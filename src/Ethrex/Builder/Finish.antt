-- ===== src/Ethrex/Builder/Finish.antt =====
-- internal/ethrex/builder.go: `Root`, which closes the spine and hashes the root node.
use state_actor.Prelude.{
  ℕ, suc, Option, none, some, List, [], ◌∷◌, take, drop, ◌==◌, if◌then◌else◌, and_then,
}
use state_actor.Ethrex.Builder.{
  NodeEncoder, Row, value_row, OpenBranch, Builder, attach, finalize_branch, emit_leaf_rows,
  rlp_encoder,
}

module _ {ℓ} {N : Type ℓ} (e : NodeEncoder N) where
  -- The loop of `Root` with `p` popped off the stack.
  unfoldable pub fold_root :
      List (Row N) → OpenBranch N → List (OpenBranch N) → List ℕ → Option (N × List (Row N))
  unfolding finalize_branch attach
  fold_root rows p [] prev_key = some (finalize_branch e rows prev_key p 0)
  fold_root rows p (parent ∷ rest) prev_key =
      let (node, rows') = finalize_branch e rows prev_key p (suc parent.depth) in
      and_then (attach parent prev_key node) (λ parent'. fold_root rows' parent' rest prev_key)

  -- The root node of a trie that is not empty.
  unfoldable pub root_node :
      List (Row N) → List (OpenBranch N) → List ℕ → List ℕ → Option (N × List (Row N))
  unfolding fold_root emit_leaf_rows attach
  root_node rows [] prev_key prev_val = some (emit_leaf_rows e rows [] prev_key prev_val)
  root_node rows (top ∷ rest) prev_key prev_val =
      let (leaf, rows') =
        emit_leaf_rows e rows (take (suc top.depth) prev_key) (drop (suc top.depth) prev_key)
          prev_val in
      and_then (attach top prev_key leaf) (λ top'. fold_root rows' top' rest prev_key)

-- The hash of the RLP 0x80, as the source spells it.
abbrev pub empty_trie_hash : List ℕ
empty_trie_hash =
    0x56 ∷ 0xe8 ∷ 0x1f ∷ 0x17 ∷ 0x1b ∷ 0xcc ∷ 0x55 ∷ 0xa6 ∷ 0xff ∷ 0x83 ∷ 0x45 ∷ 0xe6 ∷ 0x92 ∷ 0xc0
    ∷ 0xf8 ∷ 0x6e ∷ 0x5b ∷ 0x48 ∷ 0xe0 ∷ 0x1b ∷ 0x99 ∷ 0x6c ∷ 0xad ∷ 0xc0 ∷ 0x01 ∷ 0x62 ∷ 0x2f
    ∷ 0xb5 ∷ 0xe3 ∷ 0x63 ∷ 0xb4 ∷ 0x21 ∷ []

abbrev pub root_hash :
    (List ℕ → List ℕ)
    → Option (List ℕ × List (Row (List ℕ)))
    → Option (List ℕ × List (Row (List ℕ)))
root_hash keccak none = none
root_hash keccak (some (node, rows)) = some (keccak node, rows)

unfoldable pub root : (List ℕ → List ℕ) → Builder (List ℕ) → Option (List ℕ × List (Row (List ℕ)))
unfolding root_node
root keccak b =
    if b.leaf_count == 0
    then some (empty_trie_hash, value_row [] (0x80 ∷ []) ∷ b.rows)
    else root_hash keccak (root_node (rlp_encoder keccak) b.rows b.stack b.prev_key b.prev_val)
