-- ===== src/Ethrex/Builder/Fold.antt =====
-- `foldTo`, `insert` and `Root` on the trie in memory: the spine after `insert` stands for the trie
-- after Besu's insertion, and `Root` returns the trie that the spine stands for.
use state_actor.Prelude.{
  ℕ, suc, ◌≤◌, ◌<◌, ◌≡◌, sym, arith, false, List, [], ◌∷◌, ◌++◌, length, length-append, drop, ltb,
  leb, ◌==◌, ==_iff, Bool-cases, inl, inr, ltb→lt, leb→le,
}
use state_actor.Bytes.{Nibbles}
use state_actor.Besu.Trie.{Node, leaf}
use state_actor.Ethrex.Builder.{
  Row, OpenBranch, below_top, store_child, new_branch, fold_to, insert, insert_at_top,
  emit_leaf_rows,
}
use state_actor.Ethrex.Builder.Cuts.{at, piece, at-behind, drop-behind, common_prefix_len-fork}
use state_actor.Ethrex.Builder.Descent.{branch_under}
use state_actor.Ethrex.Builder.Plug.{terminated, tree_encoder, Spine, plug, IsSpine}
use state_actor.Ethrex.Builder.Steps.{attach-eq, finalize_branch-eq}
use state_actor.Ethrex.Builder.Grow.{Grown, Parts, leaf_parts, branch_takes, prefix_parts, apart}

not_below : (a b : ℕ) → ltb a b ≡ false → b ≤ a
not_below a b e = ground arith

not_equal : (a b : ℕ) → (a == b) ≡ false → a ≤ b → a < b
not_equal a b e l = ground arith

not_at_most : (a b : ℕ) → leb a b ≡ false → b < a
not_at_most a b e = ground arith

module _ {p : List ℕ} {a : ℕ} {x : List ℕ} {b : ℕ} {y : List ℕ} (ps : Parts p a x b y) where
  fork_within : length p < length (p ++ (a ∷ x))
  fork_within = omega (arith, length-append p (a ∷ x))

  pub fold_to-Grown :
      (rest : Spine) (rows : List (Row Node)) (f : OpenBranch Node) (v : List ℕ)
      → Nibbles (p ++ (a ∷ x))
      → IsSpine (p ++ (a ∷ x)) rest
      → below_top rest ≤ f.depth
      → f.depth < length (p ++ (a ∷ x))
      → length p < f.depth
      → Grown
          (p ++ (b ∷ y))
          v
          (plug rest
            (p ++ (a ∷ x))
            (branch_under (piece (below_top rest) f.depth (p ++ (a ∷ x))) f.children))
          (fold_to tree_encoder rows f rest (length p) (p ++ (a ∷ x)))
  unfolding fold_to plug
  fold_to-Grown [] rows f v n h l m q =
      let key = p ++ (a ∷ x) in
      rw
        (
          finalize_branch-eq rows key f (suc (length p)) (omega arith),
          attach-eq (new_branch tree_encoder (length p)) key
              (branch_under (piece (suc (length p)) f.depth key) f.children) n fork_within,
          at-behind p a x,
        )
        (prefix_parts ps [] f.children f.depth v _ (omega arith) q tt)
  fold_to-Grown (parent ∷ rest) rows f v n h l m q =
      elim (Bool-cases (ltb (length p) parent.depth)) [
        | inl e ↦
            (let key = p ++ (a ∷ x) in
              let (within, above, free, lower) = h in
              let low = branch_under (piece (suc parent.depth) f.depth key) f.children in
              rw
                (
                  e,
                  finalize_branch-eq rows key f (suc parent.depth) (omega arith),
                  attach-eq parent key low n within,
                )
                (fold_to-Grown rest _
                  (record {
                    depth = parent.depth;
                    children = store_child parent.children (at key parent.depth) low;
                  })
                  v n lower above within (ltb→lt (length p) parent.depth e)))
        | inr e ↦ elim (Bool-cases (parent.depth == length p)) [
          | inl same ↦
              (let key = p ++ (a ∷ x) in
                let (within, above, free, lower) = h in
                let at_fork = (==_iff parent.depth (length p)).0 same in
                let low = branch_under (piece (suc (length p)) f.depth key) f.children in
                rw
                  (
                    e,
                    same,
                    finalize_branch-eq rows key f (suc (length p)) (omega arith),
                    attach-eq parent key low n within,
                    at_fork,
                    at-behind p a x,
                  )
                  (branch_takes ps rest parent.children low v _ (omega arith) lower
                    (λ j r. free j (rw (at_fork, at-behind p a x) r))))
          | inr other ↦
              (let key = p ++ (a ∷ x) in
                let (within, above, free, lower) = h in
                let low = branch_under (piece (suc (length p)) f.depth key) f.children in
                let higher =
                  not_equal parent.depth (length p) other (not_below (length p) parent.depth e) in
                rw
                  (
                    e,
                    other,
                    finalize_branch-eq rows key f (suc (length p)) (omega arith),
                    attach-eq (new_branch tree_encoder (length p)) key low n fork_within,
                    at-behind p a x,
                  )
                  (prefix_parts ps (parent ∷ rest) f.children f.depth v _ (omega arith) q h))
        ]
      ]

  -- The case of `insert` at the deepest branch, which is not above the fork.
  insert_at_top-Grown :
      (rows : List (Row Node)) (top : OpenBranch Node) (rest : Spine) (u v : List ℕ)
      → Nibbles (p ++ (a ∷ x))
      → IsSpine (p ++ (a ∷ x)) (top ∷ rest)
      → length p ≤ top.depth
      → Grown
          (p ++ (b ∷ y))
          v
          (plug
            (top ∷ rest)
            (p ++ (a ∷ x))
            (leaf (terminated (drop (suc top.depth) (p ++ (a ∷ x)))) u))
          (insert_at_top tree_encoder rows (top ∷ rest) (length p) (p ++ (a ∷ x)) u)
  unfolding insert_at_top emit_leaf_rows plug
  insert_at_top-Grown rows top rest u v n (within, above, free, lower) q =
      let key = p ++ (a ∷ x) in
      let open_leaf = leaf (terminated (drop (suc top.depth) key)) u in
      rw (attach-eq top key open_leaf n within) (elim (Bool-cases (length p == top.depth)) [
        | inl e ↦
            (let at_fork = sym ((==_iff (length p) top.depth).0 e) in
              rw (e, at_fork, at-behind p a x)
                (branch_takes ps rest top.children (leaf (terminated (drop (suc (length p)) key)) u)
                  v _ (omega arith) lower (λ j r. free j (rw (at_fork, at-behind p a x) r))))
        | inr e ↦ rw e (
            fold_to-Grown rest _
              (record {
                depth = top.depth;
                children = store_child top.children (at key top.depth) open_leaf;
              })
              v n lower above within (not_equal (length p) top.depth e q))
      ])

  -- Where the spine stands for a trie, `insert` returns one that stands for the trie after Besu's
  -- insertion.
  pub insert-Grown :
      (rows : List (Row Node)) (stack : Spine) (u v : List ℕ)
      → Nibbles (p ++ (a ∷ x))
      → IsSpine (p ++ (a ∷ x)) stack
      → Grown
          (p ++ (b ∷ y))
          v
          (plug stack (p ++ (a ∷ x)) (leaf (terminated (drop (below_top stack) (p ++ (a ∷ x)))) u))
          (insert tree_encoder rows stack (p ++ (a ∷ x)) u (p ++ (b ∷ y)))
  unfolding insert emit_leaf_rows
  insert-Grown rows stack u v n h = elim (Bool-cases (leb (below_top stack) (length p))) [
    | inl e ↦
        rw
          (
            common_prefix_len-fork p a b x y (apart ps),
            e,
            attach-eq (new_branch tree_encoder (length p)) (p ++ (a ∷ x))
                (leaf (terminated (drop (suc (length p)) (p ++ (a ∷ x)))) u) n fork_within,
            at-behind p a x,
            drop-behind p a x,
          )
          (leaf_parts ps stack u v _ (leb→le (below_top stack) (length p) e) h)
    | inr e ↦
        rw (common_prefix_len-fork p a b x y (apart ps), e)
          (into_stack stack (not_at_most (below_top stack) (length p) e) h)
  ]
    where
      into_stack :
          (stack : Spine)
          → length p < below_top stack
          → IsSpine (p ++ (a ∷ x)) stack
          → Grown
              (p ++ (b ∷ y))
              v
              (plug stack
                (p ++ (a ∷ x))
                (leaf (terminated (drop (below_top stack) (p ++ (a ∷ x)))) u))
              (insert_at_top tree_encoder rows stack (length p) (p ++ (a ∷ x)) u)
      into_stack [] l h = absurd (omega arith)
      into_stack (top ∷ rest) l h = insert_at_top-Grown rows top rest u v n h (omega arith)
