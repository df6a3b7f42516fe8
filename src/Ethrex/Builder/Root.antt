-- ===== src/Ethrex/Builder/Root.antt =====
-- `Root` on the trie in memory: it returns the trie that the spine stands for.
use state_actor.Prelude.{ℕ, suc, ◌<◌, ◌≡◌, refl, arith, some, List, [], ◌∷◌, length, take, drop}
use state_actor.Bytes.{Nibbles}
use state_actor.Besu.Trie.{Node, leaf}
use state_actor.Ethrex.Builder.Finish.{fold_root, root_node}
use state_actor.Ethrex.Builder.{
  Row, OpenBranch, below_top, store_child, finalize_branch, emit_leaf_rows,
}
use state_actor.Ethrex.Builder.Cuts.{at, piece}
use state_actor.Ethrex.Builder.Descent.{branch_under}
use state_actor.Ethrex.Builder.Plug.{terminated, tree_encoder, Spine, plug, IsSpine}
use state_actor.Ethrex.Builder.Steps.{attach-eq, finalize_branch-eq}

fold_root-plug :
    (rest : Spine) (rows : List (Row Node)) (f : OpenBranch Node) (key : List ℕ)
    → Nibbles key
    → IsSpine key rest
    → f.depth < length key
    → (rows' : List (Row Node)) × (fold_root tree_encoder rows f rest key
        ≡ some
            (plug rest key (branch_under (piece (below_top rest) f.depth key) f.children), rows'))
unfolding fold_root plug
fold_root-plug [] rows f key n h l = (
  (finalize_branch tree_encoder rows key f 0).1,
  rw (← finalize_branch-eq rows key f 0 (omega arith)) refl,
)
fold_root-plug (parent ∷ rest) rows f key n (within, above, free, lower) l =
    let low = branch_under (piece (suc parent.depth) f.depth key) f.children in
    let rows' = (finalize_branch tree_encoder rows key f (suc parent.depth)).1 in
    let (done, e) =
      fold_root-plug rest rows'
        (record {
          depth = parent.depth;
          children = store_child parent.children (at key parent.depth) low;
        })
        key n lower within in
    (
      done,
      rw
          (
            finalize_branch-eq rows key f (suc parent.depth) (omega arith),
            attach-eq parent key low n within,
          )
          e,
    )

pub root_node-plug :
    (stack : Spine) (rows : List (Row Node)) (key v : List ℕ)
    → Nibbles key
    → IsSpine key stack
    → (rows' : List (Row Node)) × (root_node tree_encoder rows stack key v
        ≡ some (plug stack key (leaf (terminated (drop (below_top stack) key)) v), rows'))
unfolding root_node emit_leaf_rows plug
root_node-plug [] rows key v n h = (_, refl)
root_node-plug (top ∷ rest) rows key v n (within, above, free, lower) =
    let open_leaf = leaf (terminated (drop (suc top.depth) key)) v in
    let (done, e) =
      fold_root-plug rest
        (emit_leaf_rows tree_encoder rows (take (suc top.depth) key) (drop (suc top.depth) key) v).1
        (record {
          depth = top.depth;
          children = store_child top.children (at key top.depth) open_leaf;
        })
        key n lower within in
    (done, rw (attach-eq top key open_leaf n within) e)
