-- ===== src/Ethrex/Builder/Encoded.antt =====
-- A map of nodes that respects the encoders commutes with `insert`, `AddLeaf` and `Root`.
use state_actor.Prelude.{
  ℕ, suc, ◌≡◌, refl, sym, ap, Bool, true, false, Option, none, some, List, [], ◌∷◌, length, take,
  drop, ltb, leb, ◌==◌, if◌then◌else◌, Bool-cases, inl, inr, and_then, not,
}
use state_actor.Ethrex.Nibbles.{common_prefix_len}
use state_actor.Ethrex.Builder.Finish.{fold_root, root_node}
use state_actor.Ethrex.Builder.{
  NodeEncoder, Row, OpenBranch, Builder, AddResult, added, keys_out_of_order, key_length_differs,
  index_panic, attach, finalize_branch, fold_to, insert, insert_at_top, emit_leaf_rows, new_branch,
  below_top, add_leaf, with_leaf, compare_le,
}
use state_actor.Ethrex.Builder.Encoding.{
  IsEncoding, map_open, map_stack, map_rows, map_emitted, map_spine, map_root, map_branch,
  attach-map, push_branch-map, finalize_branch-map, new_branch-map,
}

module _ {ℓ κ} {N : Type ℓ} {M : Type κ} {e : NodeEncoder N} {d : NodeEncoder M} {h : N → M}
    (enc : IsEncoding e d h) where
  emit_leaf_rows-map :
      (rows : List (Row N)) (path rem v : List ℕ)
      → emit_leaf_rows d (map_rows h rows) path rem v
        ≡ map_emitted h (emit_leaf_rows e rows path rem v)
  unfolding emit_leaf_rows
  emit_leaf_rows-map rows path rem v = rw (enc.maps_leaf rem v) refl

  after_attach {α β} :
      {A : Type α} {B : Type β} (m : Option A → Option B) (o : Option (OpenBranch N))
      (f : OpenBranch N → Option A) (g : OpenBranch M → Option B)
      → m none ≡ none
      → ((b : OpenBranch N) → g (map_open h b) ≡ m (f b))
      → and_then (map_branch h o) g ≡ m (and_then o f)
  after_attach m none f g z s = sym z
  after_attach m (some b) f g z s = s b

  fold_to-map :
      (rest : List (OpenBranch N)) (rows : List (Row N)) (f : OpenBranch N) (lcp : ℕ) (key : List ℕ)
      → fold_to d (map_rows h rows) (map_open h f) (map_stack h rest) lcp key
        ≡ map_spine h (fold_to e rows f rest lcp key)
  unfolding fold_to
  fold_to-map [] rows f lcp key =
      let (node, rows') = finalize_branch e rows key f (suc lcp) in
      rw
        (
          finalize_branch-map enc rows key f (suc lcp),
          new_branch-map enc lcp,
          attach-map h (new_branch e lcp) key node,
        )
        (push_branch-map h rows' [] (attach (new_branch e lcp) key node))
  fold_to-map (parent ∷ rest) rows f lcp key = elim (Bool-cases (ltb lcp parent.depth)) [
    | inl t ↦
        (let (node, rows') = finalize_branch e rows key f (suc parent.depth) in
          rw
            (t, finalize_branch-map enc rows key f (suc parent.depth), attach-map h parent key node)
            (after_attach (map_spine h) (attach parent key node) _ _ refl
              (λ b. fold_to-map rest rows' b lcp key)))
    | inr t ↦
        (let (node, rows') = finalize_branch e rows key f (suc lcp) in
          elim (Bool-cases (parent.depth == lcp)) [
            | inl s ↦
                rw
                  (t, s, finalize_branch-map enc rows key f (suc lcp), attach-map h parent key node)
                  (push_branch-map h rows' rest (attach parent key node))
            | inr s ↦
                rw
                  (
                    t,
                    s,
                    finalize_branch-map enc rows key f (suc lcp),
                    new_branch-map enc lcp,
                    attach-map h (new_branch e lcp) key node,
                  )
                  (push_branch-map h rows' (parent ∷ rest) (attach (new_branch e lcp) key node))
          ])
  ]

  fold_root-map :
      (rest : List (OpenBranch N)) (rows : List (Row N)) (f : OpenBranch N) (key : List ℕ)
      → fold_root d (map_rows h rows) (map_open h f) (map_stack h rest) key
        ≡ map_root h (fold_root e rows f rest key)
  unfolding fold_root
  fold_root-map [] rows f key = ap some (finalize_branch-map enc rows key f 0)
  fold_root-map (parent ∷ rest) rows f key =
      let (node, rows') = finalize_branch e rows key f (suc parent.depth) in
      rw (finalize_branch-map enc rows key f (suc parent.depth), attach-map h parent key node)
        (after_attach (map_root h) (attach parent key node) _ _ refl
          (λ b. fold_root-map rest rows' b key))

  pub root_node-map :
      (stack : List (OpenBranch N)) (rows : List (Row N)) (key v : List ℕ)
      → root_node d (map_rows h rows) (map_stack h stack) key v
        ≡ map_root h (root_node e rows stack key v)
  unfolding root_node
  root_node-map [] rows key v = ap some (emit_leaf_rows-map rows [] key v)
  root_node-map (top ∷ rest) rows key v =
      let (node, rows') =
        emit_leaf_rows e rows (take (suc top.depth) key) (drop (suc top.depth) key) v in
      rw (← enc.maps_leaf (drop (suc top.depth) key) v, attach-map h top key node)
        (after_attach (map_root h) (attach top key node) _ _ refl
          (λ b. fold_root-map rest rows' b key))

  insert_at_top-map :
      (stack : List (OpenBranch N)) (rows : List (Row N)) (lcp : ℕ) (key v : List ℕ)
      → insert_at_top d (map_rows h rows) (map_stack h stack) lcp key v
        ≡ map_spine h (insert_at_top e rows stack lcp key v)
  unfolding insert_at_top
  insert_at_top-map [] rows lcp key v = refl
  insert_at_top-map (top ∷ rest) rows lcp key v =
      let (node, rows') =
        emit_leaf_rows e rows (take (suc top.depth) key) (drop (suc top.depth) key) v in
      rw (← enc.maps_leaf (drop (suc top.depth) key) v, attach-map h top key node)
        (after_attach (map_spine h) (attach top key node) _ _ refl (λ b.
          elim (Bool-cases (lcp == top.depth)) [
            | inl t ↦ rw t refl
            | inr t ↦ rw t (fold_to-map rest rows' b lcp key)
          ]))

  below_top-map : (stack : List (OpenBranch N)) → below_top (map_stack h stack) ≡ below_top stack
  below_top-map [] = refl
  below_top-map (f ∷ s) = refl

  pub insert-map :
      (rows : List (Row N)) (stack : List (OpenBranch N)) (prev v key : List ℕ)
      → insert d (map_rows h rows) (map_stack h stack) prev v key
        ≡ map_spine h (insert e rows stack prev v key)
  unfolding insert
  insert-map rows stack prev v key =
      let lcp = common_prefix_len prev key in
      let (node, rows') = emit_leaf_rows e rows (take (suc lcp) prev) (drop (suc lcp) prev) v in
      elim (Bool-cases (leb (below_top stack) lcp)) [
        | inl t ↦
            rw
              (
                below_top-map stack,
                t,
                ← enc.maps_leaf (drop (suc lcp) prev) v,
                new_branch-map enc lcp,
                attach-map h (new_branch e lcp) prev node,
              )
              (push_branch-map h rows' stack (attach (new_branch e lcp) prev node))
        | inr t ↦ rw (below_top-map stack, t) (insert_at_top-map stack rows lcp prev v)
      ]

  abbrev pub map_builder : Builder N → Builder M
  map_builder b = record {
    started = b.started;
    key_len = b.key_len;
    prev_key = b.prev_key;
    prev_val = b.prev_val;
    stack = map_stack h b.stack;
    leaf_count = b.leaf_count;
    rows = map_rows h b.rows;
  }

  abbrev pub map_result : AddResult N → AddResult M
  map_result (added b) = added (map_builder b)
  map_result keys_out_of_order = keys_out_of_order
  map_result key_length_differs = key_length_differs
  map_result index_panic = index_panic

  with_leaf-map :
      (b : Builder N) (key v : List ℕ) (o : Option (List (OpenBranch N) × List (Row N)))
      → with_leaf d (map_builder b) key v (map_spine h o) ≡ map_result (with_leaf e b key v o)
  with_leaf-map b key v none = refl
  with_leaf-map b key v (some (s, rows)) = refl

  if-map :
      (t : Bool) (x y : AddResult N) (x' y' : AddResult M)
      → x' ≡ map_result x
      → y' ≡ map_result y
      → (if t then x' else y') ≡ map_result (if t then x else y)
  if-map true x y x' y' p q = p
  if-map false x y x' y' p q = q

  pub add_leaf-map :
      (b : Builder N) (key v : List ℕ)
      → add_leaf d (map_builder b) key v ≡ map_result (add_leaf e b key v)
  unfolding add_leaf
  add_leaf-map b key v = if-map (not b.started) _ _ _ _ refl (
      if-map (compare_le key b.prev_key) _ _ _ _ refl (
        if-map (not (length key == b.key_len)) _ _ _ _ refl (
          rw (insert-map b.rows b.stack b.prev_key b.prev_val key)
            (with_leaf-map b key v (insert e b.rows b.stack b.prev_key b.prev_val key)))))
