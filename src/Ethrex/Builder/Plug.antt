-- ===== src/Ethrex/Builder/Plug.antt =====
-- The builder run on Besu's trie in memory, and the trie that its spine stands for: the open node is
-- hung into the branches of the stack, the deepest first, each under the piece of the key above it.
use state_actor.Prelude.{
  ℕ, suc, ◌≤◌, ◌<◌, ◌≡◌, refl, sym, ap, ◌∙◌, arith, none, List, [], ◌∷◌, ◌++◌, length, drop,
  length-append,
}
use state_actor.Bytes.{Nibbles}
use state_actor.Besu.Trie.{
  Node, null, leaf, extension, branch, set_child, leaf_terminator, with_child, insert_node,
}
use state_actor.Ethrex.Builder.{NodeEncoder, OpenBranch, below_top}
use state_actor.Ethrex.Builder.Cuts.{at, piece, at-append, at-lt, take_within, cut}
use state_actor.Ethrex.Builder.Descent.{branch_under, descend, with_child-with_child, with_child-id}

-- Besu ends a path by a terminator where ethrex flags the compact form.
abbrev pub terminated : List ℕ → List ℕ
terminated path = path ++ (leaf_terminator ∷ [])

abbrev pub tree_encoder : NodeEncoder Node
tree_encoder = record {
  absent = null;
  leaf_node = λ path value. leaf (terminated path) value;
  extension_node = extension;
  branch_node = λ children. branch children none;
}

abbrev pub Spine : Type 0
Spine = List (OpenBranch Node)

unfoldable pub plug : Spine → List ℕ → Node → Node
plug [] key n = n
plug (f ∷ rest) key n =
    plug rest key
      (branch_under (piece (below_top rest) f.depth key) (set_child f.children (at key f.depth) n))

-- The branches lie within the key, one below another, with no child beyond the key.
abbrev pub IsSpine : List ℕ → Spine → Type 0
IsSpine key [] = Unit
IsSpine key (f ∷ rest) =
    (f.depth < length key)
    × (below_top rest ≤ f.depth)
    × ((j : ℕ) → at key f.depth < j → f.children j ≡ null)
    × IsSpine key rest

-- A spine above the end of `p` reads of its key no more than `p`.
pub plug-prefix :
    (key p y : List ℕ) (s : Spine) (n : Node)
    → IsSpine key s
    → below_top s ≤ length p
    → plug s (p ++ y) n ≡ plug s p n
unfolding plug
plug-prefix key p y [] n h l = refl
plug-prefix key p y (f ∷ rest) n h l =
    let (_, above, _, lower) = h in
    rw (at-append p y f.depth (omega arith), take_within p y f.depth (omega arith))
      (plug-prefix key p y rest
        (branch_under (piece (below_top rest) f.depth p) (set_child f.children (at p f.depth) n))
        lower (omega arith))

pub IsSpine-prefix :
    (p x y : List ℕ) (s : Spine) → below_top s ≤ length p → IsSpine (p ++ x) s → IsSpine (p ++ y) s
IsSpine-prefix p x y [] l h = tt
IsSpine-prefix p x y (f ∷ rest) l (_, above, free, lower) =
    let same : at (p ++ y) f.depth ≡ at (p ++ x) f.depth =
      at-append p y f.depth (omega arith) ∙ sym (at-append p x f.depth (omega arith)) in
    (
      omega (arith, length-append p y),
      above,
      λ j q. free j (rw same at q),
      IsSpine-prefix p x y rest (omega arith) lower,
    )

-- Insertion descends along the spine to the open node.
pub insert-plug :
    (key p y v : List ℕ) (s : Spine) (n : Node)
    → IsSpine key s
    → Nibbles p
    → below_top s ≤ length p
    → insert_node (plug s p n) (p ++ y) v
      ≡ with_child (λ m. plug s p m) (insert_node n (drop (below_top s) (p ++ y)) v)
unfolding plug
insert-plug key p y v [] n h b l = sym (with_child-id (insert_node n (p ++ y) v))
insert-plug key p y v (f ∷ rest) n (_, above, free, lower) b l =
    let here = piece (below_top rest) f.depth p in
    let i = at p f.depth in
    let behind = drop (suc f.depth) (p ++ y) in
    insert-plug key p y v rest (branch_under here (set_child f.children i n)) lower b (omega arith)
    ∙ ap
        (λ q.
          with_child (λ m. plug rest p m)
            (insert_node (branch_under here (set_child f.children i n)) q v))
        (cut p y (below_top rest) f.depth above (omega arith))
    ∙ ap (with_child (λ m. plug rest p m))
        (descend here f.children i n behind v (at-lt p f.depth b (omega arith)))
    ∙ with_child-with_child (λ m. plug rest p m) (λ m. branch_under here (set_child f.children i m))
        (insert_node n behind v)
