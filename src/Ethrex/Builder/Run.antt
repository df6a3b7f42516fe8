-- ===== src/Ethrex/Builder/Run.antt =====
-- The builder over a run of accounts in ascending order, next to Besu's resident builder.
use state_actor.Prelude.{
  ℕ, ◌+◌, ◌<◌, ◌≡◌, refl, sym, ap, ◌∙◌, arith, true, false, some, List, [], ◌∷◌, ◌++◌, length, drop,
  ◌==◌, ==_iff, Bool-cases, inl, inr, ltb,
}
use state_actor.Bytes.{Nibbles}
use state_actor.Besu.Trie.{Node, leaf, insert_node}
use state_actor.Ethrex.Builder.{Builder, below_top, compare_le, add_leaf, added, insert}
use state_actor.Ethrex.Builder.Plug.{terminated, tree_encoder, plug, IsSpine}
use state_actor.Ethrex.Builder.Grow.{Grown, Parts}
use state_actor.Ethrex.Builder.Fold.{insert-Grown}

-- Two keys of the same length, the second of them greater, part at a nibble.
pub record Parted (prev key : List ℕ) : Type 0 where
  pub shared : List ℕ
  pub old : ℕ
  pub old_rest : List ℕ
  pub new : ℕ
  pub new_rest : List ℕ
  pub prev_parts : prev ≡ shared ++ (old ∷ old_rest)
  pub key_parts : key ≡ shared ++ (new ∷ new_rest)
  pub parts : Parts shared old old_rest new new_rest

part :
    (prev key : List ℕ)
    → length key ≡ length prev
    → Nibbles prev
    → Nibbles key
    → compare_le key prev ≡ false
    → Parted prev key
unfolding compare_le
part [] [] l n m e = cc
part [] (y ∷ key) l n m e = absurd (omega arith)
part (x ∷ prev) [] l n m e = absurd (omega arith)
part (x ∷ prev) (y ∷ key) l n m e = elim (Bool-cases (y == x)) [
  | inl s ↦
      (let q = part prev key (omega arith) n.1 m.1 (rw s at e) in
        let same = (==_iff y x).0 s in
        record {
          shared = x ∷ q.shared;
          old = q.old;
          old_rest = q.old_rest;
          new = q.new;
          new_rest = q.new_rest;
          prev_parts = ap (λ k. x ∷ k) q.prev_parts;
          key_parts = ap (λ t. t ∷ key) same ∙ ap (λ k. x ∷ k) q.key_parts;
          parts = record {
            shared = (n.0, q.parts.shared);
            rises = q.parts.rises;
            nibble = q.parts.nibble;
          };
        })
  | inr s ↦ record {
    shared = [];
    old = x;
    old_rest = prev;
    new = y;
    new_rest = key;
    prev_parts = refl;
    key_parts = refl;
    parts = record { shared = tt; rises = greater x y s (rw s at e); nibble = m.0 };
  }
]
  where
    greater : (x y : ℕ) → (y == x) ≡ false → ltb y x ≡ false → x < y
    greater x y s e = ground arith

-- The builder stands for the trie `t`.
pub record Holds (size : ℕ) (b : Builder Node) (t : Node) : Type 0 where
  pub running : b.started ≡ true
  pub key_size : b.key_len ≡ size
  pub prev_size : length b.prev_key ≡ size
  pub nibbles : Nibbles b.prev_key
  pub spine : IsSpine b.prev_key b.stack
  pub trie :
      t
      ≡ plug b.stack b.prev_key (leaf (terminated (drop (below_top b.stack) b.prev_key)) b.prev_val)

inserted :
    (b : Builder Node) (key v : List ℕ)
    → Parted b.prev_key key
    → Nibbles b.prev_key
    → IsSpine b.prev_key b.stack
    → Grown key v
        (plug b.stack b.prev_key
          (leaf (terminated (drop (below_top b.stack) b.prev_key)) b.prev_val))
        (insert tree_encoder b.rows b.stack b.prev_key b.prev_val key)
inserted b key v q n h =
    rw (q.key_parts, q.prev_parts)
      (insert-Grown q.parts b.rows b.stack b.prev_val v (rw q.prev_parts at n)
        (rw q.prev_parts at h))

pub add_leaf-Holds :
    (size : ℕ) (b : Builder Node) (t : Node) (key v : List ℕ)
    → Holds size b t
    → length key ≡ size
    → Nibbles key
    → compare_le key b.prev_key ≡ false
    → (b' : Builder Node) × (t' : Node) × (add_leaf tree_encoder b key v ≡ added b')
      × (insert_node t (terminated key) v ≡ some t')
      × Holds size b' t'
      × (b'.prev_key ≡ key)
      × (b'.leaf_count ≡ b.leaf_count + 1)
unfolding add_leaf inserted
add_leaf-Holds size b t key v h l n e =
    let g =
      inserted b key v (part b.prev_key key (omega (arith, h.prev_size)) h.nibbles n e) h.nibbles
        h.spine in
    (
      record {
        started = true;
        key_len = b.key_len;
        prev_key = key;
        prev_val = v;
        stack = g.spine;
        leaf_count = b.leaf_count + 1;
        rows = g.rows;
      },
      plug g.spine key (leaf (terminated (drop (below_top g.spine) key)) v),
      rw (h.running, e, (==_iff (length key) b.key_len).1 (l ∙ sym h.key_size), g.returned) refl,
      rw h.trie g.grows,
      record {
        running = refl;
        key_size = h.key_size;
        prev_size = l;
        nibbles = n;
        spine = g.ordered;
        trie = refl;
      },
      refl,
      refl,
    )
