-- ===== src/Ethrex/Builder/Grow.antt =====
-- One new key: the spine that gets a branch at the fork stands for the trie after the insertion.
use state_actor.Prelude.{
  ℕ, suc, ◌≤◌, ◌<◌, ◌≡◌, ◌≢◌, refl, sym, ap, ◌∙◌, arith, none, some, Option, List, [], ◌∷◌, ◌++◌,
  append_assoc, length, length-append, drop, take-append, ==_iff, Bool-cases, inl, inr, ◌==◌,
}
use state_actor.Bytes.{Nibbles}
use state_actor.Besu.Trie.{
  Node, null, leaf, branch, set_child, no_children, with_child, insert_node, leaf_terminator,
}
use state_actor.Ethrex.Builder.{Row, below_top, store_child}
use state_actor.Ethrex.Builder.Cuts.{at, piece, at-behind, drop_within, piece_across, drop-behind}
use state_actor.Ethrex.Builder.Descent.{branch_under, new_child, fork_leaf, fork_prefix}
use state_actor.Ethrex.Builder.Plug.{
  terminated, Spine, plug, IsSpine, plug-prefix, IsSpine-prefix, insert-plug,
}

-- What an insertion of `key` into the trie `old` is to return.
pub record Grown (key value : List ℕ) (old : Node) (o : Option (Spine × List (Row Node)))
    : Type 0 where
  pub spine : Spine
  pub rows : List (Row Node)
  pub returned : o ≡ some (spine, rows)
  pub ordered : IsSpine key spine
  pub grows :
      insert_node old (terminated key) value
      ≡ some (plug spine key (leaf (terminated (drop (below_top spine) key)) value))

-- The previous key and the new one share `p` and then part at `a` and the greater `b`.
pub record Parts (p : List ℕ) (a : ℕ) (x : List ℕ) (b : ℕ) (y : List ℕ) : Type 0 where
  pub shared : Nibbles p
  pub rises : a < b
  pub nibble : b < 16

module _ {p : List ℕ} {a : ℕ} {x : List ℕ} {b : ℕ} {y : List ℕ} (ps : Parts p a x b y) where
  free_above :
      (c : ℕ → Node) (n : Node)
      → ((j : ℕ) → a < j → c j ≡ null)
      → (j : ℕ) → a < j
      → store_child c a n j ≡ null
  free_above c n free j l = elim (Bool-cases (j == a)) [
    | inl e ↦ absurd (omega (arith, (==_iff j a).0 e))
    | inr e ↦ rw e (free j l)
  ]

  -- What a spine whose deepest branch stands at the fork makes of the new leaf.
  plug-new_top :
      (rest : Spine) (c : ℕ → Node) (v : List ℕ)
      → below_top rest ≤ length p
      → IsSpine (p ++ (a ∷ x)) rest
      → plug
          (record { depth = length p; children = c } ∷ rest)
          (p ++ (b ∷ y))
          (leaf (terminated (drop (suc (length p)) (p ++ (b ∷ y)))) v)
        ≡ plug rest p
            (branch_under (drop (below_top rest) p) (set_child c b (leaf (terminated y) v)))
  unfolding plug
  plug-new_top rest c v l h =
      rw (drop-behind p b y, at-behind p b y, take-append p (b ∷ y))
        (plug-prefix (p ++ (a ∷ x)) p (b ∷ y) rest
          (branch_under (drop (below_top rest) p) (set_child c b (leaf (terminated y) v))) h l)

  pub new_top :
      (rest : Spine) (c : ℕ → Node) (n m : Node) (v : List ℕ) (rows : List (Row Node))
      → below_top rest ≤ length p
      → IsSpine (p ++ (a ∷ x)) rest
      → ((j : ℕ) → a < j → c j ≡ null)
      → insert_node m (drop (below_top rest) p ++ (b ∷ terminated y)) v
        ≡ some (
            branch_under
              (drop (below_top rest) p)
              (set_child (set_child c a n) b (leaf (terminated y) v)))
      → Grown
          (p ++ (b ∷ y))
          v
          (plug rest (p ++ (a ∷ x)) m)
          (some (record { depth = length p; children = store_child c a n } ∷ rest, rows))
  new_top rest c n m v rows l h free e = record {
    spine = record { depth = length p; children = store_child c a n } ∷ rest;
    rows = rows;
    returned = refl;
    ordered = (
      omega (arith, length-append p (b ∷ y)),
      l,
      free_beyond,
      IsSpine-prefix p (a ∷ x) (b ∷ y) rest l h,
    );
    grows =
        ap (λ q. insert_node (plug rest (p ++ (a ∷ x)) m) q v)
          (append_assoc p (b ∷ y) (leaf_terminator ∷ []))
        ∙ ap (λ n. insert_node n (p ++ (b ∷ terminated y)) v)
            (plug-prefix (p ++ (a ∷ x)) p (a ∷ x) rest m h l)
        ∙ insert-plug (p ++ (a ∷ x)) p (b ∷ terminated y) v rest m h ps.shared l
        ∙ ap (λ q. with_child (λ n. plug rest p n) (insert_node m q v))
            (drop_within p (b ∷ terminated y) (below_top rest) l)
        ∙ ap (with_child (λ n. plug rest p n)) e
        ∙ ap some (sym (plug-new_top rest (store_child c a n) v l h));
  }
    where
      free_beyond : (j : ℕ) → at (p ++ (b ∷ y)) (length p) < j → store_child c a n j ≡ null
      free_beyond j q = free_above c n free j (omega (arith, at-behind p b y, ps.rises))

  pub apart : a ≢ b
  apart e = absurd (omega (arith, e, ps.rises))

  old_nibble : a < 16
  old_nibble = omega (arith, ps.rises, ps.nibble)

  -- A leaf that is open parts from the new key: a branch of the two.
  pub leaf_parts :
      (rest : Spine) (u v : List ℕ) (rows : List (Row Node))
      → below_top rest ≤ length p
      → IsSpine (p ++ (a ∷ x)) rest
      → Grown
          (p ++ (b ∷ y))
          v
          (plug rest (p ++ (a ∷ x)) (leaf (terminated (drop (below_top rest) (p ++ (a ∷ x)))) u))
          (some (
            record {
              depth = length p;
              children = store_child no_children a (leaf (terminated x) u);
            }
                ∷ rest,
            rows,
          ))
  leaf_parts rest u v rows l h =
      new_top rest no_children (leaf (terminated x) u)
        (leaf (terminated (drop (below_top rest) (p ++ (a ∷ x)))) u) v rows l h (λ j _. refl)
        (ap (λ k. insert_node (leaf k u) (drop (below_top rest) p ++ (b ∷ terminated y)) v)
            (ap terminated (drop_within p (a ∷ x) (below_top rest) l)
              ∙ append_assoc (drop (below_top rest) p) (a ∷ x) (leaf_terminator ∷ []))
          ∙ fork_leaf (drop (below_top rest) p) a b (terminated x) u (terminated y) v apart
              old_nibble ps.nibble)

  -- A branch at the fork takes the new leaf.
  pub branch_takes :
      (rest : Spine) (c : ℕ → Node) (n : Node) (v : List ℕ) (rows : List (Row Node))
      → below_top rest ≤ length p
      → IsSpine (p ++ (a ∷ x)) rest
      → ((j : ℕ) → a < j → c j ≡ null)
      → Grown
          (p ++ (b ∷ y))
          v
          (plug rest
            (p ++ (a ∷ x))
            (branch_under (piece (below_top rest) (length p) (p ++ (a ∷ x))) (set_child c a n)))
          (some (record { depth = length p; children = store_child c a n } ∷ rest, rows))
  branch_takes rest c n v rows l h free = rw (take-append p (a ∷ x)) (
      new_top rest c n (branch_under (drop (below_top rest) p) (set_child c a n)) v rows l h free (
        new_child (drop (below_top rest) p) (set_child c a n) b (terminated y) v ps.nibble
          (free_above c n free b ps.rises)))

  -- A closed branch below the fork parts from the new key within the prefix above it.
  pub prefix_parts :
      (rest : Spine) (c : ℕ → Node) (d : ℕ) (v : List ℕ) (rows : List (Row Node))
      → below_top rest ≤ length p
      → length p < d
      → IsSpine (p ++ (a ∷ x)) rest
      → Grown
          (p ++ (b ∷ y))
          v
          (plug rest (p ++ (a ∷ x)) (branch_under (piece (below_top rest) d (p ++ (a ∷ x))) c))
          (some (
            record {
              depth = length p;
              children =
                  store_child no_children a
                    (branch_under (piece (suc (length p)) d (p ++ (a ∷ x))) c);
            }
                ∷ rest,
            rows,
          ))
  prefix_parts rest c d v rows l q h =
      let low = branch_under (piece (suc (length p)) d (p ++ (a ∷ x))) c in
      new_top rest no_children low (branch_under (piece (below_top rest) d (p ++ (a ∷ x))) c) v rows
        l h (λ j _. refl)
        (ap (λ s. insert_node (branch_under s c) (drop (below_top rest) p ++ (b ∷ terminated y)) v)
            (piece_across p a x (below_top rest) d l q)
          ∙ fork_prefix (drop (below_top rest) p) a b (piece (suc (length p)) d (p ++ (a ∷ x)))
              (branch c none) (terminated y) v apart old_nibble ps.nibble)
