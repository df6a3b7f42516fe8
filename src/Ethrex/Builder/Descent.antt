-- ===== src/Ethrex/Builder/Descent.antt =====
-- Besu's insertion at a node under a prefix: it descends along the prefix, or forks there.
use mathlib.Core.Path.{fun_ext}
use state_actor.Prelude.{
  ℕ, ◌<◌, ◌≡◌, ◌≢◌, refl, sym, ap, ◌∙◌, none, some, Option, List, [], ◌∷◌, ◌++◌, ◌==◌, ==_refl,
  Bool-cases, lt→ltb, inl, inr,
}
use state_actor.Besu.Trie.{
  Node, null, leaf, extension, branch, set_child, no_children, under_prefix, tail_node, fork,
  with_child, insert_node,
}
use state_actor.Besu.Trie.Leaf.{insert_leaf_diverges}
use state_actor.Besu.Trie.Extension.{insert_extension_diverges, insert_extension_covers}
use state_actor.Ethrex.Builder.Cuts.{common_prefix_len-append, common_prefix_len-fork}

pub with_child-with_child :
    (f g : Node → Node) (o : Option Node)
    → with_child f (with_child g o) ≡ with_child (λ n. f (g n)) o
with_child-with_child f g none = refl
with_child-with_child f g (some n) = refl

set_child_same : (c : ℕ → Node) (i : ℕ) (n : Node) → set_child c i n i ≡ n
set_child_same c i n = rw (==_refl i)

set_child_twice :
    (c : ℕ → Node) (i : ℕ) (n m : Node) (j : ℕ)
    → set_child (set_child c i n) i m j ≡ set_child c i m j
set_child_twice c i n m j = elim (Bool-cases (j == i)) [ inl e ↦ rw e | inr e ↦ rw e ]

set_child_replaces :
    (c : ℕ → Node) (i : ℕ) (n m : Node) → set_child (set_child c i n) i m ≡ set_child c i m
set_child_replaces c i n m = fun_ext (set_child_twice c i n m)

pub under_prefix-eq-tail_node : (s : List ℕ) (t : Node) → under_prefix s t ≡ tail_node s t
under_prefix-eq-tail_node [] t = refl
under_prefix-eq-tail_node (x ∷ s) t = refl

-- A branch under the prefix `s`.
abbrev pub branch_under : List ℕ → (ℕ → Node) → Node
branch_under s c = tail_node s (branch c none)

pub with_child-id : (o : Option Node) → with_child (λ n. n) o ≡ o
with_child-id none = refl
with_child-id (some n) = refl

pub insert_under :
    (s q v : List ℕ) (t : Node)
    → insert_node (tail_node s t) (s ++ q) v ≡ with_child (tail_node s) (insert_node t q v)
insert_under [] q v t = sym (with_child-id (insert_node t q v))
insert_under (x ∷ s) q v t =
    insert_extension_covers (x ∷ s) q v t (common_prefix_len-append (x ∷ s) q)

-- At a branch on the path, its child is replaced.
pub insert_child :
    (c : ℕ → Node) (i : ℕ) (n : Node) (q v : List ℕ)
    → i < 16
    → insert_node (branch (set_child c i n) none) (i ∷ q) v
      ≡ with_child (λ m. branch (set_child c i m) none) (insert_node n q v)
unfolding insert_node
insert_child c i n q v l =
    rw (lt→ltb i 16 l, set_child_same c i n)
      (ap (λ (f : Node → Node). with_child f (insert_node n q v))
        (fun_ext λ m. ap (λ (d : ℕ → Node). branch d none) (set_child_replaces c i n m)))

pub descend :
    (s : List ℕ) (c : ℕ → Node) (i : ℕ) (n : Node) (q v : List ℕ)
    → i < 16
    → insert_node (branch_under s (set_child c i n)) (s ++ (i ∷ q)) v
      ≡ with_child (λ m. branch_under s (set_child c i m)) (insert_node n q v)
descend s c i n q v l =
    insert_under s (i ∷ q) v (branch (set_child c i n) none)
    ∙ ap (with_child (tail_node s)) (insert_child c i n q v l)
    ∙ with_child-with_child (tail_node s) (λ m. branch (set_child c i m) none) (insert_node n q v)

in_empty_slot :
    (c : ℕ → Node) (b : ℕ) (q v : List ℕ)
    → b < 16
    → c b ≡ null
    → insert_node (branch c none) (b ∷ q) v ≡ some (branch (set_child c b (leaf q v)) none)
unfolding insert_node
in_empty_slot c b q v l e = rw (lt→ltb b 16 l, e) refl

-- At an empty slot of a branch, the new leaf.
pub new_child :
    (s : List ℕ) (c : ℕ → Node) (b : ℕ) (q v : List ℕ)
    → b < 16
    → c b ≡ null
    → insert_node (branch_under s c) (s ++ (b ∷ q)) v
      ≡ some (branch_under s (set_child c b (leaf q v)))
new_child s c b q v l e =
    insert_under s (b ∷ q) v (branch c none)
    ∙ ap (with_child (tail_node s)) (in_empty_slot c b q v l e)

-- A fork under the prefix `s`: the old node at `a`, the new leaf at `b`.
abbrev pub forked : List ℕ → ℕ → Node → ℕ → List ℕ → List ℕ → Node
forked s a old b q v = branch_under s (set_child (set_child no_children a old) b (leaf q v))

fork-forked :
    (s : List ℕ) (a b : ℕ) (old : Node) (q v : List ℕ)
    → a < 16
    → b < 16
    → fork s a old b (leaf q v) ≡ some (forked s a old b q v)
unfolding fork
fork-forked s a b old q v h l =
    rw (lt→ltb a 16 h, lt→ltb b 16 l)
      (ap some (
        under_prefix-eq-tail_node s
          (branch (set_child (set_child no_children a old) b (leaf q v)) none)))

pub fork_leaf :
    (s : List ℕ) (a b : ℕ) (r u q v : List ℕ)
    → a ≢ b
    → a < 16
    → b < 16
    → insert_node (leaf (s ++ (a ∷ r)) u) (s ++ (b ∷ q)) v ≡ some (forked s a (leaf r u) b q v)
fork_leaf s a b r u q v ne h l =
    insert_leaf_diverges s a b r q u v ne (common_prefix_len-fork s a b r q ne)
    ∙ fork-forked s a b (leaf r u) q v h l

pub fork_prefix :
    (s : List ℕ) (a b : ℕ) (r : List ℕ) (t : Node) (q v : List ℕ)
    → a ≢ b
    → a < 16
    → b < 16
    → insert_node (tail_node (s ++ (a ∷ r)) t) (s ++ (b ∷ q)) v
      ≡ some (forked s a (tail_node r t) b q v)
fork_prefix s a b r t q v ne h l =
    ap (λ n. insert_node n (s ++ (b ∷ q)) v) (sym (as_extension s a r t))
    ∙ insert_extension_diverges s a b r q v t (common_prefix_len-fork s a b r q ne)
    ∙ fork-forked s a b (tail_node r t) q v h l
  where
    as_extension :
        (s : List ℕ) (a : ℕ) (r : List ℕ) (t : Node)
        → extension (s ++ (a ∷ r)) t ≡ tail_node (s ++ (a ∷ r)) t
    as_extension [] a r t = refl
    as_extension (x ∷ s) a r t = refl
