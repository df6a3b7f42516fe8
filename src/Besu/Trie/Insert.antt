-- ===== src/Besu/Trie/Insert.antt =====
-- Insertion keeps the shape and changes the map at one path: branches, and every node.
use state_actor.Prelude.{
  ℕ, suc, ◌≤◌, ◌<◌, ◌≡◌, ◌≢◌, refl, arith, false, none, some, List, [], ◌∷◌, zero, lt→ltb, ◌==◌,
  ==_refl, if◌then◌else◌, Bool-cases, inl, inr,
}
use state_actor.Besu.Trie.{
  Node, null, leaf, extension, branch, set_child, equal_nibbles, insert_node,
}
use state_actor.Besu.Trie.Paths.{IsPath, split}
use state_actor.Besu.Trie.WellFormed.{get, TwoChildren, IsWellFormed}
use state_actor.Besu.Trie.Fork.{Inserted}
use state_actor.Besu.Trie.Leaf.{insert_leaf-Inserted}
use state_actor.Besu.Trie.Extension.{insert_extension-Inserted}

set_child-used :
    (children : ℕ → Node) (x i : ℕ) (t : Node)
    → t ≢ null
    → children i ≢ null
    → set_child children x t i ≢ null
set_child-used children x i t h k = elim (Bool-cases (i == x)) [ inl e ↦ rw e h | inr e ↦ rw e k ]

branch_reads :
    (children : ℕ → Node) (x : ℕ) (path value : List ℕ) (t : Node)
    → ((q : List ℕ) → get t q ≡ (if equal_nibbles path q then some value else get (children x) q))
    → x < 16
    → (q : List ℕ)
    → get (branch (set_child children x t) none) q
      ≡ (if equal_nibbles (x ∷ path) q then some value else get (branch children none) q)
unfolding get equal_nibbles
branch_reads children x path value t reads h [] = refl
branch_reads children x path value t reads h (y ∷ q) = elim (Bool-cases (y == x)) [
  | inl e ↦ let same : y ≡ x = ground arith in rw same (rw (==_refl x, lt→ltb x 16 h) (reads q))
  | inr e ↦ let flip : (x == y) ≡ false = ground arith in rw (e, flip)
]

insert_branch-Inserted :
    (n : ℕ) (children : ℕ → Node) (x : ℕ) (path value : List ℕ)
    → ((i : ℕ) → IsWellFormed n (children i))
    → ((i : ℕ) → 16 ≤ i → children i ≡ null)
    → TwoChildren children
    → x < 16
    → Inserted n (children x) path value (insert_node (children x) path value)
    → Inserted
        (suc n)
        (branch children none)
        (x ∷ path)
        value
        (insert_node (branch children none) (x ∷ path) value)
unfolding insert_node get equal_nibbles
insert_branch-Inserted n children x path value wf high two h inner = record {
  node = branch (set_child children x inner.node) none;
  returned = rw (inner.returned, lt→ltb x 16 h);
  shape = (
    n,
    refl,
    refl,
    λ i. elim (Bool-cases (i == x)) [ inl e ↦ rw e inner.shape | inr e ↦ rw e (wf i) ],
    λ i l. ground (arith, high i l),
    record {
      one = two.one;
      other = two.other;
      one_nibble = two.one_nibble;
      other_nibble = two.other_nibble;
      apart = two.apart;
      one_used = set_child-used children x two.one inner.node inner.used two.one_used;
      other_used = set_child-used children x two.other inner.node inner.used two.other_used;
    },
  );
  used = λ e. cc;
  still_branch = λ b. tt;
  reads = branch_reads children x path value inner.node inner.reads h;
}

-- Insertion of a path of the trie's length into a well-formed trie does not panic.
pub insert_node-Inserted :
    (t : Node) (n : ℕ) (path value : List ℕ)
    → IsWellFormed n t
    → IsPath n path
    → Inserted n t path value (insert_node t path value)
insert_node-Inserted null n path value wf h = record {
  node = leaf path value;
  returned = unfold insert_node in refl;
  shape = h;
  used = λ e. cc;
  still_branch = λ b. absurd b;
  reads = λ q. unfold get in refl;
}
insert_node-Inserted (leaf p v) n path value wf h =
    insert_leaf-Inserted n p v path value (split p path) wf h
insert_node-Inserted (extension p t) n path value (m, size, ne, v, br, wf) h =
    insert_extension-Inserted n m p path value t (split p path) size ne v br wf h
      (λ r hr. insert_node-Inserted t m r value wf hr)
insert_node-Inserted (branch children bv) n [] value (m, size, nv, below, high, two) h = absurd h
insert_node-Inserted (branch children bv) zero (x ∷ path) value (m, size, nv, below, high, two) h =
    absurd (omega arith)
insert_node-Inserted (branch children bv) (suc n) (x ∷ path) value (m, size, nv, below, high, two)
      h =
    let same : m ≡ n = omega arith in
    let below' : (i : ℕ) → IsWellFormed n (children i) = λ i. rw (← same) (below i) in
    rw nv (
      insert_branch-Inserted n children x path value below' high two h.0
        (insert_node-Inserted (children x) n path value (below' x) h.1))
