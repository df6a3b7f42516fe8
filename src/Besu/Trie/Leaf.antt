-- ===== src/Besu/Trie/Leaf.antt =====
-- Insertion at a leaf.
use state_actor.Prelude.{
  ℕ, ◌≡◌, ◌≢◌, refl, ◌∙◌, arith, false, none, List, [], ◌∷◌, ◌++◌, append-nil, length, take-append,
  drop-append,
}
use state_actor.Ethrex.Nibbles.{common_prefix_len}
use state_actor.Besu.Trie.{leaf, equal_nibbles, fork, insert_node}
use state_actor.Besu.Trie.Paths.{
  IsPath, equal_nibbles_refl, Split, covers, within, diverges, parting, IsPath-ends, along,
}
use state_actor.Besu.Trie.WellFormed.{get}
use state_actor.Besu.Trie.Fork.{Inserted, fork-Inserted}

get_leaf_behind :
    (c : List ℕ) (a : ℕ) (r v : List ℕ) (q : List ℕ)
    → get (leaf (c ++ (a ∷ r)) v) q ≡ along c none (along (a ∷ []) none (get (leaf r v))) q
unfolding get along equal_nibbles
get_leaf_behind [] a r v [] = refl
get_leaf_behind [] a r v (y ∷ q) = ground arith
get_leaf_behind (x ∷ c) a r v [] = refl
get_leaf_behind (x ∷ c) a r v (y ∷ q) = ground (arith, get_leaf_behind c a r v q)

not_equal :
    (c : List ℕ) (a b : ℕ) (r s : List ℕ)
    → a ≢ b
    → equal_nibbles (c ++ (a ∷ r)) (c ++ (b ∷ s)) ≡ false
unfolding equal_nibbles
not_equal [] a b r s ne = ground arith
not_equal (x ∷ c) a b r s ne = ground (arith, not_equal c a b r s ne)

pub insert_leaf_diverges :
    (c : List ℕ) (a b : ℕ) (r s v value : List ℕ)
    → a ≢ b
    → common_prefix_len (c ++ (a ∷ r)) (c ++ (b ∷ s)) ≡ length c
    → insert_node (leaf (c ++ (a ∷ r)) v) (c ++ (b ∷ s)) value
      ≡ fork c a (leaf r v) b (leaf s value)
unfolding insert_node
insert_leaf_diverges c a b r s v value ne e =
    rw (
      not_equal c a b r s ne,
      e,
      take-append c (a ∷ r),
      drop-append c (a ∷ r),
      drop-append c (b ∷ s),
    )

insert_leaf_forks :
    (n : ℕ) (c : List ℕ) (a b : ℕ) (r s v value : List ℕ)
    → a ≢ b
    → common_prefix_len (c ++ (a ∷ r)) (c ++ (b ∷ s)) ≡ length c
    → IsPath n (c ++ (a ∷ r))
    → IsPath n (c ++ (b ∷ s))
    → Inserted n
        (leaf (c ++ (a ∷ r)) v)
        (c ++ (b ∷ s))
        value
        (insert_node (leaf (c ++ (a ∷ r)) v) (c ++ (b ∷ s)) value)
insert_leaf_forks n c a b r s v value ne l hp hq =
    let p = parting n c a b r s ne hp hq in
    rw (insert_leaf_diverges c a b r s v value ne l) (
      fork-Inserted n p.left c a b (leaf r v) (leaf (c ++ (a ∷ r)) v) s value p.size p.shared
        p.old_nibble p.new_nibble ne (λ e. cc) p.old_rest p.new_rest (λ h. h) reads)
  where
    reads :
        (q : List ℕ)
        → get (leaf (c ++ (a ∷ r)) v) q ≡ along c none (along (a ∷ []) none (get (leaf r v))) q
    reads q = get_leaf_behind c a r v q

insert_same_leaf :
    (n : ℕ) (p v value : List ℕ)
    → IsPath n p
    → Inserted n (leaf p v) p value (insert_node (leaf p v) p value)
unfolding insert_node get
insert_same_leaf n p v value h = record {
  node = leaf p value;
  returned = rw (equal_nibbles_refl p);
  shape = h;
  used = λ e. cc;
  still_branch = λ b. b;
  reads = λ q. ground arith;
}

pub insert_leaf-Inserted :
    (n : ℕ) (p v path value : List ℕ)
    → Split p path
    → IsPath n p
    → IsPath n path
    → Inserted n (leaf p v) path value (insert_node (leaf p v) path value)
insert_leaf-Inserted n p v path value (covers [] e l) hp hq =
    let same : path ≡ p = e ∙ append-nil p in rw same (insert_same_leaf n p v value hp)
insert_leaf-Inserted n p v path value (covers (x ∷ r) e l) hp hq =
    absurd (IsPath-ends n p x r (rw e at hq) hp)
insert_leaf-Inserted n p v path value (within x r e l) hp hq =
    absurd (IsPath-ends n path x r (rw e at hp) hq)
insert_leaf-Inserted n p v path value (diverges c a b r s ne e f l) hp hq =
    rw (e, f) (insert_leaf_forks n c a b r s v value ne (rw (e, f) at l) (rw e at hp) (rw f at hq))
