-- ===== src/Besu/Trie/Extension.antt =====
-- Insertion at an extension.
use state_actor.Prelude.{
  ℕ, suc, ◌+◌, ◌≡◌, ◌≢◌, refl, sym, ap, ◌∙◌, arith, false, none, some, List, [], ◌∷◌, ◌++◌, length,
  length-append, take-append, drop-append, zero, ◌==◌, ==_refl,
}
use mathlib.Core.Path.{fun_ext}
use state_actor.Bytes.{Nibbles}
use state_actor.Ethrex.Nibbles.{common_prefix_len}
use state_actor.Besu.Trie.{
  Node, null, leaf, extension, branch, equal_nibbles, fork, tail_node, insert_node, with_child,
}
use state_actor.Besu.Trie.Paths.{
  IsPath, Split, covers, within, diverges, along, along-append, along-if, equal_nibbles-append,
}
use state_actor.Besu.Trie.WellFormed.{get, IsBranch, IsWellFormed}
use state_actor.Besu.Trie.Fork.{Inserted, fork-Inserted}

pub extension_reads :
    (p : List ℕ) (t : Node) (q : List ℕ) → get (extension p t) q ≡ along p none (get t) q
unfolding get
extension_reads p t q = refl

-- An extension that the new path leaves.
get_extension_behind :
    (c : List ℕ) (a : ℕ) (r : List ℕ) (t : Node) (q : List ℕ)
    → get (extension (c ++ (a ∷ r)) t) q
      ≡ along c none (along (a ∷ []) none (get (tail_node r t))) q
unfolding get along
get_extension_behind c a [] t q = along-append c (a ∷ []) none (get t) q
get_extension_behind c a (x ∷ r) t q =
    along-append c (a ∷ x ∷ r) none (get t) q
    ∙ ap (λ f. along c none f q) (fun_ext (λ u. along-append (a ∷ []) (x ∷ r) none (get t) u))

longer : (c : List ℕ) (a : ℕ) (r : List ℕ) → (length c == length (c ++ (a ∷ r))) ≡ false
longer c a r = ground (arith, length-append c (a ∷ r))

pub insert_extension_diverges :
    (c : List ℕ) (a b : ℕ) (r s value : List ℕ) (t : Node)
    → common_prefix_len (c ++ (a ∷ r)) (c ++ (b ∷ s)) ≡ length c
    → insert_node (extension (c ++ (a ∷ r)) t) (c ++ (b ∷ s)) value
      ≡ fork c a (tail_node r t) b (leaf s value)
unfolding insert_node
insert_extension_diverges c a b r s value t e =
    rw (e, longer c a r, take-append c (a ∷ r), drop-append c (a ∷ r), drop-append c (b ∷ s))

pub insert_extension_covers :
    (p r value : List ℕ) (t : Node)
    → common_prefix_len p (p ++ r) ≡ length p
    → insert_node (extension p t) (p ++ r) value ≡ with_child (extension p) (insert_node t r value)
unfolding insert_node
insert_extension_covers p r value t e = rw (e, drop-append p r, ==_refl (length p))

IsPath-behind : (n k : ℕ) (c s : List ℕ) → n ≡ length c + k → IsPath n (c ++ s) → IsPath k s
IsPath-behind n k [] s e h = let same : k ≡ n = omega arith in rw same h
IsPath-behind zero k (x ∷ c) s e h = absurd (omega arith)
IsPath-behind (suc n) k (x ∷ c) s e h = IsPath-behind n k c s (omega arith) h.1

no_terminator : (n : ℕ) (q r : List ℕ) → Nibbles (q ++ r) → IsPath n q → ⊥
no_terminator n [] r v h = h
no_terminator zero (x ∷ q) r v h = omega (arith, h.0)
no_terminator (suc n) (x ∷ q) r v h = no_terminator n q r v.1 h.1

Nibbles-parts : (c r : List ℕ) → Nibbles (c ++ r) → Nibbles c × Nibbles r
Nibbles-parts [] r v = (tt, v)
Nibbles-parts (x ∷ c) r v = let (front, back) = Nibbles-parts c r v.1 in ((v.0, front), back)

tail_node-IsWellFormed :
    (m : ℕ) (r : List ℕ) (t : Node)
    → Nibbles r
    → IsBranch t
    → IsWellFormed m t
    → IsWellFormed (length r + m) (tail_node r t)
tail_node-IsWellFormed m [] t v b wf = let same : 0 + m ≡ m = omega arith in rw same wf
tail_node-IsWellFormed m (x ∷ r) t v b wf = (m, refl, λ h. cc, v, b, wf)

tail_node-used : (r : List ℕ) (t : Node) → IsBranch t → tail_node r t ≢ null
tail_node-used [] null b e = b
tail_node-used [] (leaf p v) b e = b
tail_node-used [] (extension p t) b e = b
tail_node-used [] (branch children bv) b e = cc
tail_node-used (x ∷ r) t b e = cc

insert_extension_forks :
    (m : ℕ) (c : List ℕ) (a b : ℕ) (r s value : List ℕ) (t : Node)
    → a ≢ b
    → common_prefix_len (c ++ (a ∷ r)) (c ++ (b ∷ s)) ≡ length c
    → Nibbles (c ++ (a ∷ r))
    → IsBranch t
    → IsWellFormed m t
    → (n : ℕ) → n ≡ length (c ++ (a ∷ r)) + m
    → IsPath n (c ++ (b ∷ s))
    → Inserted n
        (extension (c ++ (a ∷ r)) t)
        (c ++ (b ∷ s))
        value
        (insert_node (extension (c ++ (a ∷ r)) t) (c ++ (b ∷ s)) value)
insert_extension_forks m c a b r s value t ne l v br wf n size path =
    let (front, back) = Nibbles-parts c (a ∷ r) v in
    let whole : n ≡ length c + suc (length r + m) = omega (arith, length-append c (a ∷ r)) in
    let rest = IsPath-behind n (suc (length r + m)) c (b ∷ s) whole path in
    rw (insert_extension_diverges c a b r s value t l) (
      fork-Inserted n (length r + m) c a b (tail_node r t) (extension (c ++ (a ∷ r)) t) s value
        whole front back.0 rest.0 ne (tail_node-used r t br)
        (tail_node-IsWellFormed m r t back.1 br wf) rest.1 (λ h. h) (get_extension_behind c a r t))

insert_extension_descends :
    (n m : ℕ) (p r value : List ℕ) (t : Node)
    → n ≡ length p + m
    → p ≢ []
    → Nibbles p
    → IsBranch t
    → common_prefix_len p (p ++ r) ≡ length p
    → Inserted m t r value (insert_node t r value)
    → Inserted n (extension p t) (p ++ r) value (insert_node (extension p t) (p ++ r) value)
insert_extension_descends n m p r value t size ne v br l inner = record {
  node = extension p inner.node;
  returned = insert_extension_covers p r value t l ∙ ap (with_child (extension p)) inner.returned;
  shape = (m, size, ne, v, inner.still_branch br, inner.shape);
  used = λ e. cc;
  still_branch = λ h. absurd h;
  reads = λ q.
      extension_reads p inner.node q
      ∙ ap (λ f. along p none f q) (fun_ext inner.reads)
      ∙ sym (along-if p (equal_nibbles r) (some value) (get t) q)
      ∙ rw (equal_nibbles-append p r q, extension_reads p t q);
}

pub insert_extension-Inserted :
    (n m : ℕ) (p path value : List ℕ) (t : Node)
    → Split p path
    → n ≡ length p + m
    → p ≢ []
    → Nibbles p
    → IsBranch t
    → IsWellFormed m t
    → IsPath n path
    → ((r : List ℕ) → IsPath m r → Inserted m t r value (insert_node t r value))
    → Inserted n (extension p t) path value (insert_node (extension p t) path value)
insert_extension-Inserted n m p path value t (covers r e l) size ne v br wf h inner = rw e (
    insert_extension_descends n m p r value t size ne v br (rw e at l)
      (inner r (IsPath-behind n m p r size (rw e at h))))
insert_extension-Inserted n m p path value t (within x r e l) size ne v br wf h inner =
    absurd (no_terminator n path (x ∷ r) (rw e at v) h)
insert_extension-Inserted n m p path value t (diverges c a b r s ne' e f l) size ne v br wf h
      inner =
    rw (e, f)
      (insert_extension_forks m c a b r s value t ne' (rw (e, f) at l) (rw e at v) br wf n
        (rw e at size) (rw f at h))
