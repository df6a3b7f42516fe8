-- ===== src/Besu/Trie/Views.antt =====
-- Well-formed tries as views: what they hold, and the two paths below every branch.
use state_actor.Prelude.{
  ℕ, suc, ◌+◌, ◌≤◌, ◌<◌, ◌≡◌, ◌≢◌, refl, ◌∙◌, arith, Option, none, some, List, [], ◌∷◌, ◌++◌,
  length, lt→ltb, ==_refl, ◌==◌, Bool-cases, inl, inr,
}
use state_actor.Besu.Trie.{Node, null, leaf, extension, branch, under_prefix}
use state_actor.Besu.Trie.Paths.{equal_nibbles_refl, along}
use state_actor.Besu.Trie.WellFormed.{get, IsBranch, TwoChildren, IsWellFormed}
use state_actor.Besu.Trie.Extension.{extension_reads}
use state_actor.Besu.Trie.Fork.{get-under_prefix}

-- A well-formed node other than null holds a value.
pub record Holds (t : Node) : Type 0 where
  pub key : List ℕ
  pub value : List ℕ
  pub reads : get t key ≡ some value

module _ (f : List ℕ → Option (List ℕ)) where
  pub along_behind : (c r : List ℕ) → along c none f (c ++ r) ≡ f r
  unfolding along
  along_behind [] r = refl
  along_behind (x ∷ c) r = rw (==_refl x, along_behind c r)

  pub along-some :
      (c q : List ℕ) (w : List ℕ)
      → along c none f q ≡ some w
      → (r : List ℕ) × (q ≡ c ++ r) × (f r ≡ some w)
  unfolding along
  along-some [] q w e = (q, refl, e)
  along-some (x ∷ c) [] w e = cc
  along-some (x ∷ c) (y ∷ q) w e = elim (Bool-cases (x == y)) [
    | inl s ↦
        let same : x ≡ y = ground arith in
        let (r, eq, reads) = along-some c q w (rw s at e) in (r, cc, reads)
    | inr s ↦ cc (rw s at e)
  ]

pub get_child :
    (children : ℕ → Node) (i : ℕ) (q : List ℕ)
    → i < 16
    → get (branch children none) (i ∷ q) ≡ get (children i) q
unfolding get
get_child children i q h = rw (lt→ltb i 16 h)

pub get_behind : (c : List ℕ) (t : Node) (r : List ℕ) → get (under_prefix c t) (c ++ r) ≡ get t r
get_behind c t r = get-under_prefix c t (c ++ r) ∙ along_behind (get t) c r

pub holds : (t : Node) (n : ℕ) → IsWellFormed n t → t ≢ null → Holds t
holds null n wf used = absurd (used refl)
holds (leaf p v) n wf used = record {
  key = p;
  value = v;
  reads = unfold get in rw (equal_nibbles_refl p);
}
holds (extension p t) n (m, size, ne, v, br, wf) used =
    let h = holds t m wf (branch_used t br) in
    record {
      key = p ++ h.key;
      value = h.value;
      reads = extension_reads p t (p ++ h.key) ∙ along_behind (get t) p h.key ∙ h.reads;
    }
  where
    branch_used : (t : Node) → IsBranch t → t ≢ null
    branch_used null b e = b
    branch_used (leaf p v) b e = b
    branch_used (extension p t) b e = b
    branch_used (branch children bv) b e = cc
holds (branch children bv) n (m, size, nv, below, high, two) used =
    let h = holds (children two.one) m (below two.one) two.one_used in
    record {
      key = two.one ∷ h.key;
      value = h.value;
      reads = rw nv (get_child children two.one h.key two.one_nibble ∙ h.reads);
    }

-- The three kinds of well-formed trie: empty, one leaf, or a branch under a prefix.
pub data View (n : ℕ) (t : Node) : Type 0 where
  empty : t ≡ null → View n t
  single : (p v : List ℕ) → t ≡ leaf p v → View n t
  forked :
      (c : List ℕ) (children : ℕ → Node) (m : ℕ)
      → t ≡ under_prefix c (branch children none)
      → n ≡ length c + suc m
      → ((i : ℕ) → IsWellFormed m (children i))
      → ((i : ℕ) → 16 ≤ i → children i ≡ null)
      → TwoChildren children
      → View n t

pub view : (t : Node) (n : ℕ) → IsWellFormed n t → View n t
view null n wf = empty refl
view (leaf p v) n wf = single p v refl
view (extension p null) n (m, size, ne, v, br, wf) = absurd br
view (extension p (leaf q w)) n (m, size, ne, v, br, wf) = absurd br
view (extension p (extension q t)) n (m, size, ne, v, br, wf) = absurd br
view (extension [] (branch children bv)) n (m, size, ne, v, br, wf) = absurd (ne refl)
view (extension (x ∷ p) (branch children bv)) n
      (m, size, ne, v, br, (k, depth, nv, below, high, two)) =
    forked (x ∷ p) children k (rw nv) (omega arith) below high two
view (branch children bv) n (m, size, nv, below, high, two) =
    forked [] children m (rw nv) (omega arith) below high two

pub own_leaf : (p v : List ℕ) → get (leaf p v) p ≡ some v
unfolding get
own_leaf p v = rw (equal_nibbles_refl p)

-- A branch under a prefix holds two paths that part right behind the prefix.
pub record TwoKeys (c : List ℕ) (t : Node) : Type 0 where
  pub one : ℕ
  pub other : ℕ
  pub apart : one ≢ other
  pub one_rest : List ℕ
  pub other_rest : List ℕ
  pub one_value : List ℕ
  pub other_value : List ℕ
  pub one_reads : get t (c ++ (one ∷ one_rest)) ≡ some one_value
  pub other_reads : get t (c ++ (other ∷ other_rest)) ≡ some other_value

pub two_keys :
    (c : List ℕ) (children : ℕ → Node) (m : ℕ)
    → ((i : ℕ) → IsWellFormed m (children i))
    → TwoChildren children
    → TwoKeys c (under_prefix c (branch children none))
two_keys c children m below two =
    let h = holds (children two.one) m (below two.one) two.one_used in
    let k = holds (children two.other) m (below two.other) two.other_used in
    record {
      one = two.one;
      other = two.other;
      apart = two.apart;
      one_rest = h.key;
      other_rest = k.key;
      one_value = h.value;
      other_value = k.value;
      one_reads =
          get_behind c (branch children none) (two.one ∷ h.key)
          ∙ get_child children two.one h.key two.one_nibble
          ∙ h.reads;
      other_reads =
          get_behind c (branch children none) (two.other ∷ k.key)
          ∙ get_child children two.other k.key two.other_nibble
          ∙ k.reads;
    }
