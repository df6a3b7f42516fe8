-- ===== src/Besu/Trie/Fork.antt =====
-- What an insertion promises, and the fork that it makes where two paths part.
use state_actor.Prelude.{
  ℕ, suc, ◌+◌, ◌<◌, ◌≡◌, ◌≢◌, refl, sym, ap, ◌∙◌, arith, Option, none, some, List, [], ◌∷◌, ◌++◌,
  length, ◌==◌, if◌then◌else◌, Bool-cases, inl, inr,
}
use mathlib.Core.Path.{fun_ext}
use state_actor.Bytes.{Nibbles}
use state_actor.Besu.Trie.{
  Node, null, leaf, extension, branch, no_children, set_child, equal_nibbles, under_prefix, fork,
}
use state_actor.Besu.Trie.Paths.{IsPath, along, along-if, equal_nibbles-append}
use state_actor.Besu.Trie.WellFormed.{get, IsBranch, IsWellFormed}

-- The result of an insertion into `t` of `value` at `path`.
pub record Inserted (n : ℕ) (t : Node) (path value : List ℕ) (out : Option Node) : Type 0 where
  pub node : Node
  pub returned : out ≡ some node
  pub shape : IsWellFormed n node
  pub used : node ≢ null
  pub still_branch : IsBranch t → IsBranch node
  pub reads : (q : List ℕ) → get node q ≡ (if equal_nibbles path q then some value else get t q)

-- The branch of a fork.
abbrev pair_of : ℕ → Node → ℕ → Node → Node
pair_of i old j new = branch (set_child (set_child no_children i old) j new) none

get-pair_of :
    (a b : ℕ) (old : Node) (s value : List ℕ) (q : List ℕ)
    → a < 16
    → b < 16
    → a ≢ b
    → get (pair_of a old b (leaf s value)) q
      ≡ (if equal_nibbles (b ∷ s) q then some value else along (a ∷ []) none (get old) q)
unfolding get equal_nibbles along
get-pair_of a b old s value [] ha hb ne = refl
get-pair_of a b old s value (x ∷ q) ha hb ne = ground arith

pair_of-IsWellFormed :
    (n a b : ℕ) (old : Node) (s value : List ℕ)
    → a < 16
    → b < 16
    → a ≢ b
    → old ≢ null
    → IsWellFormed n old
    → IsPath n s
    → IsWellFormed (suc n) (pair_of a old b (leaf s value))
pair_of-IsWellFormed n a b old s value ha hb ne used wf path = (
  n,
  refl,
  refl,
  λ i. below i,
  λ i h. ground arith,
  record {
    one = a;
    other = b;
    one_nibble = ha;
    other_nibble = hb;
    apart = ne;
    one_used = ground arith;
    other_used = ground arith;
  },
)
  where
    below : (i : ℕ) → IsWellFormed n (set_child (set_child no_children a old) b (leaf s value) i)
    below i = elim (Bool-cases (i == b)) [
      | inl e ↦ rw e path
      | inr e ↦ elim (Bool-cases (i == a)) [ inl f ↦ rw e (rw f wf) | inr f ↦ rw e (rw f tt) ]
    ]

pub get-under_prefix :
    (c : List ℕ) (t : Node) (q : List ℕ) → get (under_prefix c t) q ≡ along c none (get t) q
unfolding get along
get-under_prefix [] t q = refl
get-under_prefix (x ∷ c) t q = refl

under_prefix-IsWellFormed :
    (n m : ℕ) (c : List ℕ) (t : Node)
    → n ≡ length c + m
    → Nibbles c
    → IsBranch t
    → IsWellFormed m t
    → IsWellFormed n (under_prefix c t)
under_prefix-IsWellFormed n m [] t e v b wf = let same : n ≡ m = omega arith in rw same wf
under_prefix-IsWellFormed n m (x ∷ c) t e v b wf = (m, e, λ h. cc, v, b, wf)

under_prefix-used : (c : List ℕ) (t : Node) → IsBranch t → under_prefix c t ≢ null
under_prefix-used [] null b e = b
under_prefix-used [] (leaf p v) b e = b
under_prefix-used [] (extension p t) b e = b
under_prefix-used [] (branch children bv) b e = cc
under_prefix-used (x ∷ c) t b e = cc

-- Behind the prefix `c` the old node hangs at nibble `a`, and the new leaf goes to `b`.
pub fork-Inserted :
    (n m : ℕ) (c : List ℕ) (a b : ℕ) (old t : Node) (s value : List ℕ)
    → n ≡ length c + suc m
    → Nibbles c
    → a < 16
    → b < 16
    → a ≢ b
    → old ≢ null
    → IsWellFormed m old
    → IsPath m s
    → (IsBranch t → ⊥)
    → ((q : List ℕ) → get t q ≡ along c none (along (a ∷ []) none (get old)) q)
    → Inserted n t (c ++ (b ∷ s)) value (fork c a old b (leaf s value))
unfolding fork
fork-Inserted n m c a b old t s value size v ha hb ne used wf path no_branch reads = record {
  node = under_prefix c (pair_of a old b (leaf s value));
  returned = ground arith;
  shape =
      under_prefix-IsWellFormed n (suc m) c (pair_of a old b (leaf s value)) size v tt
        (pair_of-IsWellFormed m a b old s value ha hb ne used wf path);
  used = under_prefix-used c (pair_of a old b (leaf s value)) tt;
  still_branch = λ h. absurd (no_branch h);
  reads = λ q.
      get-under_prefix c (pair_of a old b (leaf s value)) q
      ∙ ap (λ f. along c none f q) (fun_ext (λ r. get-pair_of a b old s value r ha hb ne))
      ∙ sym (along-if c (equal_nibbles (b ∷ s)) (some value) (along (a ∷ []) none (get old)) q)
      ∙ rw (equal_nibbles-append c (b ∷ s) q, reads q);
}
