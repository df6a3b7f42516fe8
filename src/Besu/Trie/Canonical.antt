-- ===== src/Besu/Trie/Canonical.antt =====
-- A well-formed trie is determined by the map that it stands for.
use state_actor.Prelude.{
  ℕ, zero, suc, ◌≤◌, ◌<◌, ◌≡◌, ◌≢◌, refl, sym, ap, ◌∙◌, arith, none, some, List, [], ◌∷◌, ◌++◌,
  length, Bool-cases, inl, inr,
}
use mathlib.Core.Path.{fun_ext}
use native.Mathlib.Decide.{dec_lt}
use state_actor.Besu.Trie.{Node, null, leaf, extension, branch, equal_nibbles, under_prefix}
use state_actor.Besu.Trie.Paths.{equal_nibbles_iff}
use state_actor.Besu.Trie.WellFormed.{get, IsWellFormed}
use state_actor.Besu.Trie.Fork.{get-under_prefix}
use state_actor.Besu.Trie.Views.{
  along-some, get_child, get_behind, holds, view, own_leaf, two_keys, View, TwoKeys, empty, single,
  forked,
}

abbrev SameMap : Node → Node → Type 0
SameMap t u = (q : List ℕ) → get t q ≡ get u q

get_null : (q v : List ℕ) → get null q ≡ some v → ⊥
unfolding get
get_null q v e = cc

get_leaf : (p w q v : List ℕ) → get (leaf p w) q ≡ some v → (p ≡ q) × (w ≡ v)
unfolding get
get_leaf p w q v e = elim (Bool-cases (equal_nibbles p q)) [
  | inl same ↦ ((equal_nibbles_iff p q).0 same, cc (rw same at e))
  | inr other ↦ cc (rw other at e)
]

heads_differ :
    (c : List ℕ) (i j : ℕ) (r s p : List ℕ) → i ≢ j → p ≡ c ++ (i ∷ r) → p ≡ c ++ (j ∷ s) → ⊥
heads_differ [] i j r s p ne e f = ne (cc)
heads_differ (x ∷ c) i j r s [] ne e f = cc
heads_differ (x ∷ c) i j r s (y ∷ p) ne e f = heads_differ c i j r s p ne (cc) (cc)

one_leaf : (c : List ℕ) (t : Node) (p v : List ℕ) → TwoKeys c t → SameMap t (leaf p v) → ⊥
one_leaf c t p v k same =
    let (e, x) =
      get_leaf p v (c ++ (k.one ∷ k.one_rest)) k.one_value (sym (same _) ∙ k.one_reads) in
    let (f, y) =
      get_leaf p v (c ++ (k.other ∷ k.other_rest)) k.other_value (sym (same _) ∙ k.other_reads) in
    heads_differ c k.one k.other k.one_rest k.other_rest p k.apart e f

-- A prefix of two paths that part behind `c` is no longer than `c`.
prefix_within :
    (c d : List ℕ) (i j : ℕ) (r s x y : List ℕ)
    → i ≢ j
    → c ++ (i ∷ r) ≡ d ++ x
    → c ++ (j ∷ s) ≡ d ++ y
    → length d ≤ length c
prefix_within c [] i j r s x y ne e f = omega arith
prefix_within [] (a ∷ d) i j r s x y ne e f = absurd (ne (cc))
prefix_within (b ∷ c) (a ∷ d) i j r s x y ne e f =
    omega (arith, prefix_within c d i j r s x y ne (cc) (cc))

same_prefix : (c d : List ℕ) (x y : List ℕ) → length c ≡ length d → c ++ x ≡ d ++ y → c ≡ d
same_prefix [] [] x y l e = refl
same_prefix [] (b ∷ d) x y l e = absurd (omega arith)
same_prefix (a ∷ c) [] x y l e = absurd (omega arith)
same_prefix (a ∷ c) (b ∷ d) x y l e = cc (same_prefix c d x y (omega arith) (cc))

shorter_prefix :
    (c d : List ℕ) (t w : Node)
    → TwoKeys c t
    → SameMap t (under_prefix d w)
    → (bound : length d ≤ length c) × (x : List ℕ) × (y : List ℕ) × (c ++ x ≡ d ++ y)
shorter_prefix c d t w k same =
    let (x, ex, _) =
      along-some (get w) d (c ++ (k.one ∷ k.one_rest)) k.one_value
        (sym (get-under_prefix d w _) ∙ sym (same _) ∙ k.one_reads) in
    let (y, ey, _) =
      along-some (get w) d (c ++ (k.other ∷ k.other_rest)) k.other_value
        (sym (get-under_prefix d w _) ∙ sym (same _) ∙ k.other_reads) in
    (
      prefix_within c d k.one k.other k.one_rest k.other_rest x y k.apart ex ey,
      k.one ∷ k.one_rest,
      x,
      ex,
    )

SameMap-sym : (t u : Node) → SameMap t u → SameMap u t
SameMap-sym t u same = λ q. sym (same q)

null_only : (u : Node) (n : ℕ) → IsWellFormed n u → SameMap null u → u ≡ null
null_only null n wf same = refl
null_only (leaf p v) n wf same =
    let h = holds (leaf p v) n wf (λ e. cc) in
    absurd (get_null h.key h.value (same h.key ∙ h.reads))
null_only (extension p t) n wf same =
    let h = holds (extension p t) n wf (λ e. cc) in
    absurd (get_null h.key h.value (same h.key ∙ h.reads))
null_only (branch children bv) n wf same =
    let h = holds (branch children bv) n wf (λ e. cc) in
    absurd (get_null h.key h.value (same h.key ∙ h.reads))

same_leaf : (p v q w : List ℕ) → SameMap (leaf p v) (leaf q w) → leaf p v ≡ leaf q w
same_leaf p v q w same = let (e, f) = get_leaf q w p v (sym (same p) ∙ own_leaf p v) in cc (e, f)

same_children :
    (n m : ℕ) (children others : ℕ → Node)
    → ((i : ℕ) → 16 ≤ i → children i ≡ null)
    → ((i : ℕ) → 16 ≤ i → others i ≡ null)
    → ((i : ℕ) → i < 16 → SameMap (children i) (others i))
    → ((i : ℕ) → SameMap (children i) (others i) → children i ≡ others i)
    → children ≡ others
same_children n m children others high high' same ih = fun_ext λ i. elim (dec_lt i 16) [
  | yes h ↦ ih i (same i h)
  | no h ↦ high i (omega arith) ∙ sym (high' i (omega arith))
]

same_below :
    (c : List ℕ) (children others : ℕ → Node)
    → SameMap (under_prefix c (branch children none)) (under_prefix c (branch others none))
    → (i : ℕ) → i < 16
    → SameMap (children i) (others i)
same_below c children others same i h = λ q.
    sym (get_child children i q h)
    ∙ sym (get_behind c (branch children none) (i ∷ q))
    ∙ same (c ++ (i ∷ q))
    ∙ get_behind c (branch others none) (i ∷ q)
    ∙ get_child others i q h

abbrev Determined : ℕ → Type 0
Determined m = (a b : Node) → IsWellFormed m a → IsWellFormed m b → SameMap a b → a ≡ b

same_views :
    (n : ℕ) (t u : Node)
    → IsWellFormed n t
    → IsWellFormed n u
    → SameMap t u
    → View n t
    → View n u
    → ((m : ℕ) → m < n → Determined m)
    → t ≡ u
same_views n t u wf wf' same (empty e) v ih = e ∙ sym (null_only u n wf' (rw e at same))
same_views n t u wf wf' same (single p v e) (empty f) ih =
    null_only t n wf (rw f at (SameMap-sym t u same)) ∙ sym f
same_views n t u wf wf' same (forked c children m e size below high two) (empty f) ih =
    null_only t n wf (rw f at (SameMap-sym t u same)) ∙ sym f
same_views n t u wf wf' same (single p v e) (single q w f) ih =
    e ∙ same_leaf p v q w (rw (e, f) at same) ∙ sym f
same_views n t u wf wf' same (single p v e) (forked c children m f size below high two) ih =
    absurd (
      one_leaf c (under_prefix c (branch children none)) p v (two_keys c children m below two)
        (rw (e, f) at (SameMap-sym t u same)))
same_views n t u wf wf' same (forked c children m e size below high two) (single p v f) ih =
    absurd (
      one_leaf c (under_prefix c (branch children none)) p v (two_keys c children m below two)
        (rw (e, f) at same))
same_views n t u wf wf' same (forked c children m e size below high two)
      (forked d others k f size' below' high' two') ih =
    let here : SameMap (under_prefix c (branch children none))
        (under_prefix d (branch others none)) =
      rw (e, f) at same in
    let (le, x, y, eq) =
      shorter_prefix c d (under_prefix c (branch children none)) (branch others none)
        (two_keys c children m below two) here in
    let (ge, z, w, _) =
      shorter_prefix d c (under_prefix d (branch others none)) (branch children none)
        (two_keys d others k below' two') (SameMap-sym _ _ here) in
    let prefix : c ≡ d = same_prefix c d x y (omega (arith, le, ge)) eq in
    let left : m ≡ k = omega (arith, ap length prefix) in
    let there : SameMap (under_prefix c (branch children none))
        (under_prefix c (branch others none)) =
      rw (← prefix) at here in
    e
    ∙ ap (λ ch. under_prefix c (branch ch none))
        (same_children n m children others high high' (same_below c children others there)
          (λ i s. ih m (omega arith) (children i) (others i) (below i) (rw left (below' i)) s))
    ∙ ap (λ p. under_prefix p (branch others none)) prefix
    ∙ sym f

Determined-below : (bound n : ℕ) → n < bound → Determined n
Determined-below zero n h t u wf wf' same = absurd (omega arith)
Determined-below (suc bound) n h t u wf wf' same =
    same_views n t u wf wf' same (view t n wf) (view u n wf')
      (λ m l. Determined-below bound m (omega arith))

-- Two well-formed tries over paths of `n` nibbles that hold the same value at every path are the
-- same trie.
pub canonical :
    (n : ℕ) (t u : Node)
    → IsWellFormed n t
    → IsWellFormed n u
    → ((q : List ℕ) → get t q ≡ get u q)
    → t ≡ u
canonical n t u wf wf' same = Determined-below (suc n) n (omega arith) t u wf wf' same
