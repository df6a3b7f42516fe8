-- ===== src/Ethrex/Builder/Steps.antt =====
-- The steps of the builder on a spine: what `attach` and `finalize_branch` return.
use state_actor.Prelude.{
  ℕ, ◌-◌, ◌≤◌, ◌<◌, ◌≡◌, refl, sym, ap, ◌∙◌, arith, none, Bool-cases, inl, inr, ltb, lt→ltb, ltb→lt,
  false, some, List, [], ◌∷◌, length, take, length-drop,
}
use state_actor.Bytes.{Nibbles}
use state_actor.Besu.Trie.{Node, extension, branch, tail_node}
use state_actor.Ethrex.Builder.{Row, OpenBranch, attach, store_at, store_child, finalize_branch}
use state_actor.Ethrex.Builder.Cuts.{at, piece, at-lt, get_elem?-at, length-take}
use state_actor.Ethrex.Builder.Descent.{branch_under}
use state_actor.Ethrex.Builder.Plug.{tree_encoder}

pub attach-eq {ℓ} :
    {N : Type ℓ} (f : OpenBranch N) (key : List ℕ) (n : N)
    → Nibbles key
    → f.depth < length key
    → attach f key n
      ≡ some (record { depth = f.depth; children = store_child f.children (at key f.depth) n })
unfolding attach
attach-eq f key n b l =
    ap (store_at f n) (get_elem?-at key f.depth l)
    ∙ rw (lt→ltb (at key f.depth) 16 (at-lt key f.depth b l)) refl

length-piece : (from d : ℕ) (key : List ℕ) → d ≤ length key → length (piece from d key) ≡ d - from
length-piece from d key l =
    length-drop from (take d key) ∙ ap (λ (t : ℕ). t - from) (length-take d key l)

not_ltb : (n : ℕ) → ltb 0 n ≡ false → n ≡ 0
not_ltb n e = ground arith

tail_node_long : (s : List ℕ) (t : Node) → 0 < length s → tail_node s t ≡ extension s t
tail_node_long [] t l = absurd (omega arith)
tail_node_long (x ∷ s) t l = refl

tail_node_short : (s : List ℕ) (t : Node) → length s ≡ 0 → tail_node s t ≡ t
tail_node_short [] t l = refl
tail_node_short (x ∷ s) t l = absurd (omega arith)

pub finalize_branch-eq :
    (rows : List (Row Node)) (key : List ℕ) (f : OpenBranch Node) (from : ℕ)
    → f.depth ≤ length key
    → (finalize_branch tree_encoder rows key f from).0
      ≡ branch_under (piece from f.depth key) f.children
unfolding finalize_branch
finalize_branch-eq rows key f from l = elim (Bool-cases (ltb 0 (f.depth - from))) [
  | inl e ↦ rw e (
      sym (
        tail_node_long (piece from f.depth key) (branch f.children none)
          (omega (arith, length-piece from f.depth key l, ltb→lt 0 (f.depth - from) e))))
  | inr e ↦ rw e (
      sym (
        tail_node_short (piece from f.depth key) (branch f.children none)
          (omega (arith, length-piece from f.depth key l, not_ltb (f.depth - from) e))))
]
