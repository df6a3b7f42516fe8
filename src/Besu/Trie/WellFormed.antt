-- ===== src/Besu/Trie/WellFormed.antt =====
-- What the trie stands for, a map from paths to values, and the shape that insertion keeps.
use state_actor.Prelude.{
  ℕ, suc, ◌+◌, ◌≤◌, ◌<◌, ◌≡◌, ◌≢◌, Option, none, some, List, [], ◌∷◌, length, ltb, if◌then◌else◌,
}
use state_actor.Bytes.{Nibbles}
use state_actor.Besu.Trie.{Node, null, leaf, extension, branch, equal_nibbles}
use state_actor.Besu.Trie.Paths.{IsPath, along}

-- The value stored at a path.
unfoldable pub get : Node → List ℕ → Option (List ℕ)
unfolding equal_nibbles along
get null q = none
get (leaf p v) q = if equal_nibbles p q then some v else none
get (extension p c) q = along p none (get c) q
get (branch children bv) [] = bv
get (branch children bv) (x ∷ q) = let rest = get (children x) q in if ltb x 16 then rest else none

abbrev pub IsBranch : Node → Type 0
IsBranch null = ⊥
IsBranch (leaf p v) = ⊥
IsBranch (extension p c) = ⊥
IsBranch (branch children bv) = Unit

pub record TwoChildren (children : ℕ → Node) : Type 0 where
  pub one : ℕ
  pub other : ℕ
  pub one_nibble : one < 16
  pub other_nibble : other < 16
  pub apart : one ≢ other
  pub one_used : children one ≢ null
  pub other_used : children other ≢ null

-- The paths below the node have `n` nibbles left. An extension stands over a branch, and a branch
-- has two children and no value of its own.
abbrev pub IsWellFormed : ℕ → Node → Type 0
IsWellFormed n null = Unit
IsWellFormed n (leaf p v) = IsPath n p
IsWellFormed n (extension p c) =
    (m : ℕ) × (n ≡ length p + m) × (p ≢ []) × Nibbles p × IsBranch c × IsWellFormed m c
IsWellFormed n (branch children bv) =
    (m : ℕ) × (n ≡ suc m)
    × (bv ≡ none)
    × ((i : ℕ) → IsWellFormed m (children i))
    × ((i : ℕ) → 16 ≤ i → children i ≡ null)
    × TwoChildren children
