-- ===== src/Besu/Compact.antt =====
-- internal/besu/trie/compact.go. `none` is a panic of the source, an index out of range included.
use state_actor.Prelude.{
  ℕ, ◌%◌, Bool, true, false, Option, none, some, List, [], ◌∷◌, length, ◌==◌, if◌then◌else◌, bit_or,
  not, ◌&&◌,
}
use state_actor.Bytes.{high, low, join}
use state_actor.Ethrex.Nibbles.{append_nibbles}

-- `nibbles[i]`
abbrev pub first : List ℕ → Option ℕ
first [] = none
first (n ∷ ns) = some n

-- The loop over `remaining`, which reads two nibbles a round.
unfoldable pub fill_pairs : List ℕ → Option (List ℕ)
unfolding join
fill_pairs [] = some []
fill_pairs (a ∷ []) = none
fill_pairs (a ∷ b ∷ rest) = elim (fill_pairs rest) [
  | none ↦ none
  | some out ↦ some (join a b ∷ out)
]

abbrev pub with_meta : ℕ → List ℕ → Option (List ℕ)
with_meta meta remaining = elim (fill_pairs remaining) [
  | none ↦ none
  | some out ↦ some (meta ∷ out)
]

abbrev pub odd_path : ℕ → List ℕ → Option (List ℕ)
odd_path flag [] = none
odd_path flag (n ∷ ns) = with_meta (bit_or flag n) ns

unfoldable pub compact_encode : List ℕ → Bool → Option (List ℕ)
unfolding fill_pairs
compact_encode nibbles is_leaf =
    let odd = length nibbles % 2 == 1 in
    if is_leaf && odd
    then odd_path 0x30 nibbles
    else if is_leaf && not odd
    then with_meta 0x20 nibbles
    else if not is_leaf && odd
    then odd_path 0x10 nibbles
    else with_meta 0x00 nibbles

unfoldable pub compact_decode : List ℕ → Option (List ℕ × Bool)
unfolding append_nibbles high low
compact_decode [] = none
compact_decode (meta ∷ rest) =
    let flag = high meta in
    if flag == 0x0
    then some (append_nibbles [] rest, false)
    else if flag == 0x1
    then some (append_nibbles (low meta ∷ []) rest, false)
    else if flag == 0x2
    then some (append_nibbles [] rest, true)
    else if flag == 0x3
    then some (append_nibbles (low meta ∷ []) rest, true)
    else none
