-- ===== src/Besu/Trie.antt =====
-- internal/besu/trie/node.go and builder.go: the trie in memory and its insertion. Lazily cached
-- encodings are left out, since they only repeat what they cache. `none` is a panic.
pub mod Paths
pub mod WellFormed
pub mod Fork
pub mod Leaf
pub mod Extension
pub mod Insert
pub mod Views
pub mod Canonical
pub mod Keys
pub mod Accounts
use state_actor.Prelude.{
  ℕ, ◌+◌, ◌*◌, Bool, true, false, Option, none, some, List, [], ◌∷◌, ◌++◌, length, take, drop, ltb,
  ◌==◌, if◌then◌else◌, ◌&&◌,
}
use state_actor.Ethrex.Nibbles.{append_nibbles, common_prefix_len}

-- `children [16]Node` is a function of the index; every use of an index is tested against 16.
pub data Node : Type 0 where
  null : Node
  leaf : List ℕ → List ℕ → Node
  extension : List ℕ → Node → Node
  branch : (ℕ → Node) → Option (List ℕ) → Node

abbrev pub leaf_terminator : ℕ
leaf_terminator = 0x10

abbrev pub no_children : ℕ → Node
no_children i = null

abbrev pub set_child : (ℕ → Node) → ℕ → Node → ℕ → Node
set_child children i n j = if j == i then n else children j

-- builder.go: keyPath. The loop writes the two nibbles of each byte in order.
unfoldable pub key_path : List ℕ → List ℕ
key_path key = append_nibbles [] key ++ (leaf_terminator ∷ [])

unfoldable pub equal_nibbles : List ℕ → List ℕ → Bool
equal_nibbles [] [] = true
equal_nibbles [] (y ∷ b) = false
equal_nibbles (x ∷ a) [] = false
equal_nibbles (x ∷ a) (y ∷ b) = let rest = equal_nibbles a b in if x == y then rest else false

-- `if cpl == 0 { return br }`, else an extension over the common prefix.
abbrev pub under_prefix : List ℕ → Node → Node
under_prefix [] br = br
under_prefix (x ∷ prefix) br = extension (x ∷ prefix) br

-- A new branch with the old node and the new leaf as its children.
unfoldable pub fork : List ℕ → ℕ → Node → ℕ → Node → Option Node
fork prefix i old j new =
    if ltb i 16 && ltb j 16
    then some (under_prefix prefix (branch (set_child (set_child no_children i old) j new) none))
    else none

-- The two suffixes behind the common prefix of a leaf's path and the new path.
unfoldable pub split_leaf : List ℕ → List ℕ → List ℕ → List ℕ → List ℕ → Option Node
unfolding fork
split_leaf prefix [] v new value = none
split_leaf prefix (o ∷ os) v [] value = none
split_leaf prefix (o ∷ os) v (x ∷ xs) value = fork prefix o (leaf os v) x (leaf xs value)

abbrev pub tail_node : List ℕ → Node → Node
tail_node [] child = child
tail_node (x ∷ rest) child = extension (x ∷ rest) child

unfoldable pub split_extension : List ℕ → List ℕ → Node → List ℕ → List ℕ → Option Node
unfolding fork
split_extension prefix [] child new value = none
split_extension prefix (o ∷ os) child [] value = none
split_extension prefix (o ∷ os) child (x ∷ xs) value =
    fork prefix o (tail_node os child) x (leaf xs value)

abbrev pub with_child : (Node → Node) → Option Node → Option Node
with_child f none = none
with_child f (some n) = some (f n)

unfoldable pub insert_node : Node → List ℕ → List ℕ → Option Node
unfolding equal_nibbles split_leaf split_extension common_prefix_len
insert_node null path value = some (leaf path value)
insert_node (leaf p v) path value =
    if equal_nibbles p path
    then some (leaf path value)
    else (let cpl = common_prefix_len p path in
        split_leaf (take cpl p) (drop cpl p) v (drop cpl path) value)
insert_node (extension p child) path value =
    let cpl = common_prefix_len p path in
    let inner = insert_node child (drop cpl path) value in
    if cpl == length p
    then with_child (extension p) inner
    else split_extension (take cpl p) (drop cpl p) child (drop cpl path) value
insert_node (branch children bv) [] value = none
insert_node (branch children bv) (x ∷ path) value =
    let inner = insert_node (children x) path value in
    if ltb x 16 then with_child (λ n. branch (set_child children x n) bv) inner else none

-- The resident builder without its sink: `sink` is used by `Commit` alone.
pub record Builder : Type 0 where
  pub root : Node
  pub count : ℕ

abbrev pub new : Builder
new = record { root = null; count = 0 }

unfoldable pub add_account : Builder → List ℕ → List ℕ → Option Builder
unfolding insert_node key_path
add_account b addr_hash account_rlp = elim (insert_node b.root (key_path addr_hash) account_rlp) [
  | none ↦ none
  | some root ↦ some (record { root = root; count = b.count + 1 })
]

-- The caller's loop over accounts.
unfoldable pub add_accounts : Builder → List (List ℕ × List ℕ) → Option Builder
unfolding add_account
add_accounts b [] = some b
add_accounts b ((addr_hash, account_rlp) ∷ rest) = elim (add_account b addr_hash account_rlp) [
  | none ↦ none
  | some b' ↦ add_accounts b' rest
]
