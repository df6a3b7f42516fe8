-- ===== src/Ethrex/Builder.antt =====
-- internal/ethrex/builder.go: the streaming trie builder. It is written over the type of an encoded
-- node and its encoder; `rlp_encoder` is the one that the source has, and a trie in memory is
-- another. `none` is a panic. The rows are collected, the newest first: a sink that fails ends the
-- run, and has seen the rows up to there.
pub mod Finish
pub mod Cuts
pub mod Descent
pub mod Plug
pub mod Steps
pub mod Grow
pub mod Fold
pub mod Root
pub mod Run
pub mod Accounts
pub mod Encoding
pub mod Encoded
pub mod Bytes
use state_actor.Prelude.{
  ℕ, zero, suc, ◌+◌, ◌-◌, Bool, true, false, Option, none, some, List, [], ◌∷◌, ◌++◌, length, take,
  drop, get_elem?, ltb, leb, ◌==◌, if◌then◌else◌, not, and_then,
}
use state_actor.Ethrex.Nibbles.{leaf_flag, common_prefix_len}
use state_actor.Ethrex.NodeRlp.{encode_leaf, encode_extension, encode_branch}

pub record NodeEncoder {ℓ} (N : Type ℓ) : Type ℓ where
  pub absent : N
  pub leaf_node : List ℕ → List ℕ → N
  pub extension_node : List ℕ → N → N
  pub branch_node : (ℕ → N) → N

abbrev pub rlp_encoder : (List ℕ → List ℕ) → NodeEncoder (List ℕ)
rlp_encoder keccak = record {
  absent = [];
  leaf_node = encode_leaf;
  extension_node = encode_extension keccak;
  branch_node = λ children. encode_branch keccak children [];
}

-- A row holds a node or a raw value.
pub data Row {ℓ} (N : Type ℓ) : Type ℓ where
  node_row : List ℕ → N → Row N
  value_row : List ℕ → List ℕ → Row N

pub record OpenBranch {ℓ} (N : Type ℓ) : Type ℓ where
  pub depth : ℕ
  pub children : ℕ → N

-- `stack` has the deepest branch first, where the source has it last.
pub record Builder {ℓ} (N : Type ℓ) : Type ℓ where
  pub started : Bool
  pub key_len : ℕ
  pub prev_key : List ℕ
  pub prev_val : List ℕ
  pub stack : List (OpenBranch N)
  pub leaf_count : ℕ
  pub rows : List (Row N)

pub data AddResult {ℓ} (N : Type ℓ) : Type ℓ where
  added : Builder N → AddResult N
  keys_out_of_order : AddResult N
  key_length_differs : AddResult N
  index_panic : AddResult N

abbrev pub and_added {ℓ κ} :
    {N : Type ℓ} {M : Type κ} → AddResult N → (Builder N → AddResult M) → AddResult M
and_added (added b) f = f b
and_added keys_out_of_order f = keys_out_of_order
and_added key_length_differs f = key_length_differs
and_added index_panic f = index_panic

-- `bytes.Compare(a, b) <= 0`
unfoldable pub compare_le : List ℕ → List ℕ → Bool
compare_le [] b = true
compare_le (x ∷ a) [] = false
compare_le (x ∷ a) (y ∷ b) = let rest = compare_le a b in if x == y then rest else ltb x y

module _ {ℓ} {N : Type ℓ} where
  abbrev pub store_child : (ℕ → N) → ℕ → N → ℕ → N
  store_child children i n j = if j == i then n else children j

  -- `branch.children[key[branch.depth]] = n`; an index outside the key or the array panics.
  abbrev pub store_at : OpenBranch N → N → Option ℕ → Option (OpenBranch N)
  store_at b n none = none
  store_at b n (some i) =
      if ltb i 16
      then some (record { depth = b.depth; children = store_child b.children i n })
      else none

  unfoldable pub attach : OpenBranch N → List ℕ → N → Option (OpenBranch N)
  attach b key n = store_at b n (get_elem? key b.depth)

  -- The depth of the deepest branch, plus 1: the -1 of an empty stack is 0.
  abbrev pub below_top : List (OpenBranch N) → ℕ
  below_top [] = 0
  below_top (top ∷ rest) = suc top.depth

  abbrev pub push_branch :
      List (Row N)
      → List (OpenBranch N)
      → Option (OpenBranch N)
      → Option (List (OpenBranch N) × List (Row N))
  push_branch rows rest none = none
  push_branch rows rest (some b) = some (b ∷ rest, rows)

module _ {ℓ} {N : Type ℓ} (e : NodeEncoder N) where
  unfoldable pub new_builder : Builder N
  new_builder = record {
    started = false;
    key_len = 0;
    prev_key = [];
    prev_val = [];
    stack = [];
    leaf_count = 0;
    rows = [];
  }

  abbrev pub new_branch : ℕ → OpenBranch N
  new_branch d = record { depth = d; children = λ _. e.absent }

  unfoldable pub emit_leaf_rows : List (Row N) → List ℕ → List ℕ → List ℕ → N × List (Row N)
  emit_leaf_rows rows path rem value =
      let node = e.leaf_node rem value in
      (node, value_row ((path ++ rem) ++ (leaf_flag ∷ [])) value ∷ node_row path node ∷ rows)

  -- `from` is parentDepth + 1.
  unfoldable pub finalize_branch : List (Row N) → List ℕ → OpenBranch N → ℕ → N × List (Row N)
  finalize_branch rows prev_key p from =
      let branch = e.branch_node p.children in
      let rows' = node_row (take p.depth prev_key) branch ∷ rows in
      if ltb 0 (p.depth - from)
      then (let ext = e.extension_node (drop from (take p.depth prev_key)) branch in
          (ext, node_row (take from prev_key) ext ∷ rows'))
      else (branch, rows')

  -- The loop with `p` popped off the stack.
  unfoldable pub fold_to :
      List (Row N)
      → OpenBranch N
      → List (OpenBranch N)
      → ℕ
      → List ℕ
      → Option (List (OpenBranch N) × List (Row N))
  unfolding finalize_branch attach
  fold_to rows p [] lcp prev_key =
      let (node, rows') = finalize_branch rows prev_key p (suc lcp) in
      push_branch rows' [] (attach (new_branch lcp) prev_key node)
  fold_to rows p (parent ∷ rest) lcp prev_key =
      if ltb lcp parent.depth
      then (let (node, rows') = finalize_branch rows prev_key p (suc parent.depth) in
          and_then (attach parent prev_key node)
            (λ parent'. fold_to rows' parent' rest lcp prev_key))
      else (let (node, rows') = finalize_branch rows prev_key p (suc lcp) in
          if parent.depth == lcp
          then push_branch rows' rest (attach parent prev_key node)
          else push_branch rows' (parent ∷ rest) (attach (new_branch lcp) prev_key node))

  -- The case d = dTop of `insert`; the stack is not empty there.
  unfoldable pub insert_at_top :
      List (Row N)
      → List (OpenBranch N)
      → ℕ
      → List ℕ
      → List ℕ
      → Option (List (OpenBranch N) × List (Row N))
  unfolding fold_to emit_leaf_rows attach
  insert_at_top rows [] lcp prev_key prev_val = none
  insert_at_top rows (top ∷ rest) lcp prev_key prev_val =
      let (leaf, rows') =
        emit_leaf_rows rows (take (suc top.depth) prev_key) (drop (suc top.depth) prev_key)
          prev_val in
      and_then (attach top prev_key leaf) (λ top'.
        if lcp == top.depth
        then some (top' ∷ rest, rows')
        else fold_to rows' top' rest lcp prev_key)

  unfoldable pub insert :
      List (Row N)
      → List (OpenBranch N)
      → List ℕ
      → List ℕ
      → List ℕ
      → Option (List (OpenBranch N) × List (Row N))
  unfolding insert_at_top emit_leaf_rows attach common_prefix_len
  insert rows stack prev_key prev_val key =
      let lcp = common_prefix_len prev_key key in
      if leb (below_top stack) lcp
      then (let (leaf, rows') =
            emit_leaf_rows rows (take (suc lcp) prev_key) (drop (suc lcp) prev_key) prev_val in
          push_branch rows' stack (attach (new_branch lcp) prev_key leaf))
      else insert_at_top rows stack lcp prev_key prev_val

  -- The rest of `AddLeaf` behind `insert`.
  abbrev pub with_leaf :
      Builder N → List ℕ → List ℕ → Option (List (OpenBranch N) × List (Row N)) → AddResult N
  with_leaf b key value none = index_panic
  with_leaf b key value (some (stack, rows)) = added (record {
    started = true;
    key_len = b.key_len;
    prev_key = key;
    prev_val = value;
    stack = stack;
    leaf_count = b.leaf_count + 1;
    rows = rows;
  })

  unfoldable pub add_leaf : Builder N → List ℕ → List ℕ → AddResult N
  unfolding insert compare_le
  add_leaf b key value =
      if not b.started
      then added (record {
        started = true;
        key_len = length key;
        prev_key = key;
        prev_val = value;
        stack = b.stack;
        leaf_count = 1;
        rows = b.rows;
      })
      else if compare_le key b.prev_key
      then keys_out_of_order
      else if not (length key == b.key_len)
      then key_length_differs
      else with_leaf b key value (insert b.rows b.stack b.prev_key b.prev_val key)
