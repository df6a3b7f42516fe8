-- ===== src/Ethrex/Builder/Accounts.antt =====
-- A run over accounts, their hashes as keys, on the streaming builder and on Besu's resident one.
use state_actor.Besu.Trie
use state_actor.Prelude.{
  ℕ, ◌+◌, ◌≡◌, refl, sym, ap, ◌∙◌, arith, true, false, some, List, [], ◌∷◌, length,
}
use state_actor.Bytes.{Nibbles}
use state_actor.HexPrefix.Loops.{append_nibbles-eq-spread, length-spread, spread-Nibbles}
use state_actor.Besu.Trie.{Node, leaf, null, insert_node, new, add_account, add_accounts, key_path}
use state_actor.Besu.Trie.Keys.{IsHash}
use state_actor.Ethrex.Nibbles.{bytes_to_nibbles}
use state_actor.Ethrex.Builder.Finish.{root_node}
use state_actor.Ethrex.Builder.{
  NodeEncoder, Builder, Row, AddResult, added, and_added, compare_le, add_leaf, new_builder,
}
use state_actor.Ethrex.Builder.Plug.{terminated, tree_encoder, plug}
use state_actor.Ethrex.Builder.Root.{root_node-plug}
use state_actor.Ethrex.Builder.Run.{Holds, add_leaf-Holds}

-- stream_builder.go: `StreamHashBuilder.AddLeaf`, which expands the hash to its nibbles.
abbrev pub stream_add_leaf {ℓ} :
    {N : Type ℓ} → NodeEncoder N → Builder N → List ℕ → List ℕ → AddResult N
stream_add_leaf e b key_hash value_rlp = add_leaf e b (bytes_to_nibbles key_hash) value_rlp

-- The caller's loop: an error ends the run.
unfoldable pub add_leaves {ℓ} :
    {N : Type ℓ} → NodeEncoder N → Builder N → List (List ℕ × List ℕ) → AddResult N
unfolding add_leaf bytes_to_nibbles
add_leaves e b [] = added b
add_leaves e b ((hash, value) ∷ rest) =
    and_added (stream_add_leaf e b hash value) (λ b'. add_leaves e b' rest)

-- The hashes are 32 bytes each, and each is greater than the one before.
abbrev pub Ascend : List ℕ → List (List ℕ × List ℕ) → Type 0
Ascend prev [] = Unit
Ascend prev ((hash, value) ∷ rest) =
    IsHash hash
    × (compare_le (bytes_to_nibbles hash) (bytes_to_nibbles prev) ≡ false)
    × Ascend hash rest

path_size : (hash : List ℕ) → IsHash hash → length (bytes_to_nibbles hash) ≡ 64
unfolding bytes_to_nibbles
path_size hash h = rw (append_nibbles-eq-spread [] hash) (omega (arith, length-spread hash, h.0))

path-Nibbles : (hash : List ℕ) → IsHash hash → Nibbles (bytes_to_nibbles hash)
unfolding bytes_to_nibbles
path-Nibbles hash h = rw (append_nibbles-eq-spread [] hash) (spread-Nibbles hash h.1)

besu_inserts :
    (b : Trie.Builder) (t : Node) (hash value : List ℕ)
    → insert_node b.root (terminated (bytes_to_nibbles hash)) value ≡ some t
    → add_account b hash value ≡ some (record { root = t; count = b.count + 1 })
unfolding add_account key_path bytes_to_nibbles
besu_inserts b t hash value e = rw (e, add_account) refl

besu_takes :
    (b b' : Trie.Builder) (hash value : List ℕ) (rest : List (List ℕ × List ℕ))
    → add_account b hash value ≡ some b'
    → add_accounts b ((hash, value) ∷ rest) ≡ add_accounts b' rest
unfolding add_accounts
besu_takes b b' hash value rest e = rw (e, add_accounts) refl

run_on :
    (eb : Builder Node) (bb : Trie.Builder) (hash : List ℕ) (rest : List (List ℕ × List ℕ))
    → Holds 64 eb bb.root
    → eb.prev_key ≡ bytes_to_nibbles hash
    → Ascend hash rest
    → (eb' : Builder Node) × (bb' : Trie.Builder) × (add_leaves tree_encoder eb rest ≡ added eb')
      × (add_accounts bb rest ≡ some bb')
      × Holds 64 eb' bb'.root
      × (eb'.leaf_count ≡ eb.leaf_count + length rest)
unfolding add_leaves add_accounts
run_on eb bb prev [] h p a = (eb, bb, refl, refl, h, omega arith)
run_on eb bb prev ((hash, value) ∷ rest) h p (is_hash, above, a) =
    let (eb', t, e, f, h', q, n) =
      add_leaf-Holds 64 eb bb.root (bytes_to_nibbles hash) value h (path_size hash is_hash)
        (path-Nibbles hash is_hash) (rw p above) in
    let (eb'', bb'', e', f', h'', n') =
      run_on eb' (record { root = t; count = bb.count + 1 }) hash rest h' q a in
    (
      eb'',
      bb'',
      rw e e',
      besu_takes bb _ hash value rest (besu_inserts bb t hash value f) ∙ f',
      h'',
      omega (arith, n, n'),
    )

-- The builder after its first leaf.
abbrev after_first : List ℕ → List ℕ → Builder Node
after_first key value = record {
  started = true;
  key_len = length key;
  prev_key = key;
  prev_val = value;
  stack = [];
  leaf_count = 1;
  rows = [];
}

after_first-Holds :
    (hash value : List ℕ)
    → IsHash hash
    → Holds 64
        (after_first (bytes_to_nibbles hash) value)
        (leaf (terminated (bytes_to_nibbles hash)) value)
unfolding plug
after_first-Holds hash value h = record {
  running = refl;
  key_size = path_size hash h;
  prev_size = path_size hash h;
  nibbles = path-Nibbles hash h;
  spine = tt;
  trie = refl;
}

besu_after_first :
    (hash value : List ℕ)
    → add_account new hash value
      ≡ some (record { root = leaf (terminated (bytes_to_nibbles hash)) value; count = 0 + 1 })
unfolding insert_node
besu_after_first hash value =
    besu_inserts new (leaf (terminated (bytes_to_nibbles hash)) value) hash value refl

-- For any list of at least one account whose hashes are of 32 bytes and strictly ascending, no call
-- of `AddLeaf` fails, Besu's resident builder takes the same accounts without a panic, and `Root`
-- of the streaming builder, run on the trie in memory, returns the root of Besu's trie.
pub root_node-add_leaves :
    (hash value : List ℕ) (rest : List (List ℕ × List ℕ))
    → IsHash hash
    → Ascend hash rest
    → (eb : Builder Node) × (bb : Trie.Builder) × (rows : List (Row Node)) × (add_leaves
          tree_encoder
          (new_builder tree_encoder)
          ((hash, value) ∷ rest)
        ≡ added eb)
      × (add_accounts new ((hash, value) ∷ rest) ≡ some bb)
      × (root_node tree_encoder eb.rows eb.stack eb.prev_key eb.prev_val ≡ some (bb.root, rows))
      × (eb.leaf_count ≡ length ((hash, value) ∷ rest))
unfolding add_leaves add_leaf new_builder
root_node-add_leaves hash value rest is_hash a =
    let key = bytes_to_nibbles hash in
    let (eb, bb, e, f, h, n) =
      run_on (after_first key value) (record { root = leaf (terminated key) value; count = 0 + 1 })
        hash rest (after_first-Holds hash value is_hash) refl a in
    let (rows, r) = root_node-plug eb.stack eb.rows eb.prev_key eb.prev_val h.nibbles h.spine in
    (
      eb,
      bb,
      rows,
      e,
      besu_takes new _ hash value rest (besu_after_first hash value) ∙ f,
      r ∙ ap (λ t. some (t, rows)) (sym h.trie),
      omega (arith, n),
    )
