-- ===== src/Ethrex/Builder/Bytes.antt =====
-- The rows and the root of the source: the builder over RLP is the builder over tries, encoded.
use state_actor.Besu.Trie
use state_actor.Prelude.{
  ℕ, suc, ◌≡◌, refl, sym, ap, ◌∙◌, arith, false, some, List, [], ◌∷◌, length, ◌==◌,
}
use state_actor.Besu.Trie.{Node, null, leaf, extension, branch, new, add_accounts}
use state_actor.Besu.Trie.Keys.{IsHash}
use state_actor.Ethrex.Nibbles.{bytes_to_nibbles}
use state_actor.Ethrex.NodeRlp.{encode_leaf, encode_extension, encode_branch}
use state_actor.Ethrex.Builder.{
  Builder, Row, AddResult, added, keys_out_of_order, key_length_differs, index_panic, and_added,
  add_leaf, new_builder, rlp_encoder,
}
use state_actor.Ethrex.Builder.Finish.{root_node, root}
use state_actor.Ethrex.Builder.Plug.{terminated, tree_encoder}
use state_actor.Ethrex.Builder.Encoding.{IsEncoding, map_rows}
use state_actor.Ethrex.Builder.Encoded.{map_builder, map_result, add_leaf-map, root_node-map}
use state_actor.Ethrex.Builder.Accounts.{add_leaves, Ascend, root_node-add_leaves}

unfoldable pub without_last : List ℕ → List ℕ
without_last [] = []
without_last (x ∷ []) = []
without_last (x ∷ y ∷ l) = x ∷ without_last (y ∷ l)

without_last-terminated : (p : List ℕ) → without_last (terminated p) ≡ p
unfolding without_last
without_last-terminated [] = refl
without_last-terminated (x ∷ []) = refl
without_last-terminated (x ∷ y ∷ p) = ap (λ l. x ∷ l) (without_last-terminated (y ∷ p))

-- The RLP of a trie, each node the encoder's; the terminator of a leaf's path is the flag there.
unfoldable pub encode : (List ℕ → List ℕ) → Node → List ℕ
unfolding without_last
encode keccak null = []
encode keccak (leaf path value) = encode_leaf (without_last path) value
encode keccak (extension path child) = encode_extension keccak path (encode keccak child)
encode keccak (branch children value) = encode_branch keccak (λ i. encode keccak (children i)) []

encode-IsEncoding :
    (keccak : List ℕ → List ℕ) → IsEncoding tree_encoder (rlp_encoder keccak) (encode keccak)
unfolding encode
encode-IsEncoding keccak = record {
  maps_absent = refl;
  maps_leaf = λ p v. ap (λ l. encode_leaf l v) (without_last-terminated p);
  maps_extension = λ p n. refl;
  maps_branch = λ c. refl;
}

module _ (keccak : List ℕ → List ℕ) where
  abbrev encoded : Builder Node → Builder (List ℕ)
  encoded = map_builder (encode-IsEncoding keccak)

  after_added :
      (r : AddResult Node) (f : Builder (List ℕ) → AddResult (List ℕ))
      (g : Builder Node → AddResult Node)
      → ((b : Builder Node) → f (encoded b) ≡ map_result (encode-IsEncoding keccak) (g b))
      → and_added (map_result (encode-IsEncoding keccak) r) f
        ≡ map_result (encode-IsEncoding keccak) (and_added r g)
  after_added (added b) f g s = s b
  after_added keys_out_of_order f g s = refl
  after_added key_length_differs f g s = refl
  after_added index_panic f g s = refl

  add_leaves-map :
      (accounts : List (List ℕ × List ℕ)) (b : Builder Node)
      → add_leaves (rlp_encoder keccak) (encoded b) accounts
        ≡ map_result (encode-IsEncoding keccak) (add_leaves tree_encoder b accounts)
  unfolding add_leaves
  add_leaves-map [] b = refl
  add_leaves-map ((hash, value) ∷ rest) b =
      rw (add_leaf-map (encode-IsEncoding keccak) b (bytes_to_nibbles hash) value) (
        after_added (add_leaf tree_encoder b (bytes_to_nibbles hash) value) _ _
          (λ b'. add_leaves-map rest b'))

  empty_encoded : encoded (new_builder tree_encoder) ≡ new_builder (rlp_encoder keccak)
  unfolding new_builder
  empty_encoded = refl

  root-encoded :
      (b : Builder Node) (t : Node) (rows : List (Row Node)) (n : ℕ)
      → b.leaf_count ≡ suc n
      → root_node tree_encoder b.rows b.stack b.prev_key b.prev_val ≡ some (t, rows)
      → root keccak (encoded b) ≡ some (keccak (encode keccak t), map_rows (encode keccak) rows)
  unfolding root
  root-encoded b t rows n l e =
      rw
        (
          not_zero b.leaf_count n l,
          root_node-map (encode-IsEncoding keccak) b.stack b.rows b.prev_key b.prev_val,
          e,
        )
        refl
    where
      not_zero : (m n : ℕ) → m ≡ suc n → (m == 0) ≡ false
      not_zero m n l = ground arith

-- For any function as keccak and any list of at least one account whose hashes are of 32 bytes and
-- strictly ascending: no call of `AddLeaf` on ethrex's streaming builder fails, `Root` returns
-- without a panic, and it returns the keccak hash of the RLP of the trie that Besu's resident
-- builder makes of the same accounts.
pub root-add_leaves :
    (keccak : List ℕ → List ℕ) (hash value : List ℕ) (rest : List (List ℕ × List ℕ))
    → IsHash hash
    → Ascend hash rest
    → (eb : Builder (List ℕ)) × (bb : Trie.Builder) × (rows : List (Row (List ℕ))) × (add_leaves
          (rlp_encoder keccak)
          (new_builder (rlp_encoder keccak))
          ((hash, value) ∷ rest)
        ≡ added eb)
      × (add_accounts new ((hash, value) ∷ rest) ≡ some bb)
      × (root keccak eb ≡ some (keccak (encode keccak bb.root), rows))
root-add_leaves keccak hash value rest h a =
    let accounts = (hash, value) ∷ rest in
    let (eb, bb, rows, e, f, r, n) = root_node-add_leaves hash value rest h a in
    (
      map_builder (encode-IsEncoding keccak) eb,
      bb,
      map_rows (encode keccak) rows,
      ap (λ b. add_leaves (rlp_encoder keccak) b accounts) (sym (empty_encoded keccak))
          ∙ add_leaves-map keccak accounts (new_builder tree_encoder)
          ∙ ap (map_result (encode-IsEncoding keccak)) e,
      f,
      root-encoded keccak eb bb.root rows (length rest) n r,
    )
