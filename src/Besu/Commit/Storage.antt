-- ===== src/Besu/Commit/Storage.antt =====
-- internal/besu/trie/builder.go: the storage builder, which keeps the account builder's trie and
-- commits it with another emitter.
use state_actor.Besu.Trie
use state_actor.Besu.Trie.{Node, null, new, insert_node, key_path, add_account, add_accounts}
use state_actor.Besu.Trie.Keys.{IsHash}
use state_actor.Besu.Trie.Accounts.{Account}
use state_actor.Besu.Streaming.{Coding, NodeSink, storage_trie_emitter}
use state_actor.Besu.Commit.{Written, written, and_written, commit_trie}
use state_actor.Besu.Commit.Encodings.{IsRlp}
use state_actor.Besu.Commit.Results.{IsReliable, same_root}
use state_actor.Ethrex.Builder.{Builder, Row, added, new_builder, rlp_encoder}
use state_actor.Ethrex.Builder.Finish.{root}
use state_actor.Ethrex.Builder.Accounts.{add_leaves, Ascend}
use state_actor.Ethrex.Builder.Bytes.{encode}
use state_actor.Prelude.{
  ℕ, ◌+◌, ◌≡◌, refl, ap, ◌∙◌, Option, none, some, List, [], ◌∷◌, Option-cases, inl, inr,
}

-- The builder without its sink, which `commit_storage` takes.
pub record StorageBuilder : Type 0 where
  pub addr_hash : List ℕ
  pub root : Node
  pub count : ℕ

unfoldable pub begin_storage : List ℕ → StorageBuilder
begin_storage addr_hash = record { addr_hash = addr_hash; root = null; count = 0 }

unfoldable pub add_slot : StorageBuilder → List ℕ → List ℕ → Option StorageBuilder
unfolding insert_node key_path
add_slot sb slot_hash value_rlp = elim (insert_node sb.root (key_path slot_hash) value_rlp) [
  | none ↦ none
  | some root ↦ some (record { addr_hash = sb.addr_hash; root = root; count = sb.count + 1 })
]

module _ (coding : Coding) {S : Type 0} (node_sink : NodeSink S) where
  unfoldable pub commit_storage : StorageBuilder → S → Written S (List ℕ)
  unfolding commit_trie
  commit_storage sb s =
      and_written
        (commit_trie coding node_sink (storage_trie_emitter sb.addr_hash) sb.root sb.count s)
        (λ r s'. written (r.0) s')

-- The caller's loop over slots.
unfoldable pub add_slots : StorageBuilder → List (List ℕ × List ℕ) → Option StorageBuilder
unfolding add_slot
add_slots sb [] = some sb
add_slots sb ((slot_hash, value_rlp) ∷ rest) = elim (add_slot sb slot_hash value_rlp) [
  | none ↦ none
  | some sb' ↦ add_slots sb' rest
]

abbrev storage_of : List ℕ → Trie.Builder → StorageBuilder
storage_of addr_hash b = record { addr_hash = addr_hash; root = b.root; count = b.count }

abbrev map_storage : List ℕ → Option Trie.Builder → Option StorageBuilder
map_storage addr_hash none = none
map_storage addr_hash (some b) = some (storage_of addr_hash b)

add_slot-storage_of :
    (addr_hash slot_hash value_rlp : List ℕ) (b : Trie.Builder)
    → add_slot (storage_of addr_hash b) slot_hash value_rlp
      ≡ map_storage addr_hash (add_account b slot_hash value_rlp)
unfolding add_slot add_account
add_slot-storage_of addr_hash slot_hash value_rlp b =
    elim (Option-cases (insert_node b.root (key_path slot_hash) value_rlp)) [
      | inl e ↦ rw (e, add_slot, add_account) refl
      | inr (t, e) ↦ rw (e, add_slot, add_account) refl
    ]

add_slots-storage_of :
    (addr_hash : List ℕ) (slots : List Account) (b : Trie.Builder)
    → add_slots (storage_of addr_hash b) slots ≡ map_storage addr_hash (add_accounts b slots)
unfolding add_slots add_accounts
add_slots-storage_of addr_hash [] b = refl
add_slots-storage_of addr_hash ((slot_hash, value_rlp) ∷ rest) b =
    let same = add_slot-storage_of addr_hash slot_hash value_rlp b in
    elim (Option-cases (add_account b slot_hash value_rlp)) [
      | inl e ↦ rw (same, e, add_slots, add_accounts) refl
      | inr (b', e) ↦ rw (same, e, add_slots, add_accounts) (add_slots-storage_of addr_hash rest b')
    ]

module _ (coding : Coding) (rlp : IsRlp coding) {S : Type 0} (node_sink : NodeSink S) where
  open coding use {keccak}

  -- For a sink that never fails, a package that encodes RLP as documented, any function as keccak,
  -- and slots, at least one, whose 32-byte hashes ascend strictly: Besu's resident storage builder
  -- takes every slot, its Commit returns, and what it returns is the root hash that ethrex's builder
  -- returns for the same slots.
  pub commit_storage-root :
      (addr_hash hash value : List ℕ) (rest : List Account) (s : S)
      → IsHash hash
      → Ascend hash rest
      → IsReliable coding node_sink
      → (eb : Builder (List ℕ)) × (rows : List (Row (List ℕ))) × (sb : StorageBuilder) × (s' : S)
        × (root_hash : List ℕ) × (add_leaves
              (rlp_encoder keccak)
              (new_builder (rlp_encoder keccak))
              ((hash, value) ∷ rest)
            ≡ added eb)
        × (root keccak eb ≡ some (root_hash, rows))
        × (add_slots (begin_storage addr_hash) ((hash, value) ∷ rest) ≡ some sb)
        × (commit_storage coding node_sink sb s ≡ written root_hash s')
  unfolding commit_storage begin_storage
  commit_storage-root addr_hash hash value rest s h a reliable =
      let r =
        same_root coding rlp node_sink hash value rest (storage_trie_emitter addr_hash) s h a
          reliable in
      (
        r.eb,
        r.rows,
        storage_of addr_hash r.bb,
        r.after,
        keccak (encode keccak r.bb.root),
        r.added_all,
        r.root_hash,
        add_slots-storage_of addr_hash ((hash, value) ∷ rest) new
            ∙ ap (map_storage addr_hash) r.filled_all,
        ap (λ q. and_written q (λ p t. written (p.0) t)) r.committed,
      )
