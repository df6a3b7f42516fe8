-- ===== src/Besu/Commit/Stored.antt =====
-- The rows of a commit, one by one, and when a trie has a root to commit.
use mathlib.Core.List.{Memᴰ}
use mathlib.Core.List.Memᴰ
use mathlib.Core.Bool.{true≢false}
use mathlib.Core.Path.{subst}
use state_actor.Bytes.{same_bytes, same_bytes_eq, same_bytes_refl}
use state_actor.Besu.Trie.{Node, null, key_path}
use state_actor.Besu.Trie.Paths.{equal_nibbles_refl}
use state_actor.Besu.Trie.WellFormed.{get}
use state_actor.Besu.Trie.Accounts.{Account, latest, or_else}
use state_actor.Besu.Streaming.{Coding, is_referenced_by_hash, empty_trie_node_hash}
use state_actor.Besu.Commit.Rows.{NodeRow, own_row, rows_of}
use state_actor.Besu.Commit.Whole.{root_row, committed_rows}
use state_actor.Besu.Commit.Occurs.{LeadsTo, rows_of-found, rows_of-origin}
use state_actor.Ethrex.Builder.Bytes.{encode}
use state_actor.Prelude.{
  ℕ, ◌≤◌, ◌<◌, ◌≡◌, ◌≢◌, ◌↔◌, ◌⊎◌, refl, sym, ap, ◌∙◌, arith, Bool, true, false, not, Option, none,
  some, List, [], ◌∷◌, length, Bool-cases, inl, inr, if◌then◌else◌,
}

or_else-some : (o : Option (List ℕ)) (v : List ℕ) → or_else o (some v) ≢ none
or_else-some none v e = cc
or_else-some (some w) v e = cc

-- The trie of at least one account is not empty.
pub root_used :
    (hash value : List ℕ) (rest : List Account) (t : Node)
    → get t (key_path hash) ≡ latest ((hash, value) ∷ rest) hash
    → t ≢ null
unfolding get
root_used hash value rest t e f = or_else-some (latest rest hash) value (
    subst (λ c. or_else (latest rest hash) (if c then some value else none) ≡ none)
      (equal_nibbles_refl hash) (sym e ∙ ap (λ u. get u (key_path hash)) f))

gated :
    (c d : Bool) (row r : NodeRow)
    → Memᴰ row (if not c then [] else if d then [] else r ∷ [])
      ↔ ((row ≡ r) × (c ≡ true) × (d ≡ false))
gated true false row r = (λ m. (Memᴰ.eq_of_singleton m, refl, refl), λ h. Memᴰ.head h.0)
gated true true row r = (λ m. absurd (Memᴰ.not-nil m), λ h. absurd (true≢false h.2))
gated false d row r = (λ m. absurd (Memᴰ.not-nil m), λ h. absurd (true≢false (sym h.1)))

unless_gated :
    (c : Bool) (row r : NodeRow)
    → Memᴰ row (if not c then r ∷ [] else []) ↔ ((row ≡ r) × (c ≡ false))
unless_gated true row r = (λ m. absurd (Memᴰ.not-nil m), λ h. absurd (true≢false h.1))
unless_gated false row r = (λ m. (Memᴰ.eq_of_singleton m, refl), λ h. Memᴰ.head h.0)

differ : (a b : List ℕ) → (same_bytes a b ≡ false) ↔ (a ≢ b)
differ a b = elim (Bool-cases (same_bytes a b)) [
  | inl e ↦ (λ f. absurd (true≢false (sym e ∙ f)), λ n. absurd (n (same_bytes_eq a b e)))
  | inr e ↦
      (λ f p. true≢false (sym (same_bytes_refl b) ∙ ap (λ k. same_bytes k b) (sym p) ∙ f), λ n. e)
]

module _ (coding : Coding) where
  open coding use {keccak}

  pub own_row_iff :
      (location rlp : List ℕ) (row : NodeRow)
      → Memᴰ row (own_row coding location rlp) ↔ (
          (row ≡ (location, keccak rlp, rlp))
          × (32 ≤ length rlp)
          × (keccak rlp ≢ empty_trie_node_hash))
  own_row_iff location rlp row =
      let g =
        gated (is_referenced_by_hash rlp) (same_bytes (keccak rlp) empty_trie_node_hash) row
          (location, keccak rlp, rlp) in
      (
        λ m. let (e, l, d) = g.0 m in (e, ground (arith, l), (differ _ _).0 d),
        λ h. g.1 (h.0, ground (arith, h.1), (differ _ _).1 h.2),
      )

  pub root_row_iff :
      (rlp : List ℕ) (row : NodeRow)
      → Memᴰ row (root_row coding rlp) ↔ ((row ≡ ([], keccak rlp, rlp)) × (length rlp < 32))
  root_row_iff rlp row =
      let g = unless_gated (is_referenced_by_hash rlp) row ([], keccak rlp, rlp) in
      (λ m. let (e, l) = g.0 m in (e, ground (arith, l)), λ h. g.1 (h.0, ground (arith, h.1)))

  -- The row of a node of a trie whose encoding has 32 bytes or more, or of a shorter root.
  abbrev pub IsNodeRow : Node → NodeRow → Type 0
  IsNodeRow t row =
      ((location : List ℕ) × (n : Node) × LeadsTo t location n
        × (row ≡ (location, keccak (encode keccak n), encode keccak n))
        × (32 ≤ length (encode keccak n))
        × (keccak (encode keccak n) ≢ empty_trie_node_hash))
      ⊎ ((row ≡ ([], keccak (encode keccak t), encode keccak t)) × (length (encode keccak t) < 32))

  pub committed_rows_iff :
      (t : Node) (row : NodeRow) → Memᴰ row (committed_rows coding t) ↔ IsNodeRow t row
  committed_rows_iff t row = (
    λ m. elim (Memᴰ.append_cases (rows_of coding t []) m) [
      | inl m' ↦
          let (q, n, l, k) = rows_of-origin coding t [] row m' in
          let (e, long, d) = (own_row_iff q (encode keccak n) row).0 k in inl (q, n, l, e, long, d)
      | inr m' ↦ inr ((root_row_iff (encode keccak t) row).0 m')
    ],
    λ h. elim h [
      | inl (q, n, l, e, long, d) ↦ Memᴰ.append_left (root_row coding (encode keccak t)) (
          rows_of-found coding t [] q n row l
            ((own_row_iff q (encode keccak n) row).1 (e, long, d)))
      | inr k ↦ Memᴰ.append_right (rows_of coding t []) ((root_row_iff (encode keccak t) row).1 k)
    ],
  )
