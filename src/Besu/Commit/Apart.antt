-- ===== src/Besu/Commit/Apart.antt =====
-- No location has two rows.
use mathlib.Core.List.{Memᴰ}
use mathlib.Core.List.Memᴰ
use state_actor.Bytes.{same_bytes}
use state_actor.Besu.Trie.{Node, null, leaf, extension, branch}
use state_actor.Besu.Trie.WellFormed.{IsWellFormed}
use state_actor.Besu.Streaming.{Coding, is_referenced_by_hash, empty_trie_node_hash}
use state_actor.Besu.Commit.Rows.{NodeRow, child_rows, own_row, rows_of}
use state_actor.Besu.Commit.Whole.{root_row, committed_rows}
use state_actor.Besu.Commit.Occurs.{LeadsTo, rows_of-origin}
use state_actor.Besu.Commit.Stored.{own_row_iff, root_row_iff}
use state_actor.Ethrex.Builder.Bytes.{encode}
use state_actor.Prelude.{
  ℕ, zero, suc, ◌+◌, ◌≤◌, ◌<◌, ◌≡◌, ◌≢◌, refl, sym, ap, ◌∙◌, arith, Bool, true, false, not, List,
  [], ◌∷◌, ◌++◌, length, length-append, inl, inr, if◌then◌else◌,
}

-- The locations of rows are pairwise different.
abbrev pub Apart : List NodeRow → Type 0
Apart [] = Unit
Apart (row ∷ rows) = ((other : NodeRow) → Memᴰ other rows → other.0 ≢ row.0) × Apart rows

Apart-append :
    (xs ys : List NodeRow)
    → Apart xs
    → Apart ys
    → ((x y : NodeRow) → Memᴰ x xs → Memᴰ y ys → y.0 ≢ x.0)
    → Apart (xs ++ ys)
Apart-append [] ys h k d = k
Apart-append (row ∷ xs) ys h k d = (
  λ other m. elim (Memᴰ.append_cases xs m) [
    | inl m' ↦ h.0 other m'
    | inr m' ↦ d row other (Memᴰ.head refl) m'
  ],
  Apart-append xs ys h.1 k (λ x y m. d x y (Memᴰ.tail m)),
)

none_Apart : (other row : NodeRow) → Memᴰ other [] → other.0 ≢ row.0
none_Apart other row m = absurd (Memᴰ.not-nil m)

gated_Apart :
    (c d : Bool) (row : NodeRow) → Apart (if not c then [] else if d then [] else row ∷ [])
gated_Apart false d row = tt
gated_Apart true true row = tt
gated_Apart true false row = (λ other m. none_Apart other row m, tt)

unless_Apart : (c : Bool) (row : NodeRow) → Apart (if not c then row ∷ [] else [])
unless_Apart false row = (λ other m. none_Apart other row m, tt)
unless_Apart true row = tt

empty : (p : List ℕ) → length p ≡ 0 → p ≡ []
empty [] h = refl
empty (x ∷ p) h = absurd (omega arith)

-- A location is not below itself.
not_below : (location p q : List ℕ) → p ≢ [] → location ≢ (location ++ p) ++ q
not_below location p q n e =
    let size : length location ≡ length ((location ++ p) ++ q) = ap length e in
    n (empty p (omega (arith, size, length-append (location ++ p) q, length-append location p)))

same_child :
    (location : List ℕ) (i j : ℕ) (q r : List ℕ)
    → (location ++ (i ∷ [])) ++ q ≡ (location ++ (j ∷ [])) ++ r
    → i ≡ j
same_child [] i j q r e = cc
same_child (x ∷ location) i j q r e = same_child location i j q r (cc)

child_rows-from :
    (left : ℕ) (rows : ℕ → List NodeRow) (i : ℕ) (row : NodeRow)
    → Memᴰ row (child_rows left rows i)
    → (j : ℕ) × (i ≤ j) × Memᴰ row (rows j)
unfolding child_rows
child_rows-from zero rows i row m = absurd (Memᴰ.not-nil m)
child_rows-from (suc left) rows i row m = elim (Memᴰ.append_cases (rows i) m) [
  | inl m' ↦ (i, omega arith, m')
  | inr m' ↦ let (j, l, m'') = child_rows-from left rows (i + 1) row m' in (j, omega arith, m'')
]

child_rows-Apart :
    (left : ℕ) (rows : ℕ → List NodeRow) (i : ℕ)
    → ((j : ℕ) → Apart (rows j))
    → ((j k : ℕ) (x y : NodeRow) → j < k → Memᴰ x (rows j) → Memᴰ y (rows k) → y.0 ≢ x.0)
    → Apart (child_rows left rows i)
unfolding child_rows
child_rows-Apart zero rows i h d = tt
child_rows-Apart (suc left) rows i h d =
    Apart-append (rows i) (child_rows left rows (i + 1)) (h i)
      (child_rows-Apart left rows (i + 1) h d)
      (λ x y m m'.
        let (k, l, m'') = child_rows-from left rows (i + 1) y m' in d i k x y (omega arith) m m'')

module _ (coding : Coding) where
  open coding use {keccak}

  own_row-location :
      (location rlp : List ℕ) (row : NodeRow)
      → Memᴰ row (own_row coding location rlp)
      → row.0 ≡ location
  own_row-location location rlp row m =
      ap (λ (r : NodeRow). r.0) ((own_row_iff coding location rlp row).0 m).0

  own_row-Apart : (location rlp : List ℕ) → Apart (own_row coding location rlp)
  own_row-Apart location rlp =
      gated_Apart (is_referenced_by_hash rlp) (same_bytes (keccak rlp) empty_trie_node_hash)
        (location, keccak rlp, rlp)

  rows_of-location :
      (t : Node) (location : List ℕ) (row : NodeRow)
      → Memᴰ row (rows_of coding t location)
      → (q : List ℕ) × (row.0 ≡ location ++ q)
  rows_of-location t location row m =
      let (q, n, l, k) = rows_of-origin coding t location row m in
      (q, own_row-location (location ++ q) (encode keccak n) row k)

  -- What stands below a node, before the node.
  with_own :
      (rows : List NodeRow) (location rlp : List ℕ)
      → Apart rows
      → ((row : NodeRow) → Memᴰ row rows → location ≢ row.0)
      → Apart (rows ++ own_row coding location rlp)
  with_own rows location rlp h d =
      Apart-append rows (own_row coding location rlp) h (own_row-Apart location rlp)
        (λ x y m m' e. d x m (sym (own_row-location location rlp y m') ∙ e))

  below :
      (t : Node) (location p : List ℕ) (row : NodeRow)
      → p ≢ []
      → Memᴰ row (rows_of coding t (location ++ p))
      → location ≢ row.0
  below t location p row n m e =
      let (q, f) = rows_of-location t (location ++ p) row m in not_below location p q n (e ∙ f)

  rows_of-Apart :
      (n : ℕ) (t : Node) (location : List ℕ) → IsWellFormed n t → Apart (rows_of coding t location)
  unfolding rows_of
  rows_of-Apart n null location wf = tt
  rows_of-Apart n (leaf p v) location wf = own_row-Apart location (encode keccak (leaf p v))
  rows_of-Apart n (extension p c) location wf =
      with_own (rows_of coding c (location ++ p)) location (encode keccak (extension p c))
        (rows_of-Apart wf.0 c (location ++ p) wf.5) (λ row. below c location p row wf.2)
  rows_of-Apart n (branch children bv) location wf =
      let rows : ℕ → List NodeRow = λ i. rows_of coding (children i) (location ++ (i ∷ [])) in
      with_own (child_rows 16 rows 0) location (encode keccak (branch children bv))
        (child_rows-Apart 16 rows 0
          (λ j. rows_of-Apart wf.0 (children j) (location ++ (j ∷ [])) (wf.3 j))
          (λ j k x y l m m' e.
            let (q, f) = rows_of-location (children j) (location ++ (j ∷ [])) x m in
            let (r, g) = rows_of-location (children k) (location ++ (k ∷ [])) y m' in
            let same : k ≡ j = same_child location k j r q (sym g ∙ e ∙ f) in omega arith))
        (λ row m.
          let (j, l, m') = child_rows-from 16 rows 0 row m in
          below (children j) location (j ∷ []) row (λ e. cc) m')

  -- The empty path leads to the root alone.
  root_of_path :
      (n : ℕ) (t : Node) (q : List ℕ) (u : Node) → IsWellFormed n t → q ≡ [] → LeadsTo t q u → u ≡ t
  root_of_path n null q u wf e l = absurd l
  root_of_path n (leaf p v) q u wf e l = l.1
  root_of_path n (extension p c) q u wf e (inl l) = l.1
  root_of_path n (extension p c) q u wf e (inr (r, f, l)) =
      absurd (wf.2 (empty p (omega (arith, ap length (sym f ∙ e), length-append p r))))
  root_of_path n (branch children bv) q u wf e (inl l) = l.1
  root_of_path n (branch children bv) q u wf e (inr (i, r, h, f, l)) = cc

  pub committed_rows-Apart : (n : ℕ) (t : Node) → IsWellFormed n t → Apart (committed_rows coding t)
  committed_rows-Apart n t wf =
      Apart-append (rows_of coding t []) (root_row coding (encode keccak t))
        (rows_of-Apart n t [] wf)
        (unless_Apart (is_referenced_by_hash (encode keccak t))
          ([], keccak (encode keccak t), encode keccak t))
        (λ x y m m' e.
          let (q, u, l, k) = rows_of-origin coding t [] x m in
          let (f, long, d) = (own_row_iff coding q (encode keccak u) x).0 k in
          let (g, short) = (root_row_iff coding (encode keccak t) y).0 m' in
          let path : q ≡ [] =
            sym (ap (λ (r : NodeRow). r.0) f) ∙ sym e ∙ ap (λ (r : NodeRow). r.0) g in
          let same : u ≡ t = root_of_path n t q u wf path l in
          let sizes : length (encode keccak u) ≡ length (encode keccak t) =
            ap (λ v. length (encode keccak v)) same in
          omega (arith, long, short, sizes))
