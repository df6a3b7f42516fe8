-- ===== src/Besu/Commit/Occurs.antt =====
-- Which rows a trie has: those of the nodes in it, each at the path that leads to it.
use mathlib.Core.List.{Memᴰ}
use mathlib.Core.List.Memᴰ
use mathlib.Core.Path.{subst}
use state_actor.Besu.Trie.{Node, null, leaf, extension, branch}
use state_actor.Besu.Streaming.{Coding}
use state_actor.Besu.Commit.Rows.{NodeRow, child_rows, own_row, rows_of}
use state_actor.Ethrex.Builder.Bytes.{encode}
use state_actor.Prelude.{
  ℕ, zero, suc, ◌+◌, ◌≤◌, ◌<◌, ◌≡◌, ◌⊎◌, refl, sym, ap, ◌∙◌, arith, List, [], ◌∷◌, ◌++◌,
  append_assoc, append-nil, Bool-cases, inl, inr, ◌==◌, ==_iff,
}

-- The path `q` leads from a trie to the node `n` in it.
abbrev pub LeadsTo : Node → List ℕ → Node → Type 0
LeadsTo null q n = ⊥
LeadsTo (leaf p v) q n = (q ≡ []) × (n ≡ leaf p v)
LeadsTo (extension p c) q n =
    ((q ≡ []) × (n ≡ extension p c)) ⊎ ((r : List ℕ) × (q ≡ p ++ r) × LeadsTo c r n)
LeadsTo (branch children bv) q n =
    ((q ≡ []) × (n ≡ branch children bv))
    ⊎ ((i : ℕ) × (r : List ℕ) × (i < 16) × (q ≡ i ∷ r) × LeadsTo (children i) r n)

-- Among the rows of `left` children from `i` on.
child_rows-found :
    (left : ℕ) (rows : ℕ → List NodeRow) (i j : ℕ) (row : NodeRow)
    → i ≤ j
    → j < i + left
    → Memᴰ row (rows j)
    → Memᴰ row (child_rows left rows i)
unfolding child_rows
child_rows-found zero rows i j row lo hi m = absurd (omega arith)
child_rows-found (suc left) rows i j row lo hi m = elim (Bool-cases (i == j)) [
  | inl e ↦ Memᴰ.append_left _ (subst (λ k. Memᴰ row (rows k)) (sym ((==_iff i j).0 e)) m)
  | inr e ↦
      Memᴰ.append_right (rows i)
        (child_rows-found left rows (i + 1) j row (ground arith) (omega arith) m)
]

child_rows-origin :
    (left : ℕ) (rows : ℕ → List NodeRow) (i : ℕ) (row : NodeRow)
    → Memᴰ row (child_rows left rows i)
    → (j : ℕ) × (j < i + left) × Memᴰ row (rows j)
unfolding child_rows
child_rows-origin zero rows i row m = absurd (Memᴰ.not-nil m)
child_rows-origin (suc left) rows i row m = elim (Memᴰ.append_cases (rows i) m) [
  | inl m' ↦ (i, omega arith, m')
  | inr m' ↦ let (j, l, m'') = child_rows-origin left rows (i + 1) row m' in (j, omega arith, m'')
]

module _ (coding : Coding) where
  open coding use {keccak}

  -- The row of a node in the trie, which stands behind `location`.
  abbrev pub IsRowOf : Node → List ℕ → NodeRow → Type 0
  IsRowOf t location row =
      (q : List ℕ) × (n : Node) × LeadsTo t q n
      × Memᴰ row (own_row coding (location ++ q) (encode keccak n))

  moved :
      (l l' : List ℕ) (n n' : Node) (row : NodeRow)
      → l ≡ l'
      → n ≡ n'
      → Memᴰ row (own_row coding l (encode keccak n))
      → Memᴰ row (own_row coding l' (encode keccak n'))
  moved l l' n n' row e f m =
      subst (λ k. Memᴰ row (own_row coding k (encode keccak n'))) e
        (subst (λ k. Memᴰ row (own_row coding l (encode keccak k))) f m)

  at_end : (location q : List ℕ) → q ≡ [] → location ++ q ≡ location
  at_end location q e = ap (λ k. location ++ k) e ∙ append-nil location

  further : (location p q r : List ℕ) → q ≡ p ++ r → location ++ q ≡ (location ++ p) ++ r
  further location p q r e = ap (λ k. location ++ k) e ∙ sym (append_assoc location p r)

  pub rows_of-found :
      (t : Node) (location q : List ℕ) (n : Node) (row : NodeRow)
      → LeadsTo t q n
      → Memᴰ row (own_row coding (location ++ q) (encode keccak n))
      → Memᴰ row (rows_of coding t location)
  unfolding rows_of
  rows_of-found null location q n row l m = absurd l
  rows_of-found (leaf p v) location q n row (e, f) m =
      moved _ _ n (leaf p v) row (at_end location q e) f m
  rows_of-found (extension p c) location q n row (inl (e, f)) m =
      Memᴰ.append_right (rows_of coding c (location ++ p))
        (moved _ _ n (extension p c) row (at_end location q e) f m)
  rows_of-found (extension p c) location q n row (inr (r, e, l)) m =
      Memᴰ.append_left (own_row coding location (encode keccak (extension p c))) (
        rows_of-found c (location ++ p) r n row l
          (moved _ _ n n row (further location p q r e) refl m))
  rows_of-found (branch children bv) location q n row (inl (e, f)) m =
      Memᴰ.append_right (child_rows 16 (λ i. rows_of coding (children i) (location ++ (i ∷ []))) 0)
        (moved _ _ n (branch children bv) row (at_end location q e) f m)
  rows_of-found (branch children bv) location q n row (inr (i, r, h, e, l)) m =
      Memᴰ.append_left (own_row coding location (encode keccak (branch children bv))) (
        child_rows-found 16 (λ j. rows_of coding (children j) (location ++ (j ∷ []))) 0 i row
          (omega arith) (omega arith)
          (rows_of-found (children i) (location ++ (i ∷ [])) r n row l
            (moved _ _ n n row (further location (i ∷ []) q r e) refl m)))

  pub rows_of-origin :
      (t : Node) (location : List ℕ) (row : NodeRow)
      → Memᴰ row (rows_of coding t location)
      → IsRowOf t location row
  unfolding rows_of
  rows_of-origin null location row m = absurd (Memᴰ.not-nil m)
  rows_of-origin (leaf p v) location row m =
      ([], leaf p v, (refl, refl), moved _ _ (leaf p v) _ row (sym (append-nil location)) refl m)
  rows_of-origin (extension p c) location row m =
      elim (Memᴰ.append_cases (rows_of coding c (location ++ p)) m) [
        | inl m' ↦
            let (q, n, l, k) = rows_of-origin c (location ++ p) row m' in
            (p ++ q, n, inr (q, refl, l), moved _ _ n n row (append_assoc location p q) refl k)
        | inr m' ↦ (
          [],
          extension p c,
          inl (refl, refl),
          moved _ _ (extension p c) _ row (sym (append-nil location)) refl m',
        )
      ]
  rows_of-origin (branch children bv) location row m =
      elim (Memᴰ.append_cases
        (child_rows 16 (λ i. rows_of coding (children i) (location ++ (i ∷ []))) 0) m) [
          | inl m' ↦
              let (i, h, m'') =
                child_rows-origin 16 (λ i. rows_of coding (children i) (location ++ (i ∷ []))) 0 row
                  m' in
              let (q, n, l, k) = rows_of-origin (children i) (location ++ (i ∷ [])) row m'' in
              (
                i ∷ q,
                n,
                inr (i, q, h, refl, l),
                moved _ _ n n row (append_assoc location (i ∷ []) q) refl k,
              )
          | inr m' ↦ (
            [],
            branch children bv,
            inl (refl, refl),
            moved _ _ (branch children bv) _ row (sym (append-nil location)) refl m',
          )
        ]
