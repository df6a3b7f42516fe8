-- ===== src/Ethrex/Builder/Encoding.antt =====
-- The builder does with encoded nodes what it does with nodes: a map of nodes that respects two
-- encoders commutes with every operation.
use mathlib.Core.Path.{fun_ext}
use state_actor.Prelude.{
  ℕ, ◌-◌, ◌≡◌, refl, ap, Option, none, some, List, [], ◌∷◌, take, drop, ltb, ◌==◌, get_elem?,
  Bool-cases, inl, inr,
}
use state_actor.Ethrex.Builder.{
  NodeEncoder, Row, node_row, value_row, OpenBranch, store_child, store_at, attach, finalize_branch,
  push_branch, new_branch,
}

pub record IsEncoding {ℓ κ} {N : Type ℓ} {M : Type κ} (e : NodeEncoder N) (d : NodeEncoder M)
    (h : N → M) : Type (ℓ ⊔ κ) where
  pub maps_absent : h e.absent ≡ d.absent
  pub maps_leaf : (p v : List ℕ) → h (e.leaf_node p v) ≡ d.leaf_node p v
  pub maps_extension : (p : List ℕ) (n : N) → h (e.extension_node p n) ≡ d.extension_node p (h n)
  pub maps_branch : (c : ℕ → N) → h (e.branch_node c) ≡ d.branch_node (λ i. h (c i))

module _ {ℓ κ} {N : Type ℓ} {M : Type κ} (h : N → M) where
  abbrev pub map_open : OpenBranch N → OpenBranch M
  map_open f = record { depth = f.depth; children = λ i. h (f.children i) }

  abbrev pub map_stack : List (OpenBranch N) → List (OpenBranch M)
  map_stack [] = []
  map_stack (f ∷ s) = map_open f ∷ map_stack s

  abbrev pub map_row : Row N → Row M
  map_row (node_row p n) = node_row p (h n)
  map_row (value_row p v) = value_row p v

  abbrev pub map_rows : List (Row N) → List (Row M)
  map_rows [] = []
  map_rows (r ∷ rows) = map_row r ∷ map_rows rows

  abbrev pub map_emitted : N × List (Row N) → M × List (Row M)
  map_emitted (n, rows) = (h n, map_rows rows)

  abbrev pub map_spine :
      Option (List (OpenBranch N) × List (Row N)) → Option (List (OpenBranch M) × List (Row M))
  map_spine none = none
  map_spine (some (s, rows)) = some (map_stack s, map_rows rows)

  abbrev pub map_root : Option (N × List (Row N)) → Option (M × List (Row M))
  map_root none = none
  map_root (some r) = some (map_emitted r)

  abbrev pub map_branch : Option (OpenBranch N) → Option (OpenBranch M)
  map_branch none = none
  map_branch (some f) = some (map_open f)

  store_child-map :
      (c : ℕ → N) (i : ℕ) (n : N)
      → store_child (λ j. h (c j)) i (h n) ≡ (λ j. h (store_child c i n j))
  store_child-map c i n =
      fun_ext λ j. elim (Bool-cases (j == i)) [ inl e ↦ rw e refl | inr e ↦ rw e refl ]

  store_at-map :
      (f : OpenBranch N) (n : N) (o : Option ℕ)
      → store_at (map_open f) (h n) o ≡ map_branch (store_at f n o)
  store_at-map f n none = refl
  store_at-map f n (some i) = elim (Bool-cases (ltb i 16)) [
    | inl e ↦
        rw e (
          ap (λ c. some (record { depth = f.depth; children = c }))
            (store_child-map f.children i n))
    | inr e ↦ rw e refl
  ]

  pub attach-map :
      (f : OpenBranch N) (key : List ℕ) (n : N)
      → attach (map_open f) key (h n) ≡ map_branch (attach f key n)
  unfolding attach
  attach-map f key n = store_at-map f n (get_elem? key f.depth)

  pub push_branch-map :
      (rows : List (Row N)) (s : List (OpenBranch N)) (o : Option (OpenBranch N))
      → push_branch (map_rows rows) (map_stack s) (map_branch o) ≡ map_spine (push_branch rows s o)
  push_branch-map rows s none = refl
  push_branch-map rows s (some f) = refl

module _ {ℓ κ} {N : Type ℓ} {M : Type κ} {e : NodeEncoder N} {d : NodeEncoder M} {h : N → M}
    (enc : IsEncoding e d h) where
  pub finalize_branch-map :
      (rows : List (Row N)) (key : List ℕ) (f : OpenBranch N) (from : ℕ)
      → finalize_branch d (map_rows h rows) key (map_open h f) from
        ≡ map_emitted h (finalize_branch e rows key f from)
  unfolding finalize_branch
  finalize_branch-map rows key f from = elim (Bool-cases (ltb 0 (f.depth - from))) [
    | inl t ↦
        rw
          (
            t,
            enc.maps_extension (drop from (take f.depth key)) (e.branch_node f.children),
            enc.maps_branch f.children,
          )
          refl
    | inr t ↦ rw (t, enc.maps_branch f.children) refl
  ]

  pub new_branch-map : (depth : ℕ) → new_branch d depth ≡ map_open h (new_branch e depth)
  new_branch-map depth = rw enc.maps_absent refl
