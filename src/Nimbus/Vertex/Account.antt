-- ===== src/Nimbus/Vertex/Account.antt =====
-- The payload of an account leaf: its fields, and how the encoder puts them together.
use state_actor.Prelude.{
  ℕ, ◌+◌, ◌-◌, ◌*◌, ◌/◌, ◌%◌, ◌^◌, ◌≤◌, ◌≡◌, refl, sym, ap, ◌∙◌, arith, Bool, true, false, not,
  Option, some, List, [], ◌∷◌, ◌++◌, append_assoc, append-nil, length, length-append, take-append,
  drop-append, ltb, ◌==◌, if◌then◌else◌,
}
use state_actor.Bytes.{same_bytes}
use state_actor.Nimbus.Sbe.{IsU64, sbe_len, append_sbe}
use state_actor.Nimbus.Vertex.{
  Uint256, Fields, put_field, append_acc_leaf_payload, max_sto_hint, mask_nonce, mask_balance,
  mask_sto_id, mask_code_hash, mask_sto_hint,
}
use state_actor.Nimbus.Vertex.Decode.{field, read_hint}
use state_actor.Nimbus.Vertex.Masks.{when, or_if, or_if_nothing, put_field-eq, mask_of, lens_of}

-- A field that is there is read back, one that is not has its default.
pub field_read :
    {A : Type 0} (b : Bool) (n : ℕ) (read : List ℕ → Option A) (absent a : A) (bytes rest : List ℕ)
    → (b ≡ true → (n ≡ length bytes) × (read bytes ≡ some a))
    → (b ≡ false → a ≡ absent)
    → field b n read absent (when b bytes ++ rest) ≡ some (a, rest)
field_read true n read absent a bytes rest h k =
    let fits : ltb (length (bytes ++ rest)) (length bytes) ≡ false = room bytes rest in
    rw ((h refl).0, fits, take-append bytes rest, drop-append bytes rest, (h refl).1) refl
  where
    room : (a b : List ℕ) → ltb (length (a ++ b)) (length a) ≡ false
    room a b = ground (arith, length-append a b)
field_read false n read absent a bytes rest h k = ap (λ x. some (x, rest)) (sym (k refl))

-- The 256-bit integers: at most 32 bytes, which spell those that are not zero.
pub record IsUint256 {U : Type 0} (u : Uint256 U) : Type 0 where
  pub zero_eq : (v : U) → u.is_zero v ≡ true → v ≡ u.zero_int
  pub short : (v : U) → length (u.bytes v) ≤ 32
  pub some_bytes : (v : U) → u.is_zero v ≡ false → 1 ≤ length (u.bytes v)
  pub set_bytes-bytes : (v : U) → u.is_zero v ≡ false → u.set_bytes (u.bytes v) ≡ v

-- An account's fields, in range.
pub record IsAccount (nonce sto_id sto_hint : ℕ) (code_hash : List ℕ) : Type 0 where
  pub nonce_small : IsU64 nonce
  pub sto_id_small : IsU64 sto_id
  pub sto_hint_small : sto_hint ≤ max_sto_hint
  pub code_hash_size : length code_hash ≡ 32

pub when_short :
    (b : Bool) (bytes : List ℕ) (n : ℕ) → (b ≡ true → length bytes ≤ n) → length (when b bytes) ≤ n
when_short true bytes n h = h refl
when_short false bytes n h = omega arith

-- A length less one, and its one added again.
pub size_read : (b : Bool) (n x : ℕ) → n ≡ (if b then x - 1 else 0) → 1 ≤ x → b ≡ true → n + 1 ≡ x
size_read true n x e h k = omega arith
size_read false n x e h k = cc

pub absent_number : (n : ℕ) → ltb 0 n ≡ false → n ≡ 0
absent_number n h = ground arith

pub absent_id : (n : ℕ) → not (n == 0) ≡ false → n ≡ 0
absent_id n h = ground arith

pub negated_false : (b : Bool) → not b ≡ false → b ≡ true
negated_false true h = refl
negated_false false h = cc

pub negated_true : (b : Bool) → not b ≡ true → b ≡ false
negated_true true h = cc
negated_true false h = refl

pub hint_read : (x : ℕ) → x ≤ max_sto_hint → read_hint (x ∷ []) ≡ some x
hint_read x h = ground arith

pub append_five :
    (a b c d e : List ℕ) → (((a ++ b) ++ c) ++ d) ++ e ≡ a ++ (b ++ (c ++ (d ++ (e ++ []))))
append_five a b c d e =
    append_assoc ((a ++ b) ++ c) d e
    ∙ append_assoc (a ++ b) c (d ++ e)
    ∙ append_assoc a b (c ++ (d ++ e))
    ∙ ap (λ l. a ++ (b ++ (c ++ (d ++ l)))) (sym (append-nil e))

module _ {U : Type 0} (u : Uint256 U) (empty_code_hash : List ℕ) where
  -- The fields' bytes, in their order.
  abbrev pub fields_of : ℕ → U → ℕ → ℕ → List ℕ → List ℕ
  fields_of nonce balance sto_id sto_hint code_hash =
      when (ltb 0 nonce) (append_sbe [] nonce)
      ++ (when (not (u.is_zero balance)) (u.bytes balance)
          ++ (when (not (sto_id == 0)) (append_sbe [] sto_id)
              ++ (when (ltb 0 sto_hint) (sto_hint ∷ [])
                  ++ (when (not (same_bytes code_hash empty_code_hash)) code_hash ++ []))))

  abbrev pub mask_for : ℕ → U → ℕ → ℕ → List ℕ → ℕ
  mask_for nonce balance sto_id sto_hint code_hash =
      mask_of (ltb 0 nonce) (not (u.is_zero balance)) (not (sto_id == 0)) (ltb 0 sto_hint)
        (not (same_bytes code_hash empty_code_hash))

  abbrev pub lens_for : ℕ → U → ℕ → ℕ
  lens_for nonce balance sto_id =
      lens_of (ltb 0 nonce) (not (u.is_zero balance)) (not (sto_id == 0)) (sbe_len nonce - 1)
        (length (u.bytes balance) - 1) (sbe_len sto_id - 1)

  pub payload-eq :
      (nonce : ℕ) (balance : U) (sto_id sto_hint : ℕ) (code_hash : List ℕ)
      → append_acc_leaf_payload u empty_code_hash [] nonce (some balance) sto_id sto_hint code_hash
        ≡ fields_of nonce balance sto_id sto_hint code_hash
          ++ ((lens_for nonce balance sto_id / 2 ^ 8 % 256)
              ∷ (lens_for nonce balance sto_id % 256)
              ∷ mask_for nonce balance sto_id sto_hint code_hash
              ∷ [])
  unfolding append_acc_leaf_payload
  payload-eq nonce balance sto_id sto_hint code_hash =
      let b1 = ltb 0 nonce in
      let b2 = not (u.is_zero balance) in
      let b3 = not (sto_id == 0) in
      let b4 = ltb 0 sto_hint in
      let b5 = not (same_bytes code_hash empty_code_hash) in
      let f1 = put_field b1 mask_nonce (sbe_len nonce - 1) (append_sbe [] nonce) in
      let f2 =
        put_field b2 mask_balance ((length (u.bytes balance) - 1) * 2 ^ 3) (u.bytes balance) in
      let f3 = put_field b3 mask_sto_id ((sbe_len sto_id - 1) * 2 ^ 8) (append_sbe [] sto_id) in
      let f4 = put_field b4 mask_sto_hint 0 (sto_hint ∷ []) in
      let f5 = put_field b5 mask_code_hash 0 code_hash in
      let close =
        λ (p : Fields). p.dst ++ ((p.lens / 2 ^ 8 % 256) ∷ (p.lens % 256) ∷ p.mask ∷ []) in
      let w1 = when b1 (append_sbe [] nonce) in
      let w2 = when b2 (u.bytes balance) in
      let w3 = when b3 (append_sbe [] sto_id) in
      let w4 = when b4 (sto_hint ∷ []) in
      let w5 = when b5 code_hash in
      let mask = mask_for nonce balance sto_id sto_hint code_hash in
      let lens = lens_for nonce balance sto_id in
      ap (λ p. close (f5 (f4 (f3 (f2 p))))) (put_field-eq b1 _ _ _ _)
      ∙ ap (λ p. close (f5 (f4 (f3 p)))) (put_field-eq b2 _ _ _ _)
      ∙ ap (λ p. close (f5 (f4 p))) (put_field-eq b3 _ _ _ _)
      ∙ ap (λ p. close (f5 p)) (put_field-eq b4 _ _ _ _)
      ∙ ap close (put_field-eq b5 _ _ _ _)
      ∙ ap (λ n. close (record { dst = (((w1 ++ w2) ++ w3) ++ w4) ++ w5; lens = n; mask = mask }))
          (ap (λ n. or_if b5 n (0 % 2 ^ 16)) (or_if_nothing b4 lens) ∙ or_if_nothing b5 lens)
      ∙ ap (λ l. close (record { dst = l; lens = lens; mask = mask })) (append_five w1 w2 w3 w4 w5)
