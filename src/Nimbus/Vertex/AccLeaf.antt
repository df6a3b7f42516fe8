-- ===== src/Nimbus/Vertex/AccLeaf.antt =====
-- Account leaves, written and read.
use state_actor.Prelude.{
  ℕ, ◌+◌, ◌-◌, ◌/◌, ◌%◌, ◌^◌, ◌≤◌, ◌≡◌, refl, sym, ap, ◌∙◌, arith, true, false, not, some, List, [],
  ◌∷◌, ◌++◌, append_assoc, length, length-append, ltb, ◌==◌, nonzero, bit_and,
}
use state_actor.Bytes.{Nibbles, same_bytes, same_bytes_eq}
use state_actor.Nimbus.Sbe.{sbe_len, append_sbe, decode_sbe}
use state_actor.Nimbus.Sbe.RoundTrip.{sbe_len_range, decode_sbe-append_sbe}
use state_actor.Bytes.Slices.{last_byte, last_byte-append, slice-append, take_all}
use state_actor.Nimbus.Vertex.{
  Uint256, Vertex, acc_leaf, append_leaf_record, append_acc_leaf_payload, mask_sto_leaf,
}
use state_actor.Nimbus.Vertex.Decode.{
  be16, has, decode_leaf, decode_sbe256, no_vertex, read_hint, decode_fields,
}
use state_actor.Nimbus.Vertex.Segments.{ReadsBack}
use state_actor.Nimbus.Vertex.Leaf.{leaf_record, within_32}
use state_actor.Nimbus.Vertex.Branch.{length-append_sbe, be16-used_bytes}
use state_actor.Nimbus.Vertex.Account.{
  IsAccount, IsUint256, absent_id, absent_number, field_read, fields_of, hint_read, lens_for,
  mask_for, negated_false, negated_true, payload-eq, size_read, when_short,
}
use state_actor.Nimbus.Vertex.Masks.{when, Reads, mask_of-Reads, ReadsLens, lens_of-ReadsLens}

module _ {U : Type 0} (u : Uint256 U) (empty_code_hash : List ℕ) where
  -- The vertex that the decoder returns.
  abbrev pub acc_leaf_vertex : List ℕ → ℕ → U → ℕ → ℕ → List ℕ → Vertex U
  acc_leaf_vertex pfx nonce balance sto_id sto_hint code_hash =
      record (no_vertex u empty_code_hash) {
        vertex_type = acc_leaf;
        pfx = pfx;
        nonce = nonce;
        balance = some balance;
        sto_id = sto_id;
        sto_hint = sto_hint;
        code_hash = code_hash;
      }

  balance_read :
      IsUint256 u
      → (v : U) → u.is_zero v ≡ false
      → decode_sbe256 u empty_code_hash (u.bytes v) ≡ some v
  unfolding decode_sbe256
  balance_read laws v h =
      rw
        (
          within_32 (length (u.bytes v)) (laws.some_bytes v h) (laws.short v),
          laws.set_bytes-bytes v h,
        )
        refl

  decode_fields-fields_of :
      IsUint256 u
      → (mask lens nonce : ℕ) (balance : U) (sto_id sto_hint : ℕ) (code_hash pfx : List ℕ)
      → let b1 = ltb 0 nonce in
        let b2 = not (u.is_zero balance) in
        let b3 = not (sto_id == 0) in
        Reads mask b1 b2 b3 (ltb 0 sto_hint) (not (same_bytes code_hash empty_code_hash))
        → ReadsLens lens b1 b2 b3
            (sbe_len nonce - 1)
            (length (u.bytes balance) - 1)
            (sbe_len sto_id - 1)
        → IsAccount nonce sto_id sto_hint code_hash
        → decode_fields u empty_code_hash mask lens
            (fields_of u empty_code_hash nonce balance sto_id sto_hint code_hash)
            pfx
          ≡ some (acc_leaf_vertex pfx nonce balance sto_id sto_hint code_hash)
  unfolding decode_fields
  decode_fields-fields_of laws mask lens nonce balance sto_id sto_hint code_hash pfx m l ok =
      let b1 = ltb 0 nonce in
      let b2 = not (u.is_zero balance) in
      let b3 = not (sto_id == 0) in
      let b4 = ltb 0 sto_hint in
      let b5 = not (same_bytes code_hash empty_code_hash) in
      let rest5 = when b5 code_hash ++ [] in
      let rest4 = when b4 (sto_hint ∷ []) ++ rest5 in
      let rest3 = when b3 (append_sbe [] sto_id) ++ rest4 in
      let rest2 = when b2 (u.bytes balance) ++ rest3 in
      let r1 =
        field_read b1 (bit_and lens 0b111 + 1) decode_sbe 0 nonce (append_sbe [] nonce) rest2
          (λ e. (
            size_read b1 (bit_and lens 0b111) (sbe_len nonce) l.nonce_size
                  (sbe_len_range nonce ok.nonce_small).0 e
                ∙ sym (length-append_sbe nonce),
            decode_sbe-append_sbe nonce ok.nonce_small,
          ))
          (absent_number nonce) in
      let r2 =
        field_read b2 (bit_and (lens / 2 ^ 3) 0b11111 + 1) (decode_sbe256 u empty_code_hash)
          u.zero_int balance (u.bytes balance) rest3
          (λ e. (
            size_read b2 (bit_and (lens / 2 ^ 3) 0b11111) (length (u.bytes balance)) l.balance_size
                (laws.some_bytes balance (negated_true (u.is_zero balance) e)) e,
            balance_read laws balance (negated_true (u.is_zero balance) e),
          ))
          (λ e. laws.zero_eq balance (negated_false (u.is_zero balance) e)) in
      let r3 =
        field_read b3 (bit_and (lens / 2 ^ 8) 0b111 + 1) decode_sbe 0 sto_id (append_sbe [] sto_id)
          rest4
          (λ e. (
            size_read b3 (bit_and (lens / 2 ^ 8) 0b111) (sbe_len sto_id) l.sto_id_size
                  (sbe_len_range sto_id ok.sto_id_small).0 e
                ∙ sym (length-append_sbe sto_id),
            decode_sbe-append_sbe sto_id ok.sto_id_small,
          ))
          (absent_id sto_id) in
      let r4 =
        field_read b4 1 read_hint 0 sto_hint (sto_hint ∷ []) rest5
          (λ e. (refl, hint_read sto_hint ok.sto_hint_small)) (absent_number sto_hint) in
      let r5 =
        field_read b5 32 some empty_code_hash code_hash code_hash []
          (λ e. (sym ok.code_hash_size, refl))
          (λ e.
            same_bytes_eq code_hash empty_code_hash
              (negated_false (same_bytes code_hash empty_code_hash) e)) in
      rw
        (
          m.nonce_bit, m.balance_bit, m.sto_id_bit, m.sto_hint_bit, m.code_hash_bit, r1, r2, r3, r4,
          r5,
        )
        refl

  fields_short :
      IsUint256 u
      → (nonce : ℕ) (balance : U) (sto_id sto_hint : ℕ) (code_hash : List ℕ)
      → IsAccount nonce sto_id sto_hint code_hash
      → length (fields_of u empty_code_hash nonce balance sto_id sto_hint code_hash) ≤ 81
  fields_short laws nonce balance sto_id sto_hint code_hash ok =
      let w1 = when (ltb 0 nonce) (append_sbe [] nonce) in
      let w2 = when (not (u.is_zero balance)) (u.bytes balance) in
      let w3 = when (not (sto_id == 0)) (append_sbe [] sto_id) in
      let w4 = when (ltb 0 sto_hint) (sto_hint ∷ []) in
      let w5 = when (not (same_bytes code_hash empty_code_hash)) code_hash in
      omega (
        arith,
        length-append w1 (w2 ++ (w3 ++ (w4 ++ (w5 ++ [])))),
        length-append w2 (w3 ++ (w4 ++ (w5 ++ []))),
        length-append w3 (w4 ++ (w5 ++ [])),
        length-append w4 (w5 ++ []),
        length-append w5 [],
        when_short (ltb 0 nonce) (append_sbe [] nonce) 8
            (λ e. omega (arith, length-append_sbe nonce, sbe_len_range nonce ok.nonce_small)),
        when_short (not (u.is_zero balance)) (u.bytes balance) 32 (λ e. laws.short balance),
        when_short (not (sto_id == 0)) (append_sbe [] sto_id) 8
            (λ e. omega (arith, length-append_sbe sto_id, sbe_len_range sto_id ok.sto_id_small)),
        when_short (ltb 0 sto_hint) (sto_hint ∷ []) 1 (λ e. omega arith),
        when_short (not (same_bytes code_hash empty_code_hash)) code_hash 32
            (λ e. omega (arith, ok.code_hash_size)),
      )

  decode_leaf-account :
      (fields : List ℕ) (high low mask : ℕ) (pfx : List ℕ)
      → has mask mask_sto_leaf ≡ false
      → (bit_and mask 0xe0 == 0) ≡ true
      → decode_leaf u empty_code_hash (fields ++ (high ∷ low ∷ mask ∷ [])) pfx
        ≡ decode_fields u empty_code_hash mask (be16 (high ∷ low ∷ [])) fields pfx
  unfolding decode_leaf
  decode_leaf-account fields high low mask pfx h k =
      let payload = fields ++ (high ∷ low ∷ mask ∷ []) in
      let n = length-append fields (high ∷ low ∷ mask ∷ []) in
      let last : last_byte payload ≡ mask =
        ap last_byte (sym (append_assoc fields (high ∷ low ∷ []) (mask ∷ [])))
        ∙ last_byte-append (fields ++ (high ∷ low ∷ [])) mask in
      let some_data = nonzero (length payload) (omega (arith, n)) in
      let long = not_short (length payload) (omega (arith, n)) in
      let lens =
        slice-append fields (high ∷ low ∷ []) (mask ∷ []) (length payload - 3) (length payload - 1)
          (omega (arith, n)) (omega (arith, n)) in
      let front =
        take_all fields (high ∷ low ∷ mask ∷ []) (length payload - 3) (omega (arith, n)) in
      rw (some_data, last, h, k, long, lens, front) refl
    where
      not_short : (n : ℕ) → 3 ≤ n → ltb n 3 ≡ false
      not_short n h = ground arith

  pub decode_vertex-append_acc_leaf :
      IsUint256 u
      → (nonce : ℕ) (balance : U) (sto_id sto_hint : ℕ) (code_hash pfx : List ℕ)
      → IsAccount nonce sto_id sto_hint code_hash
      → Nibbles pfx
      → length pfx ≤ 64
      → ReadsBack u empty_code_hash
          (some (
            append_leaf_record []
              (append_acc_leaf_payload u empty_code_hash [] nonce
                (some balance)
                sto_id
                sto_hint
                code_hash)
              pfx))
          (acc_leaf_vertex pfx nonce balance sto_id sto_hint code_hash)
  decode_vertex-append_acc_leaf laws nonce balance sto_id sto_hint code_hash pfx ok p l =
      let fields = fields_of u empty_code_hash nonce balance sto_id sto_hint code_hash in
      let mask = mask_for u empty_code_hash nonce balance sto_id sto_hint code_hash in
      let lens = lens_for u empty_code_hash nonce balance sto_id in
      let m =
        mask_of-Reads (ltb 0 nonce) (not (u.is_zero balance)) (not (sto_id == 0)) (ltb 0 sto_hint)
          (not (same_bytes code_hash empty_code_hash)) in
      let n8 = (sbe_len_range nonce ok.nonce_small).1 in
      let i8 = (sbe_len_range sto_id ok.sto_id_small).1 in
      let l' =
        lens_of-ReadsLens (ltb 0 nonce) (not (u.is_zero balance)) (not (sto_id == 0))
          (sbe_len nonce - 1) (length (u.bytes balance) - 1) (sbe_len sto_id - 1)
          (omega (arith, n8)) (omega (arith, laws.short balance)) (omega (arith, i8)) in
      let short = fields_short laws nonce balance sto_id sto_hint code_hash ok in
      rw (payload-eq u empty_code_hash nonce balance sto_id sto_hint code_hash) (
        leaf_record u empty_code_hash _ pfx _ (omega (arith, length-append fields _))
          (omega (arith, length-append fields _)) p l
          (decode_leaf-account fields (lens / 2 ^ 8 % 256) (lens % 256) mask pfx m.account m.known
            ∙ ap (λ n. decode_fields u empty_code_hash mask n fields pfx)
                (be16-used_bytes lens l'.two_bytes)
            ∙ decode_fields-fields_of laws mask lens nonce balance sto_id sto_hint code_hash pfx m
                l' ok))
