-- ===== src/Nimbus/Vertex/Decode.antt =====
-- internal/nimbus/vertex.go: DecodeVertex. An error is `none`.
use state_actor.Prelude.{
  ℕ, ◌+◌, ◌-◌, ◌/◌, Bool, true, false, not, ◌||◌, Option, none, some, List, [], ◌∷◌, length, take,
  drop, ltb, ◌==◌, if◌then◌else◌, and_then, bit_and, bit_or, ◌*◌, ◌^◌,
}
use state_actor.Bytes.Slices.{slice, last_byte}
use state_actor.Nimbus.HexPrefix.{decode_hex_prefix}
use state_actor.Nimbus.Sbe.{decode_sbe}
use state_actor.Nimbus.Sbe.Trim.{zeros}
use state_actor.Nimbus.Vertex.{
  bits_leaf, bits_has_key, mask_nonce, mask_balance, mask_sto_id, mask_code_hash, mask_sto_hint,
  mask_sto_leaf, max_vertex_blob_size, max_sto_hint, Uint256, branch, ext_branch, acc_leaf,
  sto_leaf, Vertex,
}

-- `binary.BigEndian.Uint16`
abbrev pub be16 : List ℕ → ℕ
be16 (a ∷ b ∷ rest) = bit_or (a * 2 ^ 8) b
be16 (a ∷ []) = a
be16 [] = 0

abbrev pub has : ℕ → ℕ → Bool
has mask bit = not (bit_and mask bit == 0)

-- The closure `take`: `fields` is what is left from `p` on.
abbrev pub take_field : ℕ → List ℕ → Option (List ℕ × List ℕ)
take_field n fields = if ltb (length fields) n then none else some (take n fields, drop n fields)

-- One of the `if`s over the fields: the field if the mask has it, and else its default.
abbrev pub field : {A : Type 0} → Bool → ℕ → (List ℕ → Option A) → A → List ℕ → Option (A × List ℕ)
field true n read absent fields =
    and_then (take_field n fields) (λ p. and_then (read p.0) (λ a. some (a, p.1)))
field false n read absent fields = some (absent, fields)

-- `b[0]`, checked.
abbrev pub read_hint : List ℕ → Option ℕ
read_hint [] = none
read_hint (x ∷ b) = if ltb max_sto_hint x then none else some x

-- The path segment; it has a leaf flag that must be the record's.
abbrev pub with_flag : Bool → List ℕ × Bool → Option (List ℕ)
with_flag is_leaf (nibbles, true) = if is_leaf then some nibbles else none
with_flag is_leaf (nibbles, false) = if is_leaf then none else some nibbles

unfoldable pub decode_path : List ℕ → Bool → Option (List ℕ)
unfolding decode_hex_prefix
decode_path [] is_leaf = some []
decode_path (c ∷ segment) is_leaf = and_then (decode_hex_prefix (c ∷ segment)) (with_flag is_leaf)

module _ {U : Type 0} (u : Uint256 U) (empty_code_hash : List ℕ) where
  -- `Vertex{}`
  abbrev pub no_vertex : Vertex U
  no_vertex = record {
    vertex_type = branch;
    pfx = [];
    key = [];
    start_vid = 0;
    used = 0;
    nonce = 0;
    balance = none;
    sto_id = 0;
    sto_hint = 0;
    code_hash = zeros 32 [];
    sto_value = zeros 32 [];
  }

  unfoldable pub decode_sbe256 : List ℕ → Option U
  decode_sbe256 b = if ltb (length b) 1 || ltb 32 (length b) then none else some (u.set_bytes b)

  -- `body` is `rec[start:psPos]`, so `svLen` is its length less two.
  unfoldable pub decode_branch : List ℕ → List ℕ → ℕ → List ℕ → Option (Vertex U)
  unfolding decode_sbe
  decode_branch key body ps_len pfx =
      if ltb (length body) 3
      then none
      else and_then (decode_sbe (take (length body - 2) body)) (λ start_vid.
        some (record no_vertex {
          vertex_type = if ltb 0 ps_len then ext_branch else branch;
          pfx = pfx;
          start_vid = start_vid;
          used = be16 (drop (length body - 2) body);
          key = key;
        }))

  -- `if p != len(fields)`
  abbrev pub all_taken : Vertex U → List ℕ → Option (Vertex U)
  all_taken v [] = some v
  all_taken v (x ∷ rest) = none

  unfoldable pub decode_fields : ℕ → ℕ → List ℕ → List ℕ → Option (Vertex U)
  unfolding decode_sbe decode_sbe256
  decode_fields mask lens fields pfx =
      and_then (field (has mask mask_nonce) (bit_and lens 0b111 + 1) decode_sbe 0 fields) (λ p1.
        and_then
          (field (has mask mask_balance) (bit_and (lens / 2 ^ 3) 0b11111 + 1) decode_sbe256
            u.zero_int p1.1)
          (λ p2.
            and_then
              (field (has mask mask_sto_id) (bit_and (lens / 2 ^ 8) 0b111 + 1) decode_sbe 0 p2.1)
              (λ p3. and_then (field (has mask mask_sto_hint) 1 read_hint 0 p3.1) (λ p4.
                and_then (field (has mask mask_code_hash) 32 some empty_code_hash p4.1) (λ p5.
                  all_taken
                    (record no_vertex {
                      vertex_type = acc_leaf;
                      pfx = pfx;
                      nonce = p1.0;
                      balance = some p2.0;
                      sto_id = p3.0;
                      sto_hint = p4.0;
                      code_hash = p5.0;
                    })
                    p5.1)))))

  -- `leaf_data` is `data`.
  unfoldable pub decode_leaf : List ℕ → List ℕ → Option (Vertex U)
  unfolding decode_sbe256 decode_fields
  decode_leaf leaf_data pfx =
      let n = length leaf_data in
      let mask = last_byte leaf_data in
      if n == 0
      then none
      else if has mask mask_sto_leaf
      then and_then (decode_sbe256 (take (n - 1) leaf_data)) (λ val.
        some (record no_vertex { vertex_type = sto_leaf; pfx = pfx; sto_value = u.bytes32 val }))
      else if bit_and mask 0xe0 == 0
      then if ltb n 3
        then none
        else decode_fields mask (be16 (slice leaf_data (n - 3) (n - 1))) (take (n - 3) leaf_data)
            pfx
      else none

  unfoldable pub decode_vertex : List ℕ → Option (Vertex U)
  unfolding decode_path decode_branch decode_leaf
  decode_vertex rec =
      let n = length rec in
      let trailer = last_byte rec in
      let is_leaf = has (trailer / 2 ^ 6) bits_leaf in
      let has_key = has (trailer / 2 ^ 6) bits_has_key in
      let ps_len = bit_and trailer 0x3f in
      let start = if has_key then 32 else 0 in
      let ps_pos = n - ps_len - 1 in
      if ltb n 3 || ltb max_vertex_blob_size n
      then none
      else if ltb (n - 2) ps_len || ltb (n - 2 - ps_len) start
      then none
      else and_then (decode_path (slice rec ps_pos (n - 1)) is_leaf) (λ pfx.
        if not is_leaf
        then decode_branch (take start rec) (slice rec start ps_pos) ps_len pfx
        else if ps_len == 0
        then none
        else decode_leaf (slice rec start ps_pos) pfx)
