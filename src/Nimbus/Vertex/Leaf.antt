-- ===== src/Nimbus/Vertex/Leaf.antt =====
-- Leaf records: any payload, and the payload of a storage leaf.
use state_actor.Prelude.{
  ℕ, ◌-◌, ◌*◌, ◌^◌, ◌≤◌, ◌≡◌, refl, ap, ◌∙◌, arith, true, false, not, none, some, List, [], ◌∷◌,
  ◌++◌, append_assoc, length, length-append, take-append, ltb, ◌==◌, nonzero, ◌||◌, if◌then◌else◌,
  and_then, bit_or, bit_and,
}
use state_actor.Bytes.{Nibbles}
use state_actor.Nimbus.Sbe.{trim_zeros, append_sbe_bytes32}
use state_actor.Nimbus.Sbe.Trim.{zeros, length-trim_zeros, trim_zeros_kept, zeros-trim_zeros}
use state_actor.Nimbus.HexPrefix.{append_hex_prefix}
use state_actor.Bytes.Slices.{last_byte-append}
use state_actor.Nimbus.Vertex.{
  Uint256, Vertex, sto_leaf, append_leaf_record, append_sto_leaf_payload, bits_leaf, bits_has_key,
  mask_sto_leaf,
}
use state_actor.Nimbus.Vertex.Decode.{decode_leaf, decode_sbe256, no_vertex}
use state_actor.Nimbus.Vertex.Segments.{ReadsBack, decode_vertex-parts, trailer-parts}
use state_actor.Nimbus.Vertex.Paths.{
  append_hex_prefix-eq, segment_size, hex_prefix_size, decode_path-append_hex_prefix,
}

append_leaf_record-eq :
    (payload pfx : List ℕ)
    → length pfx ≤ 64
    → append_leaf_record [] payload pfx
      ≡ payload
        ++ (append_hex_prefix [] pfx true
            ++ (bit_or (bits_leaf * 2 ^ 6) (length (append_hex_prefix [] pfx true)) ∷ []))
unfolding append_leaf_record
append_leaf_record-eq payload pfx h =
    rw (segment_size payload pfx true h, append_hex_prefix-eq payload pfx true)
      (append_assoc payload (append_hex_prefix [] pfx true) _)

-- The law of `SetBytes` and `Bytes32`: up to 32 bytes come back with zeros before them.
abbrev pub Pads : {U : Type 0} → Uint256 U → Type 0
Pads u = (b : List ℕ) → length b ≤ 32 → u.bytes32 (u.set_bytes b) ≡ zeros (32 - length b) b

pub within_32 : (n : ℕ) → 1 ≤ n → n ≤ 32 → (ltb n 1 || ltb 32 n) ≡ false
within_32 n h k = ground arith

module _ {U : Type 0} (u : Uint256 U) (empty_code_hash : List ℕ) where
  pub leaf_record :
      (payload pfx : List ℕ) (v : Vertex U)
      → 1 ≤ length payload
      → length payload ≤ 84
      → Nibbles pfx
      → length pfx ≤ 64
      → decode_leaf u empty_code_hash payload pfx ≡ some v
      → ReadsBack u empty_code_hash (some (append_leaf_record [] payload pfx)) v
  leaf_record payload pfx v one short p l read =
      let hp = append_hex_prefix [] pfx true in
      let t = bit_or (bits_leaf * 2 ^ 6) (length hp) in
      let size = hex_prefix_size pfx true in
      let parts = trailer-parts bits_leaf (length hp) (omega arith) (omega arith) in
      let some_path = nonzero (length hp) (omega arith) in
      (
        payload ++ (hp ++ (t ∷ [])),
        ap some (append_leaf_record-eq payload pfx l),
        omega (arith, length-append payload (hp ++ (t ∷ [])), length-append hp (t ∷ [])),
        decode_vertex-parts u empty_code_hash [] payload hp t true false
              (ap (λ x. not (bit_and x bits_leaf == 0)) parts.0)
              (ap (λ x. not (bit_and x bits_has_key == 0)) parts.0) parts.1 refl one (omega arith)
              (omega arith)
            ∙ ap
                (λ o. and_then o (λ pfx'.
                  if length hp == 0 then none else decode_leaf u empty_code_hash payload pfx'))
                (decode_path-append_hex_prefix pfx true p)
            ∙ rw some_path read,
      )

  pub decode_vertex-append_sto_leaf :
      Pads u
      → (value pfx : List ℕ) → length value ≡ 32
      → Nibbles pfx
      → length pfx ≤ 64
      → ReadsBack u empty_code_hash
          (some (append_leaf_record [] (append_sto_leaf_payload [] value) pfx))
          (record (no_vertex u empty_code_hash) {
            vertex_type = sto_leaf;
            pfx = pfx;
            sto_value = value;
          })
  unfolding append_sto_leaf_payload append_sbe_bytes32 decode_leaf decode_sbe256
  decode_vertex-append_sto_leaf pads value pfx h p l =
      let b = trim_zeros 31 value in
      let kept = trim_zeros_kept 31 value in
      let short = length-trim_zeros 31 value in
      let whole = length-append b (mask_sto_leaf ∷ []) in
      let some_data = nonzero (length (b ++ (mask_sto_leaf ∷ []))) (omega arith) in
      let cut : length (b ++ (mask_sto_leaf ∷ [])) - 1 ≡ length b = omega arith in
      let fits = within_32 (length b) (omega arith) (omega arith) in
      let same_size : 32 - length b ≡ length value - length b = omega arith in
      leaf_record (b ++ (mask_sto_leaf ∷ [])) pfx _ (omega arith) (omega arith) p l (
        rw
          (
            some_data,
            last_byte-append b mask_sto_leaf,
            cut,
            take-append b (mask_sto_leaf ∷ []),
            fits,
            pads b (omega arith),
            same_size,
            zeros-trim_zeros 31 value,
          )
          refl)
