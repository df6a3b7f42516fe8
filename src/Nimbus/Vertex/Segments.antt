-- ===== src/Nimbus/Vertex/Segments.antt =====
-- How the decoder takes a record apart: a key, a body, a path segment and the trailer.
use state_actor.Prelude.{
  ℕ, ◌+◌, ◌-◌, ◌*◌, ◌/◌, ◌^◌, ◌≤◌, ◌<◌, ◌≡◌, refl, sym, ap, ◌∙◌, arith, Bool, false, not, ◌||◌,
  Option, none, some, List, [], ◌∷◌, ◌++◌, append_assoc, length, take, length-append, take-append,
  ltb, ◌==◌, if◌then◌else◌, and_then, bit_and, bit_or,
}
use state_actor.Prelude.Bits.{bit_and_mask, bit_or_disjoint}
use state_actor.Bytes.Slices.{slice, last_byte, last_byte-append, slice-append}
use state_actor.Nimbus.Vertex.{Uint256, Vertex, bits_leaf, bits_has_key, max_vertex_blob_size}
use state_actor.Nimbus.Vertex.Decode.{has, decode_path, decode_branch, decode_leaf, decode_vertex}

-- The trailer of a record: two bits above the segment's length.
pub trailer-parts :
    (bits n : ℕ)
    → bits < 4
    → n < 64
    → let t = bit_or (bits * 2 ^ 6) n in (t / 2 ^ 6 ≡ bits) × (bit_and t 0x3f ≡ n)
trailer-parts bits n h k =
    let e : bit_or (bits * 2 ^ 6) n ≡ bits * 2 ^ 6 + n = bit_or_disjoint 6 bits n k in
    (omega (arith, e), omega (arith, e, bit_and_mask 6 (bit_or (bits * 2 ^ 6) n)))

module _ {U : Type 0} (u : Uint256 U) (empty_code_hash : List ℕ) where
  -- What is to be shown of the record that an encoder returns for a vertex.
  abbrev pub ReadsBack : Option (List ℕ) → Vertex U → Type 0
  ReadsBack written v =
      (rec : List ℕ) × (written ≡ some rec)
      × (length rec ≤ max_vertex_blob_size)
      × (decode_vertex u empty_code_hash rec ≡ some v)

  pub decode_vertex-parts :
      (key body hp : List ℕ) (t : ℕ) (is_leaf has_key : Bool)
      → has (t / 2 ^ 6) bits_leaf ≡ is_leaf
      → has (t / 2 ^ 6) bits_has_key ≡ has_key
      → bit_and t 0x3f ≡ length hp
      → (if has_key then 32 else 0) ≡ length key
      → 1 ≤ length body
      → 2 ≤ length body + length hp
      → length key + (length body + length hp) < max_vertex_blob_size
      → decode_vertex u empty_code_hash (key ++ (body ++ (hp ++ (t ∷ []))))
        ≡ and_then (decode_path hp is_leaf) (λ pfx.
          if not is_leaf
          then decode_branch u empty_code_hash key body (length hp) pfx
          else if length hp == 0
          then none
          else decode_leaf u empty_code_hash body pfx)
  unfolding decode_vertex
  decode_vertex-parts key body hp t is_leaf has_key leaf keyed size start some_body enough short =
      let rec = key ++ (body ++ (hp ++ (t ∷ []))) in
      let n = length key + (length body + (length hp + 1)) in
      let whole : length rec ≡ n = omega (
        arith,
        length-append key (body ++ (hp ++ (t ∷ []))),
        length-append body (hp ++ (t ∷ [])),
        length-append hp (t ∷ []),
      ) in
      let trailer : last_byte rec ≡ t = last_of key body hp t in
      let guards : (ltb n 3 || ltb max_vertex_blob_size n) ≡ false = ground arith in
      let fits : (ltb (n - 2) (length hp) || ltb (n - 2 - length hp) (length key)) ≡ false =
        ground arith in
      let path : slice rec (n - length hp - 1) (n - 1) ≡ hp =
        path_of key body hp t _ _ (omega arith) (omega arith) in
      let middle : slice rec (length key) (n - length hp - 1) ≡ body =
        slice-append key body (hp ++ (t ∷ [])) _ _ refl (omega arith) in
      let front : take (length key) rec ≡ key = take-append key _ in
      rw (trailer, leaf, keyed, size, start, whole, guards, fits, path, middle, front) refl
    where
      last_of : (key body hp : List ℕ) (t : ℕ) → last_byte (key ++ (body ++ (hp ++ (t ∷ [])))) ≡ t
      last_of key body hp t =
          ap last_byte (
            sym (append_assoc key body (hp ++ (t ∷ [])))
            ∙ sym (append_assoc (key ++ body) hp (t ∷ [])))
          ∙ last_byte-append ((key ++ body) ++ hp) t

      path_of :
          (key body hp : List ℕ) (t from to : ℕ)
          → from ≡ length key + length body
          → to ≡ length key + length body + length hp
          → slice (key ++ (body ++ (hp ++ (t ∷ [])))) from to ≡ hp
      path_of key body hp t from to h k = rw (sym (append_assoc key body (hp ++ (t ∷ [])))) (
          slice-append (key ++ body) hp (t ∷ []) from to (omega (arith, h, length-append key body))
            (omega (arith, k, length-append key body)))
