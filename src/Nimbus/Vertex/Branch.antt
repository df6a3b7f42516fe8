-- ===== src/Nimbus/Vertex/Branch.antt =====
-- Branch records, written and read.
use state_actor.Prelude.{
  ℕ, ◌-◌, ◌*◌, ◌/◌, ◌%◌, ◌^◌, ◌≤◌, ◌<◌, ◌≡◌, refl, sym, ap, ◌∙◌, arith, Bool, true, false, not,
  some, List, [], ◌∷◌, ◌++◌, append_assoc, length, length-append, take-append, drop-append, ltb,
  ◌==◌, if◌then◌else◌, and_then, bit_or, bit_and, ◌⊎◌, inl, inr,
}
use state_actor.Prelude.Bits.{bit_or_disjoint}
use state_actor.Bytes.{Nibbles}
use state_actor.Nimbus.Sbe.{IsU64, sbe_len, append_sbe}
use state_actor.Nimbus.Sbe.RoundTrip.{
  append_sbe-eq, length-be_bytes, sbe_len_range, decode_sbe-append_sbe,
}
use state_actor.Nimbus.HexPrefix.{append_hex_prefix}
use state_actor.Nimbus.Vertex.{
  Uint256, Vertex, branch, ext_branch, append_branch, append_branch_body, append_branch_rest,
  bits_has_key, bits_leaf,
}
use state_actor.Nimbus.Vertex.Decode.{be16, decode_path, decode_branch, no_vertex}
use state_actor.Nimbus.Vertex.Segments.{ReadsBack, decode_vertex-parts, trailer-parts}
use state_actor.Nimbus.Vertex.Paths.{
  append_hex_prefix-eq, segment_size, hex_prefix_size, decode_path-append_hex_prefix,
}

pub length-append_sbe : (v : ℕ) → length (append_sbe [] v) ≡ sbe_len v
length-append_sbe v = ap (length {A = ℕ}) (append_sbe-eq [] v) ∙ length-be_bytes (sbe_len v) v

pub append_sbe_onto : (dst : List ℕ) (v : ℕ) → append_sbe dst v ≡ dst ++ append_sbe [] v
append_sbe_onto dst v = append_sbe-eq dst v ∙ ap (λ t. dst ++ t) (sym (append_sbe-eq [] v))

-- The two bytes of `used`.
abbrev pub used_bytes : ℕ → List ℕ
used_bytes used = (used / 2 ^ 8 % 256) ∷ (used % 256) ∷ []

pub be16-used_bytes : (used : ℕ) → used < 2 ^ 16 → be16 (used_bytes used) ≡ used
be16-used_bytes used h =
    omega (arith, bit_or_disjoint 8 (used / 2 ^ 8 % 256) (used % 256) (omega arith))

-- The path segment of a branch: none for an empty prefix.
abbrev pub segment : List ℕ → List ℕ
segment [] = []
segment (n ∷ pfx) = append_hex_prefix [] (n ∷ pfx) false

segment_short : (pfx : List ℕ) → length pfx ≤ 64 → length (segment pfx) ≤ 33
segment_short [] h = omega arith
segment_short (n ∷ pfx) h = omega (arith, hex_prefix_size (n ∷ pfx) false)

append_branch_rest-eq :
    (dst : List ℕ) (bits : ℕ) (pfx : List ℕ)
    → bits < 4
    → length pfx ≤ 64
    → append_branch_rest dst bits pfx
      ≡ dst ++ (segment pfx ++ (bit_or (bits * 2 ^ 6) (length (segment pfx)) ∷ []))
unfolding append_branch_rest
append_branch_rest-eq dst bits [] b h =
    let e : bits * 2 ^ 6 % 256 ≡ bits * 2 ^ 6 = omega arith in rw e refl
append_branch_rest-eq dst bits (n ∷ pfx) b h =
    let e : bits * 2 ^ 6 % 256 ≡ bits * 2 ^ 6 = omega arith in
    rw (e, segment_size dst (n ∷ pfx) false h, append_hex_prefix-eq dst (n ∷ pfx) false)
      (append_assoc dst (append_hex_prefix [] (n ∷ pfx) false) _)

abbrev pub body_of : ℕ → ℕ → List ℕ
body_of start_vid used = append_sbe [] start_vid ++ used_bytes used

append_branch_body-eq :
    (dst : List ℕ) (bits start_vid used : ℕ) (pfx : List ℕ)
    → bits < 4
    → length pfx ≤ 64
    → append_branch_body dst bits start_vid used pfx
      ≡ dst
        ++ (body_of start_vid used
            ++ (segment pfx ++ (bit_or (bits * 2 ^ 6) (length (segment pfx)) ∷ [])))
unfolding append_branch_body
append_branch_body-eq dst bits start_vid used pfx b h =
    append_branch_rest-eq (append_sbe dst start_vid ++ used_bytes used) bits pfx b h
    ∙ ap
        (λ d.
          (d ++ used_bytes used)
          ++ (segment pfx ++ (bit_or (bits * 2 ^ 6) (length (segment pfx)) ∷ [])))
        (append_sbe_onto dst start_vid)
    ∙ ap (λ d. d ++ (segment pfx ++ (bit_or (bits * 2 ^ 6) (length (segment pfx)) ∷ [])))
        (append_assoc dst (append_sbe [] start_vid) (used_bytes used))
    ∙ append_assoc dst (body_of start_vid used) _

segment_read : (pfx : List ℕ) → Nibbles pfx → decode_path (segment pfx) false ≡ some pfx
unfolding decode_path
segment_read [] p = refl
segment_read (n ∷ pfx) p = decode_path-append_hex_prefix (n ∷ pfx) false p

body_short :
    (start_vid used : ℕ)
    → IsU64 start_vid
    → (3 ≤ length (body_of start_vid used)) × (length (body_of start_vid used) ≤ 10)
body_short start_vid used h = omega (
  arith,
  length-append (append_sbe [] start_vid) (used_bytes used),
  length-append_sbe start_vid,
  sbe_len_range start_vid h,
)

-- A stored key: none, or 32 bytes.
abbrev pub key_bits : List ℕ → ℕ
key_bits [] = 0
key_bits (x ∷ key) = bits_has_key

abbrev pub IsKey : List ℕ → Type 0
IsKey key = (key ≡ []) ⊎ (length key ≡ 32)

module _ {U : Type 0} (u : Uint256 U) (empty_code_hash : List ℕ) where
  -- The vertex that the decoder returns.
  abbrev pub branch_vertex : List ℕ → ℕ → ℕ → List ℕ → Vertex U
  branch_vertex key start_vid used pfx = record (no_vertex u empty_code_hash) {
    vertex_type = if ltb 0 (length (segment pfx)) then ext_branch else branch;
    pfx = pfx;
    start_vid = start_vid;
    used = used;
    key = key;
  }

  decode_branch-body_of :
      (key pfx : List ℕ) (start_vid used : ℕ)
      → IsU64 start_vid
      → used < 2 ^ 16
      → decode_branch u empty_code_hash key (body_of start_vid used) (length (segment pfx)) pfx
        ≡ some (branch_vertex key start_vid used pfx)
  unfolding decode_branch
  decode_branch-body_of key pfx start_vid used h k =
      let s = append_sbe [] start_vid in
      let n = length-append s (used_bytes used) in
      let one = sbe_len_range start_vid h in
      let size = length-append_sbe start_vid in
      let long : ltb (length (body_of start_vid used)) 3 ≡ false = ground arith in
      let cut : length (body_of start_vid used) - 2 ≡ length s = omega (arith, n) in
      rw
        (
          long,
          cut,
          take-append s (used_bytes used),
          drop-append s (used_bytes used),
          decode_sbe-append_sbe start_vid h,
          be16-used_bytes used k,
        )
        refl

  branch_record :
      (key pfx : List ℕ) (start_vid used bits : ℕ) (has_key : Bool)
      → bits < 4
      → (not (bit_and bits bits_leaf == 0)) ≡ false
      → (not (bit_and bits bits_has_key == 0)) ≡ has_key
      → (if has_key then 32 else 0) ≡ length key
      → IsU64 start_vid
      → used < 2 ^ 16
      → Nibbles pfx
      → length pfx ≤ 64
      → append_branch [] key start_vid used pfx
        ≡ some (append_branch_body key bits start_vid used pfx)
      → ReadsBack u empty_code_hash
          (append_branch [] key start_vid used pfx)
          (branch_vertex key start_vid used pfx)
  branch_record key pfx start_vid used bits has_key b leaf keyed size h k p l made =
      let hp = segment pfx in
      let t = bit_or (bits * 2 ^ 6) (length hp) in
      let body = body_of start_vid used in
      let short = segment_short pfx l in
      let parts = trailer-parts bits (length hp) b (omega arith) in
      let size_of_body = body_short start_vid used h in
      let size_of_key = key_short has_key in
      (
        key ++ (body ++ (hp ++ (t ∷ []))),
        made ∙ ap some (append_branch_body-eq key bits start_vid used pfx b l),
        omega (
          arith,
          length-append key (body ++ (hp ++ (t ∷ []))),
          length-append body (hp ++ (t ∷ [])),
          length-append hp (t ∷ []),
        ),
        decode_vertex-parts u empty_code_hash key body hp t false has_key
              (ap (λ x. not (bit_and x bits_leaf == 0)) parts.0 ∙ leaf)
              (ap (λ x. not (bit_and x bits_has_key == 0)) parts.0 ∙ keyed) parts.1 size
              (omega arith) (omega arith) (omega arith)
            ∙ ap
                (λ o.
                  and_then o (λ pfx'. decode_branch u empty_code_hash key body (length hp) pfx'))
                (segment_read pfx p)
            ∙ decode_branch-body_of key pfx start_vid used h k,
      )
    where
      key_short : (b : Bool) → (if b then 32 else 0) ≤ 32
      key_short true = omega arith
      key_short false = omega arith

  pub decode_vertex-append_branch :
      (key pfx : List ℕ) (start_vid used : ℕ)
      → IsKey key
      → IsU64 start_vid
      → used < 2 ^ 16
      → Nibbles pfx
      → length pfx ≤ 64
      → ReadsBack u empty_code_hash
          (append_branch [] key start_vid used pfx)
          (branch_vertex key start_vid used pfx)
  unfolding append_branch
  decode_vertex-append_branch key pfx start_vid used (inl e) h k p l =
      rw e (branch_record [] pfx start_vid used 0 false (omega arith) refl refl refl h k p l refl)
  decode_vertex-append_branch key pfx start_vid used (inr e) h k p l =
      branch_record key pfx start_vid used bits_has_key true (omega arith) refl refl (sym e) h k p l
        (rw e refl)
