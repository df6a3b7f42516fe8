-- ===== src/Ethrex/NodeRlp/RoundTrip.antt =====
-- What the RLP encoders write is read back.
use state_actor.Prelude.{
  ℕ, zero, suc, ◌+◌, ◌/◌, ◌%◌, ◌^◌, ◌≤◌, ◌<◌, ◌≡◌, refl, ◌∙◌, arith, true, false, some, List, [],
  ◌∷◌, ◌++◌, append_assoc, length, length-append, ltb, leb, ◌==◌, if◌then◌else◌, Bool-cases, inl,
  inr, leb→le,
}
use state_actor.Ethrex.NodeRlp.{
  min_be_loop, min_be_bytes, long_header, append_rlp_bytes, rlp_encode_bytes, rlp_encode_list_raw,
}
use state_actor.Ethrex.NodeRlp.Reader.{
  text, sequence, read_item, payload_of-append, short_payload-append, short_text, short_sequence,
  long_text, long_sequence, long_payload-append, length-min_be_loop,
}

-- For all byte strings: the append form writes what the other encoder returns.
pub append_rlp_bytes-rlp_encode_bytes :
    (dst b : List ℕ) → append_rlp_bytes dst b ≡ dst ++ rlp_encode_bytes b
unfolding append_rlp_bytes rlp_encode_bytes
append_rlp_bytes-rlp_encode_bytes dst b = ground (
  arith,
  append_assoc dst (((0x80 + length b) % 256) ∷ []) b,
  append_assoc dst (long_header 0xb7 (length b)) b,
)

longer_buffer : (room n : ℕ) (buf : List ℕ) → length buf ≤ length (min_be_loop room n buf)
unfolding min_be_loop
longer_buffer zero n buf = omega arith
longer_buffer (suc room) n buf = ground (arith, longer_buffer room (n / 256) ((n % 256) ∷ buf))

first_byte : (room n : ℕ) → 55 < n → 1 ≤ length (min_be_loop (suc room) n [])
unfolding min_be_loop
first_byte room n l = ground (arith, longer_buffer room (n / 256) ((n % 256) ∷ []))

not_empty : (n : ℕ) → 55 < n → 1 ≤ length (min_be_bytes n)
unfolding min_be_bytes
not_empty n l = first_byte 7 n l

at_most_eight : (n : ℕ) → length (min_be_bytes n) ≤ 8
unfolding min_be_bytes
at_most_eight n = omega (arith, length-min_be_loop 8 n [])

longer : (n : ℕ) → leb n 55 ≡ false → 55 < n
longer n e = ground arith

-- A header of either form, then the payload.
text_form : (b : List ℕ) → List ℕ
text_form b =
    if leb (length b) 55 then ((0x80 + length b) % 256) ∷ b else long_header 0xb7 (length b) ++ b

read_text :
    (b rest : List ℕ)
    → length b < 2 ^ 64
    → ((x : ℕ) → b ≡ x ∷ [] → ltb x 0x80 ≡ false)
    → read_item (text_form b ++ rest) ≡ some (text b, rest)
unfolding text_form
read_text b rest l h = elim (Bool-cases (leb (length b) 55)) [
  | inl e ↦
      rw e
        (short_text (length b) (b ++ rest) (leb→le (length b) 55 e) ∙ short_payload-append b rest h)
  | inr e ↦
      rw (e, append_assoc (min_be_bytes (length b)) b rest)
        (long_text (length (min_be_bytes (length b))) (min_be_bytes (length b) ++ (b ++ rest))
            (not_empty (length b) (longer (length b) e)) (at_most_eight (length b))
          ∙ long_payload-append text b rest (longer (length b) e) l)
]

single :
    (x : ℕ) (rest : List ℕ) → ltb x 0x80 ≡ true → read_item (x ∷ rest) ≡ some (text (x ∷ []), rest)
unfolding read_item
single x rest e = rw e refl

above : (x y : ℕ) → ltb x 0x80 ≡ false → x ≡ y → ltb y 0x80 ≡ false
above x y e h = rw (← h) e

not_zero : (n : ℕ) → (suc n == 0) ≡ false
not_zero n = ground arith

-- Below 2 ^ 64 bytes, an encoded string is read back with what follows it.
pub read_item-rlp_encode_bytes :
    (b rest : List ℕ)
    → length b < 2 ^ 64
    → read_item (rlp_encode_bytes b ++ rest) ≡ some (text b, rest)
unfolding rlp_encode_bytes text_form
read_item-rlp_encode_bytes [] rest l =
    short_text 0 rest (omega arith) ∙ short_payload-append [] rest (λ x e. cc)
read_item-rlp_encode_bytes (x ∷ []) rest l = elim (Bool-cases (ltb x 0x80)) [
  | inl e ↦ rw e (single x rest e)
  | inr e ↦ rw e (
      short_text 1 (x ∷ rest) (omega arith)
      ∙ short_payload-append (x ∷ []) rest (λ y f. above x y e (cc f)))
]
read_item-rlp_encode_bytes (x ∷ y ∷ b) rest l =
    rw (not_zero (suc (length b))) (read_text (x ∷ y ∷ b) rest l (λ z e. cc))

-- Below 2 ^ 64 bytes, an encoded list is read back with what follows it.
pub read_item-rlp_encode_list_raw :
    (p rest : List ℕ)
    → length p < 2 ^ 64
    → read_item (rlp_encode_list_raw p ++ rest) ≡ some (sequence p, rest)
unfolding rlp_encode_list_raw
read_item-rlp_encode_list_raw p rest l = elim (Bool-cases (leb (length p) 55)) [
  | inl e ↦ rw e (
      short_sequence (length p) (p ++ rest) (leb→le (length p) 55 e)
      ∙ payload_of-append sequence p rest)
  | inr e ↦
      rw (e, append_assoc (min_be_bytes (length p)) p rest)
        (long_sequence (length (min_be_bytes (length p))) (min_be_bytes (length p) ++ (p ++ rest))
            (not_empty (length p) (longer (length p) e)) (at_most_eight (length p))
          ∙ long_payload-append sequence p rest (longer (length p) e) l)
]

pub length-rlp_encode_bytes : (b : List ℕ) → length (rlp_encode_bytes b) ≤ length b + 9
unfolding rlp_encode_bytes
length-rlp_encode_bytes b =
    ground (arith, length-append (min_be_bytes (length b)) b, at_most_eight (length b))
