-- ===== src/Nimbus/Vertex/Paths.antt =====
-- The path segment of a record: the hex-prefix form appended, its length, and reading it back.
use state_actor.Prelude.{
  ℕ, ◌+◌, ◌-◌, ◌/◌, ◌%◌, ◌≤◌, ◌≡◌, refl, sym, ap, ◌∙◌, arith, Bool, true, false, some, List, [],
  ◌∷◌, ◌++◌, append_assoc, length, length-append, if◌then◌else◌, ◌==◌, and_then, bit_or,
}
use state_actor.Bytes.{Nibbles}
use state_actor.Ethrex.Nibbles.{pack_pairs, odd_head, odd_rest}
use state_actor.HexPrefix.Loops.{packed, pack_pairs-eq-packed}
use state_actor.HexPrefix.RoundTrip.{decode_hex_prefix-append_hex_prefix, length-append_hex_prefix}
use state_actor.Nimbus.HexPrefix.{append_hex_prefix, hex_prefix_len, decode_hex_prefix}
use state_actor.Nimbus.Vertex.Decode.{with_flag, decode_path}

pub append_hex_prefix-eq :
    (dst ns : List ℕ) (leaf : Bool)
    → append_hex_prefix dst ns leaf ≡ dst ++ append_hex_prefix [] ns leaf
unfolding append_hex_prefix
append_hex_prefix-eq dst ns leaf =
    let flag = if length ns % 2 == 1 then bit_or 0x10 (odd_head ns) else 0 in
    packs dst (if leaf then bit_or flag 0x20 else flag)
      (if length ns % 2 == 1 then odd_rest ns else ns)
  where
    packs :
        (dst : List ℕ) (f : ℕ) (l : List ℕ)
        → pack_pairs (dst ++ (f ∷ [])) l ≡ dst ++ pack_pairs (f ∷ []) l
    packs dst f l =
        pack_pairs-eq-packed (dst ++ (f ∷ [])) l
        ∙ append_assoc dst (f ∷ []) (packed l)
        ∙ ap (λ t. dst ++ t) (sym (pack_pairs-eq-packed (f ∷ []) l))

pub hex_prefix_size :
    (ns : List ℕ) (leaf : Bool) → length (append_hex_prefix [] ns leaf) ≡ 1 + length ns / 2
unfolding hex_prefix_len
hex_prefix_size ns leaf = omega (arith, length-append_hex_prefix [] ns leaf)

-- The length that the encoders take as a difference, cut to a byte.
pub segment_size :
    (dst ns : List ℕ) (leaf : Bool)
    → length ns ≤ 64
    → (length (append_hex_prefix dst ns leaf) - length dst) % 256
      ≡ length (append_hex_prefix [] ns leaf)
segment_size dst ns leaf h = omega (
  arith,
  hex_prefix_size ns leaf,
  ap (length {A = ℕ}) (append_hex_prefix-eq dst ns leaf),
  length-append dst (append_hex_prefix [] ns leaf),
)

decode_path_some :
    (segment : List ℕ) (leaf : Bool)
    → 1 ≤ length segment
    → decode_path segment leaf ≡ and_then (decode_hex_prefix segment) (with_flag leaf)
unfolding decode_path
decode_path_some [] leaf h = ground arith
decode_path_some (c ∷ segment) leaf h = refl

pub decode_path-append_hex_prefix :
    (ns : List ℕ) (leaf : Bool)
    → Nibbles ns
    → decode_path (append_hex_prefix [] ns leaf) leaf ≡ some ns
decode_path-append_hex_prefix ns leaf h =
    decode_path_some (append_hex_prefix [] ns leaf) leaf (omega (arith, hex_prefix_size ns leaf))
    ∙ ap (λ o. and_then o (with_flag leaf)) (decode_hex_prefix-append_hex_prefix ns leaf h)
    ∙ flagged leaf ns
  where
    flagged : (leaf : Bool) (ns : List ℕ) → with_flag leaf (ns, leaf) ≡ some ns
    flagged true ns = refl
    flagged false ns = refl
