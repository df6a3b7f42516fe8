-- ===== src/HexPrefix/RoundTrip.antt =====
-- nimbus: decoding gives back the path and the kind that were encoded, and the decoder accepts
-- nothing but encodings.
use state_actor.Prelude.{
  ℕ, ◌+◌, ◌%◌, ◌<◌, ◌≡◌, sym, ap, arith, Bool, true, false, ◌⊎◌, ◌↔◌, inl, inr, List, [], ◌∷◌, ◌++◌,
  length, length-append, some,
}
use state_actor.Bytes.{low, Bytes, Nibbles, low-lt}
use state_actor.Nimbus.HexPrefix.{append_hex_prefix, hex_prefix_len, decode_hex_prefix}
use state_actor.HexPrefix.Loops.{
  spread, packed, append_nibbles-eq-spread, pack_pairs-eq-packed, spread-packed, packed-spread,
  length-spread, length-packed, spread-Nibbles,
}
use state_actor.HexPrefix.Flags.{even_flag, odd_flag, ReadsOdd, odd_flag-ReadsOdd, flag_rebuilt}

pub encode_even :
    (ns : List ℕ) (leaf : Bool)
    → length ns % 2 ≡ 0
    → append_hex_prefix [] ns leaf ≡ even_flag leaf ∷ packed ns
unfolding append_hex_prefix
encode_even ns leaf h = ground (arith, pack_pairs-eq-packed (even_flag leaf ∷ []) ns)

pub encode_odd :
    (n : ℕ) (ns : List ℕ) (leaf : Bool)
    → length ns % 2 ≡ 0
    → append_hex_prefix [] (n ∷ ns) leaf ≡ odd_flag leaf n ∷ packed ns
unfolding append_hex_prefix
encode_odd n ns leaf h = ground (arith, pack_pairs-eq-packed (odd_flag leaf n ∷ []) ns)

decode_even :
    (leaf : Bool) (rest : List ℕ)
    → decode_hex_prefix (even_flag leaf ∷ rest) ≡ some (spread rest, leaf)
unfolding decode_hex_prefix
decode_even true rest = ap (λ l. some (l, true)) (append_nibbles-eq-spread [] rest)
decode_even false rest = ap (λ l. some (l, false)) (append_nibbles-eq-spread [] rest)

decode_odd :
    (leaf : Bool) (n f : ℕ) (rest : List ℕ)
    → ReadsOdd leaf n f
    → decode_hex_prefix (f ∷ rest) ≡ some (n ∷ spread rest, leaf)
unfolding decode_hex_prefix
decode_odd leaf n f rest r = ground (arith, append_nibbles-eq-spread (low f ∷ []) rest)

parity : (ns : List ℕ) → (length ns % 2 ≡ 0) ⊎ (length ns % 2 ≡ 1)
parity ns = omega arith

decode-encode :
    (ns : List ℕ) (leaf : Bool)
    → Nibbles ns
    → (length ns % 2 ≡ 0) ⊎ (length ns % 2 ≡ 1)
    → decode_hex_prefix (append_hex_prefix [] ns leaf) ≡ some (ns, leaf)
decode-encode ns leaf v (inl even) =
    rw (encode_even ns leaf even, decode_even, spread-packed ns even v)
decode-encode [] leaf v (inr odd) = absurd (omega arith)
decode-encode (n ∷ ns) leaf v (inr odd) =
    let even : length ns % 2 ≡ 0 = omega arith in
    rw (
      encode_odd n ns leaf even,
      decode_odd leaf n (odd_flag leaf n) (packed ns) (odd_flag-ReadsOdd leaf n v.0),
      spread-packed ns even v.1,
    )

-- For every path of nibbles and either kind, `DecodeHexPrefix` of what `AppendHexPrefix` writes
-- succeeds with that path and that kind.
pub decode_hex_prefix-append_hex_prefix :
    (ns : List ℕ) (leaf : Bool)
    → Nibbles ns
    → decode_hex_prefix (append_hex_prefix [] ns leaf) ≡ some (ns, leaf)
decode_hex_prefix-append_hex_prefix ns leaf v = decode-encode ns leaf v (parity ns)

accepted :
    (f : ℕ) (rest ns : List ℕ) (leaf : Bool)
    → f < 256
    → Bytes rest
    → decode_hex_prefix (f ∷ rest) ≡ some (ns, leaf)
    → append_hex_prefix [] ns leaf ≡ f ∷ rest
unfolding decode_hex_prefix
accepted f rest ns leaf h v e = ground (
  arith,
  flag_rebuilt f h,
  append_nibbles-eq-spread [] rest,
  append_nibbles-eq-spread (low f ∷ []) rest,
  encode_even (spread rest) leaf,
  encode_odd (low f) (spread rest) leaf,
  packed-spread rest v,
  length-spread rest,
)

nothing_read : (ns : List ℕ) (leaf : Bool) → decode_hex_prefix [] ≡ some (ns, leaf) → ⊥
unfolding decode_hex_prefix
nothing_read ns leaf e = cc

accepted-Nibbles :
    (f : ℕ) (rest ns : List ℕ) (leaf : Bool)
    → Bytes rest
    → decode_hex_prefix (f ∷ rest) ≡ some (ns, leaf)
    → (ns ≡ spread rest) ⊎ (ns ≡ low f ∷ spread rest)
unfolding decode_hex_prefix
accepted-Nibbles f rest ns leaf v e =
    ground (arith, append_nibbles-eq-spread [] rest, append_nibbles-eq-spread (low f ∷ []) rest)

decoded-Nibbles :
    (b ns : List ℕ) (leaf : Bool) → Bytes b → decode_hex_prefix b ≡ some (ns, leaf) → Nibbles ns
decoded-Nibbles [] ns leaf v e = absurd (nothing_read ns leaf e)
decoded-Nibbles (f ∷ rest) ns leaf v e = elim (accepted-Nibbles f rest ns leaf v.1 e) [
  | inl p ↦ rw p (spread-Nibbles rest v.1)
  | inr p ↦ rw p (low-lt f, spread-Nibbles rest v.1)
]

encode-decode :
    (b ns : List ℕ) (leaf : Bool)
    → Bytes b
    → decode_hex_prefix b ≡ some (ns, leaf)
    → append_hex_prefix [] ns leaf ≡ b
encode-decode [] ns leaf v e = absurd (nothing_read ns leaf e)
encode-decode (f ∷ rest) ns leaf v e = accepted f rest ns leaf v.0 v.1 e

-- On bytes, `DecodeHexPrefix` succeeds with a path and a kind exactly when the path consists of
-- nibbles and the input is what `AppendHexPrefix` writes for them: the decoder inverts the encoder
-- and accepts no other input.
pub decode_hex_prefix_iff :
    (b ns : List ℕ) (leaf : Bool)
    → Bytes b
    → (decode_hex_prefix b ≡ some (ns, leaf)) ↔ (Nibbles ns × (append_hex_prefix [] ns leaf ≡ b))
decode_hex_prefix_iff b ns leaf v = (
  λ e. (decoded-Nibbles b ns leaf v e, encode-decode b ns leaf v e),
  λ h. rw (sym h.1) (decode_hex_prefix-append_hex_prefix ns leaf h.0),
)

-- `HexPrefixLen` is the number of bytes that `AppendHexPrefix` appends, for every path and kind.
pub length-append_hex_prefix :
    (dst ns : List ℕ) (leaf : Bool)
    → length (append_hex_prefix dst ns leaf) ≡ length dst + hex_prefix_len (length ns)
unfolding append_hex_prefix hex_prefix_len
length-append_hex_prefix dst [] leaf = ground (arith, length-append dst (even_flag leaf ∷ []))
length-append_hex_prefix dst (n ∷ ns) leaf = ground (
  arith,
  pack_pairs-eq-packed (dst ++ (odd_flag leaf n ∷ [])) ns,
  pack_pairs-eq-packed (dst ++ (even_flag leaf ∷ [])) (n ∷ ns),
  length-append dst (odd_flag leaf n ∷ []),
  length-append dst (even_flag leaf ∷ []),
  length-append (dst ++ (odd_flag leaf n ∷ [])) (packed ns),
  length-append (dst ++ (even_flag leaf ∷ [])) (packed (n ∷ ns)),
  length-packed ns,
  length-packed (n ∷ ns),
)
