-- ===== src/HexPrefix/Agreement.antt =====
-- The three clients' codecs agree.
use state_actor.Prelude.{
  ℕ, ◌+◌, ◌%◌, ◌<◌, ◌≡◌, refl, arith, Bool, true, false, ◌⊎◌, inl, inr, List, [], ◌∷◌, length, some,
  ◌==◌, ◌||◌, not, if◌then◌else◌, bit_and, bit_or,
}
use state_actor.Prelude.Tables.{holds_below, holds_at}
use state_actor.Bytes.{high, Bytes, Nibbles}
use state_actor.Nimbus.HexPrefix.{append_hex_prefix, decode_hex_prefix}
use state_actor.Ethrex.Nibbles.{compact_encode}
use state_actor.Besu.Compact
use state_actor.HexPrefix.Loops.{packed, fill_pairs-eq-packed}
use state_actor.HexPrefix.Flags.{even_flag, odd_flag, is_leaf}
use state_actor.HexPrefix.RoundTrip.{encode_even, encode_odd}

-- ethrex's and nimbus's encoders are the same function, on every input.
pub ethrex-eq-nimbus :
    (ns : List ℕ) (leaf : Bool) → compact_encode ns leaf ≡ append_hex_prefix [] ns leaf
unfolding compact_encode append_hex_prefix
ethrex-eq-nimbus ns leaf = ground arith

-- Besu names the four flags one by one.
leaf_flag_eq : (n : ℕ) → n < 16 → bit_or 0x30 n ≡ odd_flag true n
unfolding holds_below
leaf_flag_eq n h =
    ground (arith, holds_at 16 (λ n. bit_or 0x30 n == bit_or (bit_or 0x10 n) 0x20) n refl h)

besu_even :
    (ns : List ℕ) (leaf : Bool)
    → length ns % 2 ≡ 0
    → Compact.compact_encode ns leaf ≡ some (even_flag leaf ∷ packed ns)
unfolding Compact.compact_encode
besu_even ns true h = ground (arith, fill_pairs-eq-packed ns h)
besu_even ns false h = ground (arith, fill_pairs-eq-packed ns h)

besu_odd :
    (n : ℕ) (ns : List ℕ) (leaf : Bool)
    → length ns % 2 ≡ 0
    → n < 16
    → Compact.compact_encode (n ∷ ns) leaf ≡ some (odd_flag leaf n ∷ packed ns)
unfolding Compact.compact_encode
besu_odd n ns true h l = ground (arith, fill_pairs-eq-packed ns h, leaf_flag_eq n l)
besu_odd n ns false h l = ground (arith, fill_pairs-eq-packed ns h)

agree :
    (ns : List ℕ) (leaf : Bool)
    → Nibbles ns
    → (length ns % 2 ≡ 0) ⊎ (length ns % 2 ≡ 1)
    → Compact.compact_encode ns leaf ≡ some (append_hex_prefix [] ns leaf)
agree ns leaf v (inl even) = rw (besu_even ns leaf even, encode_even ns leaf even)
agree [] leaf v (inr odd) = absurd (omega arith)
agree (n ∷ ns) leaf v (inr odd) =
    rw (besu_odd n ns leaf (omega arith) v.0, encode_odd n ns leaf (omega arith))

-- On every path of nibbles, Besu's `CompactEncode` ends without a panic, and Besu's, ethrex's and
-- nimbus's encoders write the same bytes.
pub encoders_agree :
    (ns : List ℕ) (leaf : Bool)
    → Nibbles ns
    → (Compact.compact_encode ns leaf ≡ some (compact_encode ns leaf))
      × (compact_encode ns leaf ≡ append_hex_prefix [] ns leaf)
encoders_agree ns leaf v =
    (rw ethrex-eq-nimbus (agree ns leaf v (omega arith)), ethrex-eq-nimbus ns leaf)

-- Besu switches on the high nibble of the flag.
abbrev same_kind : ℕ → Bool
same_kind f =
    not (bit_and f 0xc0 == 0)
    || (high f == (if is_leaf f then 2 else 0) + (if bit_and f 0x10 == 0 then 0 else 1))

same_kinds : (f : ℕ) → f < 256 → same_kind f ≡ true
unfolding holds_below high
same_kinds f h = holds_at 256 same_kind f refl h

-- On bytes, Besu's `CompactDecode` returns the path and the kind that nimbus's `DecodeHexPrefix`
-- returns, wherever the latter accepts.
pub decoders_agree :
    (b ns : List ℕ) (leaf : Bool)
    → Bytes b
    → decode_hex_prefix b ≡ some (ns, leaf)
    → Compact.compact_decode b ≡ some (ns, leaf)
unfolding decode_hex_prefix Compact.compact_decode
decoders_agree [] ns leaf v e = cc
decoders_agree (f ∷ rest) ns leaf v e = ground (arith, same_kinds f v.0)
