-- ===== src/Besu/Streaming/Encodings.antt =====
-- The node encodings of the streaming builder end without a panic.
use state_actor.Besu.Compact.{compact_encode}
use state_actor.Besu.Streaming.{
  Coding, popcount, strip_terminator, encode_leaf_rlp, encode_extension_rlp, encode_branch_rlp,
}
use state_actor.Besu.Streaming.Masks.{branch_items-some, halved}
use state_actor.HexPrefix.Loops.{packed, fill_pairs-eq-packed}
use state_actor.Prelude.{
  ℕ, ◌%◌, ◌≤◌, ◌≡◌, refl, arith, Bool, true, false, Option, some, List, [], ◌∷◌, length, ◌==◌, inl,
  inr, Bool-cases, bit_or,
}

-- A computed option that is some value.
abbrev pub IsSome : {A : Type 0} → Option A → Type 0
IsSome {A} o = (a : A) × (o ≡ some a)

even_encoding : (ns : List ℕ) (leaf : Bool) → length ns % 2 ≡ 0 → IsSome (compact_encode ns leaf)
unfolding compact_encode
even_encoding ns true h = (0x20 ∷ packed ns, ground (arith, fill_pairs-eq-packed ns h))
even_encoding ns false h = (0x00 ∷ packed ns, ground (arith, fill_pairs-eq-packed ns h))

odd_encoding :
    (n : ℕ) (ns : List ℕ) (leaf : Bool) → length ns % 2 ≡ 0 → IsSome (compact_encode (n ∷ ns) leaf)
unfolding compact_encode
odd_encoding n ns true h = (bit_or 0x30 n ∷ packed ns, ground (arith, fill_pairs-eq-packed ns h))
odd_encoding n ns false h = (bit_or 0x10 n ∷ packed ns, ground (arith, fill_pairs-eq-packed ns h))

compact_encode-IsSome : (ns : List ℕ) (leaf : Bool) → IsSome (compact_encode ns leaf)
compact_encode-IsSome [] leaf = even_encoding [] leaf (omega arith)
compact_encode-IsSome (n ∷ ns) leaf = elim (Bool-cases (length ns % 2 == 0)) [
  | inl e ↦ odd_encoding n ns leaf (ground arith)
  | inr e ↦ even_encoding (n ∷ ns) leaf (ground arith)
]

module _ (coding : Coding) where
  pub encode_leaf_rlp-IsSome : (path value : List ℕ) → IsSome (encode_leaf_rlp coding path value)
  unfolding encode_leaf_rlp
  encode_leaf_rlp-IsSome path value =
      let (hp, h) = compact_encode-IsSome (strip_terminator path) true in
      (coding.encode_strings (hp ∷ value ∷ []), rw (h, encode_leaf_rlp) refl)

  pub encode_extension_rlp-IsSome :
      (path child_ref : List ℕ) → IsSome (encode_extension_rlp coding path child_ref)
  unfolding encode_extension_rlp
  encode_extension_rlp-IsSome path child_ref =
      let (hp, h) = compact_encode-IsSome path false in
      (
        coding.encode_raw (coding.encode_string hp ∷ child_ref ∷ []),
        rw (h, encode_extension_rlp) refl,
      )

  pub encode_branch_rlp-IsSome :
      (state_mask : ℕ) (children : List (List ℕ))
      → popcount state_mask ≤ length children
      → IsSome (encode_branch_rlp coding state_mask children)
  unfolding encode_branch_rlp popcount halved
  encode_branch_rlp-IsSome state_mask children h =
      let (items, e) = branch_items-some 16 0 state_mask children h in
      (coding.encode_raw items, rw (e, encode_branch_rlp) refl)
