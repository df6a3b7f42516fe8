-- ===== src/Besu/Commit/Encodings.antt =====
-- The encodings of a well-formed trie are those of ethrex's encoders.
use state_actor.Bytes.{Nibbles}
use state_actor.Besu.Compact
use state_actor.Besu.Trie.Paths.{IsPath}
use state_actor.Besu.Streaming.{
  Coding, strip_terminator, encode_leaf_rlp, encode_extension_rlp, ref_of_rlp,
}
use state_actor.Ethrex.Nibbles.{compact_encode}
use state_actor.Ethrex.NodeRlp.{
  append_rlp_bytes, rlp_encode_bytes, rlp_encode_list_raw, append_child_ref_of, encode_leaf,
  encode_extension,
}
use state_actor.Ethrex.NodeRlp.RoundTrip.{append_rlp_bytes-rlp_encode_bytes}
use state_actor.Ethrex.Builder.Bytes.{without_last}
use state_actor.HexPrefix.Agreement.{encoders_agree}
use state_actor.Prelude.{
  ℕ, zero, suc, ◌≡◌, refl, sym, ap, ◌∙◌, arith, true, false, some, List, [], ◌∷◌, ◌++◌,
  append_assoc, append-nil,
}

-- Items behind each other.
abbrev pub concat : List (List ℕ) → List ℕ
concat [] = []
concat (x ∷ xs) = x ++ concat xs

abbrev pub all_encoded : List (List ℕ) → List (List ℕ)
all_encoded [] = []
all_encoded (x ∷ xs) = rlp_encode_bytes x ∷ all_encoded xs

-- What geth's RLP package documents: a byte slice is encoded as a string, a list of byte slices as
-- the list of their encodings, and raw values go into a list as they are.
pub record IsRlp (coding : Coding) : Type 0 where
  pub of_string : (b : List ℕ) → coding.encode_string b ≡ rlp_encode_bytes b
  pub of_strings :
      (items : List (List ℕ))
      → coding.encode_strings items ≡ rlp_encode_list_raw (concat (all_encoded items))
  pub of_raw :
      (items : List (List ℕ)) → coding.encode_raw items ≡ rlp_encode_list_raw (concat items)

strip_terminator-nibble :
    (x y : ℕ) (p : List ℕ) → strip_terminator (x ∷ y ∷ p) ≡ x ∷ strip_terminator (y ∷ p)
unfolding strip_terminator
strip_terminator-nibble x y p = refl

-- A path loses its terminator.
strip_terminator-IsPath :
    (n : ℕ) (p : List ℕ)
    → IsPath n p
    → (strip_terminator p ≡ without_last p) × Nibbles (without_last p)
unfolding strip_terminator without_last
strip_terminator-IsPath n [] h = absurd h
strip_terminator-IsPath zero (x ∷ []) h = (ground (arith, h.0), tt)
strip_terminator-IsPath zero (x ∷ y ∷ p) h = cc (h.1)
strip_terminator-IsPath (suc zero) (x ∷ []) h = absurd (h.1)
strip_terminator-IsPath (suc (suc n)) (x ∷ []) h = absurd (h.1)
strip_terminator-IsPath (suc n) (x ∷ y ∷ p) h =
    let (e, v) = strip_terminator-IsPath n (y ∷ p) (h.1) in (ap (λ l. x ∷ l) e, (h.0, v))

two_items :
    (a b : List ℕ)
    → append_rlp_bytes (append_rlp_bytes [] a) b ≡ rlp_encode_bytes a ++ rlp_encode_bytes b
two_items a b =
    append_rlp_bytes-rlp_encode_bytes (append_rlp_bytes [] a) b
    ∙ ap (λ l. l ++ rlp_encode_bytes b) (append_rlp_bytes-rlp_encode_bytes [] a)

encode_leaf-eq :
    (p v : List ℕ)
    → encode_leaf p v
      ≡ rlp_encode_list_raw (rlp_encode_bytes (compact_encode p true) ++ rlp_encode_bytes v)
unfolding encode_leaf compact_encode
encode_leaf-eq p v = ap rlp_encode_list_raw (two_items (compact_encode p true) v)

module _ (coding : Coding) where
  open coding use {keccak}

  pub append_child_ref_of-eq :
      (dst child : List ℕ) → append_child_ref_of keccak dst child ≡ dst ++ ref_of_rlp coding child
  unfolding append_child_ref_of ref_of_rlp
  append_child_ref_of-eq dst child = ground (arith, append_assoc dst (0xa0 ∷ []) (keccak child))

  encode_extension-eq :
      (p child : List ℕ)
      → encode_extension keccak p child
        ≡ rlp_encode_list_raw (rlp_encode_bytes (compact_encode p false) ++ ref_of_rlp coding child)
  unfolding encode_extension compact_encode
  encode_extension-eq p child = ap rlp_encode_list_raw (
      append_child_ref_of-eq (append_rlp_bytes [] (compact_encode p false)) child
      ∙ ap (λ l. l ++ ref_of_rlp coding child)
          (append_rlp_bytes-rlp_encode_bytes [] (compact_encode p false)))

  encode_leaf_rlp-eq :
      (p q v hp : List ℕ)
      → strip_terminator p ≡ q
      → Compact.compact_encode q true ≡ some hp
      → encode_leaf_rlp coding p v ≡ some (coding.encode_strings (hp ∷ v ∷ []))
  unfolding encode_leaf_rlp
  encode_leaf_rlp-eq p q v hp e h = rw (e, h, encode_leaf_rlp) refl

  encode_extension_rlp-eq :
      (p child hp : List ℕ)
      → Compact.compact_encode p false ≡ some hp
      → encode_extension_rlp coding p child
        ≡ some (coding.encode_raw (coding.encode_string hp ∷ child ∷ []))
  unfolding encode_extension_rlp
  encode_extension_rlp-eq p child hp h = rw (h, encode_extension_rlp) refl

  module _ (rlp : IsRlp coding) where
    pub encode_leaf_rlp-encode_leaf :
        (n : ℕ) (p v : List ℕ)
        → IsPath n p
        → encode_leaf_rlp coding p v ≡ some (encode_leaf (without_last p) v)
    encode_leaf_rlp-encode_leaf n p v h =
        let (e, ns) = strip_terminator-IsPath n p h in
        let q = without_last p in
        let hp = compact_encode q true in
        encode_leaf_rlp-eq p q v hp e (encoders_agree q true ns).0
        ∙ ap some (
            rlp.of_strings (hp ∷ v ∷ [])
            ∙ ap (λ l. rlp_encode_list_raw (rlp_encode_bytes hp ++ l))
                (append-nil (rlp_encode_bytes v))
            ∙ sym (encode_leaf-eq q v))

    pub encode_extension_rlp-encode_extension :
        (p child : List ℕ)
        → Nibbles p
        → encode_extension_rlp coding p (ref_of_rlp coding child)
          ≡ some (encode_extension keccak p child)
    encode_extension_rlp-encode_extension p child ns =
        let hp = compact_encode p false in
        let ref = ref_of_rlp coding child in
        encode_extension_rlp-eq p ref hp (encoders_agree p false ns).0
        ∙ ap some (
            rlp.of_raw (coding.encode_string hp ∷ ref ∷ [])
            ∙ ap (λ l. rlp_encode_list_raw (l ++ (ref ++ []))) (rlp.of_string hp)
            ∙ ap (λ l. rlp_encode_list_raw (rlp_encode_bytes hp ++ l)) (append-nil ref)
            ∙ sym (encode_extension-eq p child))
