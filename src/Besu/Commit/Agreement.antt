-- ===== src/Besu/Commit/Agreement.antt =====
-- The encoding of a whole trie: the one that Commit of the resident builder takes, and ethrex's.
use state_actor.Bytes.{Nibbles}
use state_actor.Besu.Trie.{Node, null, leaf, extension, branch}
use state_actor.Besu.Trie.WellFormed.{IsBranch, IsWellFormed}
use state_actor.Besu.Streaming.{Coding, ref_of_rlp}
use state_actor.Besu.Commit.{encoded_bytes, encoded_bytes_ref, child_items}
use state_actor.Besu.Commit.Encodings.{
  IsRlp, concat, encode_leaf_rlp-encode_leaf, encode_extension_rlp-encode_extension,
  append_child_ref_of-eq,
}
use state_actor.Ethrex.NodeRlp.{
  rlp_encode_bytes, rlp_encode_list_raw, append_child_ref_of, append_children, encode_leaf,
  encode_extension, encode_branch,
}
use state_actor.Ethrex.NodeRlp.RoundTrip.{append_rlp_bytes-rlp_encode_bytes}
use state_actor.Ethrex.Builder.Bytes.{encode}
use state_actor.Prelude.{
  ℕ, zero, suc, ◌+◌, ◌≡◌, ◌≢◌, refl, sym, ap, ◌∙◌, arith, Bool, true, false, Option, none, some,
  List, [], ◌∷◌, ◌++◌, append_assoc, append-nil, length, leb, ◌==◌, if◌then◌else◌,
}

concat-append : (xs ys : List (List ℕ)) → concat (xs ++ ys) ≡ concat xs ++ concat ys
concat-append [] ys = refl
concat-append (x ∷ xs) ys =
    ap (λ l. x ++ l) (concat-append xs ys) ∙ sym (append_assoc x (concat xs) (concat ys))

-- No encoded list is empty.
abbrev pub IsFull : List ℕ → Type 0
IsFull l = (x : ℕ) × (rest : List ℕ) × (l ≡ x ∷ rest)

either-IsFull : (c : Bool) (x y : ℕ) (a b : List ℕ) → IsFull (if c then x ∷ a else y ∷ b)
either-IsFull true x y a b = (x, a, refl)
either-IsFull false x y a b = (y, b, refl)

rlp_encode_list_raw-IsFull : (payload : List ℕ) → IsFull (rlp_encode_list_raw payload)
unfolding rlp_encode_list_raw
rlp_encode_list_raw-IsFull payload = either-IsFull (leb (length payload) 55) _ _ _ _

encode_leaf-IsFull : (p v : List ℕ) → IsFull (encode_leaf p v)
unfolding encode_leaf
encode_leaf-IsFull p v = rlp_encode_list_raw-IsFull _

encode_extension-IsFull :
    (keccak : List ℕ → List ℕ) (p child : List ℕ) → IsFull (encode_extension keccak p child)
unfolding encode_extension
encode_extension-IsFull keccak p child = rlp_encode_list_raw-IsFull _

encode_branch-IsFull :
    (keccak : List ℕ → List ℕ) (children : ℕ → List ℕ) → IsFull (encode_branch keccak children [])
unfolding encode_branch
encode_branch-IsFull keccak children = rlp_encode_list_raw-IsFull _

module _ (coding : Coding) where
  open coding use {keccak}

  -- What stands in a branch for a child's encoding, which is empty for no child.
  abbrev slot : List ℕ → List ℕ
  slot [] = 0x80 ∷ []
  slot (x ∷ child) = ref_of_rlp coding (x ∷ child)

  slots : ℕ → (ℕ → List ℕ) → ℕ → List (List ℕ)
  slots zero children i = []
  slots (suc left) children i = slot (children i) ∷ slots left children (i + 1)

  slot-eq :
      (p child : List ℕ)
      → (if length child == 0 then p ++ (0x80 ∷ []) else append_child_ref_of keccak p child)
        ≡ p ++ slot child
  slot-eq p [] = refl
  slot-eq p (x ∷ child) = ground (arith, append_child_ref_of-eq coding p (x ∷ child))

  append_children-slots :
      (left : ℕ) (p : List ℕ) (children : ℕ → List ℕ) (i : ℕ)
      → append_children keccak p left children i ≡ p ++ concat (slots left children i)
  unfolding append_children slots
  append_children-slots zero p children i = sym (append-nil p)
  append_children-slots (suc left) p children i =
      ap (λ l. append_children keccak l left children (i + 1)) (slot-eq p (children i))
      ∙ append_children-slots left (p ++ slot (children i)) children (i + 1)
      ∙ append_assoc p (slot (children i)) _

  child_items-slots :
      (left : ℕ) (refs : ℕ → Option (List ℕ)) (children : ℕ → List ℕ) (last : List ℕ) (i : ℕ)
      → ((j : ℕ) → refs j ≡ some (slot (children j)))
      → child_items coding left refs last i ≡ some (slots left children i ++ (last ∷ []))
  unfolding child_items slots
  child_items-slots zero refs children last i h = refl
  child_items-slots (suc left) refs children last i h =
      rw (h i, child_items-slots left refs children last (i + 1) h) refl

  -- A node but the null node has an encoding, which is ethrex's and not empty.
  abbrev pub IsEncoded : Node → Type 0
  IsEncoded null = Unit
  IsEncoded (leaf p v) =
      IsFull (encode keccak (leaf p v))
      × (encoded_bytes coding (leaf p v) ≡ some (encode keccak (leaf p v)))
  IsEncoded (extension p c) =
      IsFull (encode keccak (extension p c))
      × (encoded_bytes coding (extension p c) ≡ some (encode keccak (extension p c)))
  IsEncoded (branch children bv) =
      IsFull (encode keccak (branch children bv))
      × (encoded_bytes coding (branch children bv) ≡ some (encode keccak (branch children bv)))

  ref_slot : (l : List ℕ) → IsFull l → ref_of_rlp coding l ≡ slot l
  ref_slot l (x, rest, e) = rw e refl

  encoded_bytes_ref-slot :
      (t : Node)
      → IsEncoded t
      → encoded_bytes_ref coding t (encoded_bytes coding t) ≡ some (slot (encode keccak t))
  unfolding encode
  encoded_bytes_ref-slot null h = refl
  encoded_bytes_ref-slot (leaf p v) (f, e) = rw e (ap some (ref_slot _ f))
  encoded_bytes_ref-slot (extension p c) (f, e) = rw e (ap some (ref_slot _ f))
  encoded_bytes_ref-slot (branch children bv) (f, e) = rw e (ap some (ref_slot _ f))

  encode_branch-eq :
      (children : ℕ → List ℕ)
      → rlp_encode_list_raw (concat (slots 16 children 0 ++ ((0x80 ∷ []) ∷ [])))
        ≡ encode_branch keccak children []
  unfolding encode_branch rlp_encode_bytes
  encode_branch-eq children = ap rlp_encode_list_raw (
      concat-append (slots 16 children 0) ((0x80 ∷ []) ∷ [])
      ∙ sym (
          append_rlp_bytes-rlp_encode_bytes (append_children keccak [] 16 children 0) []
          ∙ ap (λ l. l ++ (0x80 ∷ [])) (append_children-slots 16 [] children 0)))

  module _ (rlp : IsRlp coding) where
    encoded_bytes-branch :
        (children : ℕ → Node)
        → ((i : ℕ) → IsEncoded (children i))
        → encoded_bytes coding (branch children none) ≡ some (encode keccak (branch children none))
    unfolding encode encoded_bytes
    encoded_bytes-branch children h =
        rw
          (child_items-slots 16
            (λ i. encoded_bytes_ref coding (children i) (encoded_bytes coding (children i)))
            (λ i. encode keccak (children i)) (0x80 ∷ []) 0
            (λ i. encoded_bytes_ref-slot (children i) (h i)))
          (ap some (rlp.of_raw _ ∙ encode_branch-eq (λ i. encode keccak (children i))))

    over_branch :
        (p : List ℕ) (c : Node) → Nibbles p → IsBranch c → IsEncoded c → IsEncoded (extension p c)
    unfolding encode encoded_bytes
    over_branch p null ns b h = absurd b
    over_branch p (leaf q v) ns b h = absurd b
    over_branch p (extension q c) ns b h = absurd b
    over_branch p (branch children bv) ns b (f, e) =
        let child = encode keccak (branch children bv) in
        (
          encode_extension-IsFull keccak p child,
          rw e (encode_extension_rlp-encode_extension coding rlp p child ns),
        )

    pub encoded : (n : ℕ) (t : Node) → IsWellFormed n t → IsEncoded t
    unfolding encode encoded_bytes
    encoded n null wf = tt
    encoded n (leaf p v) wf =
        (encode_leaf-IsFull _ v, encode_leaf_rlp-encode_leaf coding rlp n p v wf)
    encoded n (extension p c) (m, size, ne, ns, b, wf) = over_branch p c ns b (encoded m c wf)
    encoded n (branch children bv) (m, size, empty, wf, high, two) = (
      encode_branch-IsFull keccak (λ i. encode keccak (children i)),
      rw empty (encoded_bytes-branch children (λ i. encoded m (children i) (wf i))),
    )

    -- The encoding that Commit of Besu's resident builder takes of a trie is ethrex's.
    pub encoded_bytes-encode :
        (n : ℕ) (t : Node)
        → IsWellFormed n t
        → t ≢ null
        → encoded_bytes coding t ≡ some (encode keccak t)
    encoded_bytes-encode n null wf used = absurd (used refl)
    encoded_bytes-encode n (leaf p v) wf used = (encoded n (leaf p v) wf).1
    encoded_bytes-encode n (extension p c) wf used = (encoded n (extension p c) wf).1
    encoded_bytes-encode n (branch children bv) wf used = (encoded n (branch children bv) wf).1
