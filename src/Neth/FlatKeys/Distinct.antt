-- ===== src/Neth/FlatKeys/Distinct.antt =====
-- The rows of trie nodes: which node a column and a key belong to.
use state_actor.Prelude.{
  ℕ, zero, suc, ◌+◌, ◌*◌, ◌%◌, ◌≤◌, ◌<◌, ◌≡◌, ◌↔◌, refl, sym, ap, ◌∙◌, arith, List, [], ◌∷◌, ◌++◌,
  append-nil, length, length-drop, drop-append, take, drop, leb, Bool-cases, inl, inr, leb→le,
}
use state_actor.Bytes.{Nibbles, Bytes}
use state_actor.Bytes.Slices.{last_byte, last_byte-append, take_all}
use state_actor.HexPrefix.Loops.{spread}
use state_actor.Neth.TrieBuilder.{pack_loop, pack_nibbles_to_32}
use state_actor.Neth.FlatKeys.{
  Column, state_nodes, state_top_nodes, storage_nodes, fallback_nodes, set_last, encode_with_8_byte,
  state_node_key, storage_node_key, prefix_of, postfix_of, addr_hash_prefix_len,
}
use state_actor.Neth.FlatKeys.Nodes.{
  last_byte-set_last, spread-set_last, length-set_last, take-spread-take, take-spread-pack_loop,
  pack_loop-Bytes, length-pack_loop,
}

-- A node of the state trie by its path, and one of a storage trie by the hash of its address too.
pub data NodeId : Type 0 where
  state_node : List ℕ → NodeId
  storage_node : List ℕ → List ℕ → NodeId

unfoldable pub row_of : NodeId → Column × List ℕ
unfolding state_node_key storage_node_key pack_nibbles_to_32
row_of (state_node path) = state_node_key (pack_nibbles_to_32 path) (length path)
row_of (storage_node addr_hash path) =
    storage_node_key addr_hash (pack_nibbles_to_32 path) (length path)

abbrev pub IsNode : NodeId → Type 0
IsNode (state_node path) = Nibbles path × (length path ≤ 64)
IsNode (storage_node addr_hash path) = (length addr_hash ≡ 32) × (Nibbles path × (length path ≤ 64))

-- The node with the part of the address hash that keys hold.
abbrev pub name_of : NodeId → NodeId
name_of (state_node path) = state_node path
name_of (storage_node addr_hash path) = storage_node (take addr_hash_prefix_len addr_hash) path

-- A path from its packed bytes with the length in the last nibble.
abbrev short_path : List ℕ → List ℕ
short_path out = take (last_byte out % 16) (spread out)

abbrev head_of : List ℕ → ℕ
head_of [] = 0
head_of (x ∷ xs) = x

abbrev node_of : Column × List ℕ → NodeId
node_of (state_top_nodes, k) = state_node (short_path k)
node_of (state_nodes, k) = state_node (short_path k)
node_of (storage_nodes, k) =
    storage_node (take 4 k ++ take 16 (drop 8 (drop 4 k))) (short_path (take 8 (drop 4 k)))
node_of (fallback_nodes, zero ∷ k) = state_node (take (last_byte k) (spread (take 32 k)))
node_of (fallback_nodes, suc tag ∷ k) =
    storage_node (take 4 k ++ take 16 (drop 1 (drop 32 (drop 4 k))))
      (take (head_of (drop 32 (drop 4 k))) (spread (take 32 (drop 4 k))))
node_of (column, k) = state_node []

length-take : (n : ℕ) (b : List ℕ) → n ≤ length b → length (take n b) ≡ n
length-take zero b h = refl
length-take (suc n) [] h = absurd (omega arith)
length-take (suc n) (x ∷ b) h = ap suc (length-take n b (omega arith))

take-Bytes : (n : ℕ) (b : List ℕ) → Bytes b → Bytes (take n b)
take-Bytes zero b h = tt
take-Bytes (suc n) [] h = tt
take-Bytes (suc n) (x ∷ b) h = (h.0, take-Bytes n b h.1)

take_nothing : (n : ℕ) → take {A = ℕ} n [] ≡ []
take_nothing zero = refl
take_nothing (suc n) = refl

drop_all : (b c : List ℕ) (n : ℕ) → n ≡ length b → drop n (b ++ c) ≡ c
drop_all b c n h = rw h (drop-append b c)

take_add : (m n : ℕ) (b : List ℕ) → take (m + n) b ≡ take m b ++ take n (drop m b)
take_add zero n b = let e : 0 + n ≡ n = omega arith in ap (λ (k : ℕ). take k b) e
take_add (suc m) n [] = take_nothing (suc m + n) ∙ sym (take_nothing n)
take_add (suc m) n (x ∷ b) =
    let e : suc m + n ≡ suc (m + n) = omega arith in
    ap (λ (k : ℕ). take k (x ∷ b)) e ∙ ap (λ l. x ∷ l) (take_add m n b)

last_nibble :
    (path_len : ℕ) (out : List ℕ)
    → Bytes out
    → 1 ≤ length out
    → path_len ≤ 15
    → last_byte (set_last path_len out) % 16 ≡ path_len
last_nibble path_len [] b h l = absurd (omega arith)
last_nibble path_len (x ∷ out) b h l = omega (arith, last_byte-set_last path_len x out b)

-- A short path is read off the first bytes of its packed form.
short_path_read :
    (m : ℕ) (path : List ℕ)
    → 1 ≤ m
    → m ≤ 32
    → Nibbles path
    → length path ≤ 15
    → length path < 2 * m
    → short_path (set_last (length path) (take m (pack_loop 32 path))) ≡ path
short_path_read m path one most nibbles short fits =
    let b = pack_loop 32 path in
    let bytes = take-Bytes m b (pack_loop-Bytes 32 path nibbles) in
    let size = length-take m b (omega (arith, length-pack_loop 32 path)) in
    ap (λ (n : ℕ). take n (spread (set_last (length path) (take m b))))
      (last_nibble (length path) (take m b) bytes (omega (arith, size)) short)
    ∙ spread-set_last (length path) (length path) (take m b) bytes (omega (arith, size))
    ∙ take-spread-take (length path) m b (omega arith)
    ∙ take-spread-pack_loop 32 path nibbles (omega arith)

-- A long path is read off all the bytes.
full_path_read :
    (path : List ℕ)
    → Nibbles path
    → length path ≤ 64
    → take (length path % 256) (spread (take 32 (pack_loop 32 path))) ≡ path
full_path_read path h l =
    let whole : length path % 256 ≡ length path = omega arith in
    ap (λ (n : ℕ). take n (spread (take 32 (pack_loop 32 path)))) whole
    ∙ take-spread-take (length path) 32 (pack_loop 32 path) (omega arith)
    ∙ take-spread-pack_loop 32 path h (omega arith)

length-packed : (path : List ℕ) → length (take 32 (pack_loop 32 path)) ≡ 32
length-packed path = length-take 32 (pack_loop 32 path) (omega (arith, length-pack_loop 32 path))

top_read :
    (path : List ℕ)
    → Nibbles path
    → length path ≤ 5
    → short_path (set_last (length path) (take 3 (pack_loop 32 path))) ≡ path
top_read path h l = short_path_read 3 path (omega arith) (omega arith) h (omega arith) (omega arith)

shortened_read :
    (path : List ℕ)
    → Nibbles path
    → length path ≤ 15
    → short_path (encode_with_8_byte (pack_loop 32 path) (length path)) ≡ path
unfolding encode_with_8_byte
shortened_read path h l = short_path_read 8 path (omega arith) (omega arith) h l (omega arith)

state_read :
    (path : List ℕ)
    → Nibbles path
    → length path ≤ 64
    → node_of (row_of (state_node path)) ≡ state_node path
unfolding row_of state_node_key pack_nibbles_to_32
state_read path h l =
    let b = take 32 (pack_loop 32 path) in
    let n = length path % 256 in
    elim (Bool-cases (leb (length path) 5)) [
      | inl e ↦ rw e (ap state_node (top_read path h (leb→le (length path) 5 e)))
      | inr e ↦ elim (Bool-cases (leb (length path) 15)) [
        | inl f ↦ rw (e, f) (ap state_node (shortened_read path h (leb→le (length path) 15 f)))
        | inr f ↦
            rw (e, f, last_byte-append b n, take_all b (n ∷ []) 32 (sym (length-packed path)))
              (ap state_node (full_path_read path h l))
      ]
    ]

length-encode_with_8_byte :
    (path : List ℕ) (n : ℕ) → length (encode_with_8_byte (pack_loop 32 path) n) ≡ 8
unfolding encode_with_8_byte
length-encode_with_8_byte path n =
    length-set_last n (take 8 (pack_loop 32 path))
    ∙ length-take 8 (pack_loop 32 path) (omega (arith, length-pack_loop 32 path))

-- The two parts of the address hash.
record Around (addr_hash : List ℕ) : Type 0 where
  front : (rest : List ℕ) → take 4 (prefix_of addr_hash ++ rest) ≡ prefix_of addr_hash
  inner : (rest : List ℕ) → drop 4 (prefix_of addr_hash ++ rest) ≡ rest
  address : prefix_of addr_hash ++ take 16 (postfix_of addr_hash) ≡ take 20 addr_hash

around : (addr_hash : List ℕ) → length addr_hash ≡ 32 → Around addr_hash
around addr_hash h =
    let p = length-take 4 addr_hash (omega (arith, h)) in
    let q = length-take 16 (drop 4 addr_hash) (omega (arith, h, length-drop 4 addr_hash)) in
    let twice : take 16 (postfix_of addr_hash) ≡ postfix_of addr_hash =
      ap (take 16) (sym (append-nil (postfix_of addr_hash)))
      ∙ take_all (postfix_of addr_hash) [] 16 (sym q) in
    record {
      front = λ rest. take_all (prefix_of addr_hash) rest 4 (sym p);
      inner = λ rest. drop_all (prefix_of addr_hash) rest 4 (sym p);
      address = ap (λ l. prefix_of addr_hash ++ l) twice ∙ sym (take_add 4 16 addr_hash);
    }

storage_read :
    (addr_hash path : List ℕ)
    → length addr_hash ≡ 32
    → Nibbles path
    → length path ≤ 64
    → node_of (row_of (storage_node addr_hash path)) ≡ storage_node (take 20 addr_hash) path
unfolding row_of storage_node_key pack_nibbles_to_32
storage_read addr_hash path a h l =
    let parts = around addr_hash a in
    let enc = encode_with_8_byte (pack_loop 32 path) (length path) in
    let size = length-encode_with_8_byte path (length path) in
    let b = take 32 (pack_loop 32 path) in
    let n = length path % 256 in
    let post = postfix_of addr_hash in
    elim (Bool-cases (leb (length path) 15)) [
      | inl f ↦
          rw
            (
              f,
              parts.front (enc ++ post),
              parts.inner (enc ++ post),
              take_all enc post 8 (sym size),
              drop_all enc post 8 (sym size),
              parts.address,
              shortened_read path h (leb→le (length path) 15 f),
            )
            refl
      | inr f ↦
          rw
            (
              f,
              parts.front (b ++ (n ∷ post)),
              parts.inner (b ++ (n ∷ post)),
              take_all b (n ∷ post) 32 (sym (length-packed path)),
              drop_all b (n ∷ post) 32 (sym (length-packed path)),
              parts.address,
              full_path_read path h l,
            )
            refl
    ]

-- A key holds no more of an address hash than its first 20 bytes.
take_twice : (m n : ℕ) (b : List ℕ) → take m (take (m + n) b) ≡ take m b
take_twice zero n b = refl
take_twice (suc m) n [] = ap (take (suc m)) (take_nothing (suc m + n))
take_twice (suc m) n (x ∷ b) =
    let e : suc m + n ≡ suc (m + n) = omega arith in
    ap (λ (k : ℕ). take (suc m) (take k (x ∷ b))) e ∙ ap (λ l. x ∷ l) (take_twice m n b)

drop-take : (m n : ℕ) (b : List ℕ) → drop m (take (m + n) b) ≡ take n (drop m b)
drop-take zero n b = let e : 0 + n ≡ n = omega arith in ap (λ (k : ℕ). take k b) e
drop-take (suc m) n [] = ap (drop (suc m)) (take_nothing (suc m + n)) ∙ sym (take_nothing n)
drop-take (suc m) n (x ∷ b) =
    let e : suc m + n ≡ suc (m + n) = omega arith in
    ap (λ (k : ℕ). drop (suc m) (take k (x ∷ b))) e ∙ drop-take m n b

row_of-name_of : (a : NodeId) → row_of (name_of a) ≡ row_of a
unfolding row_of storage_node_key
row_of-name_of (state_node path) = refl
row_of-name_of (storage_node addr_hash path) =
    rw
      (
        take_twice 4 16 addr_hash,
        ap (take 16) (drop-take 4 16 addr_hash) ∙ take_twice 16 0 (drop 4 addr_hash),
      )
      refl

-- For nibble paths of at most 64 nibbles, packed as the trie builder packs them, and address hashes
-- of 32 bytes: two trie nodes have the same column and key exactly when they are both state nodes or
-- both storage nodes, with the same path and, in storage, the same first 20 bytes of the address
-- hash. The other 12 bytes of the hash are in no key.
pub row_of_iff :
    (a b : NodeId) → IsNode a → IsNode b → (row_of a ≡ row_of b) ↔ (name_of a ≡ name_of b)
row_of_iff a b h k = (
  λ e. sym (read a h) ∙ ap node_of e ∙ read b k,
  λ e. sym (row_of-name_of a) ∙ ap row_of e ∙ row_of-name_of b,
)
  where
    read : (a : NodeId) → IsNode a → node_of (row_of a) ≡ name_of a
    read (state_node path) (h, l) = state_read path h l
    read (storage_node addr_hash path) (s, (h, l)) = storage_read addr_hash path s h l
