-- ===== src/Ethrex/NodeRlp.antt =====
-- internal/ethrex/node_rlp.go: the RLP of trie nodes. The pooled buffers are only scratch space, so
-- they have no counterpart; keccak-256 is a parameter.
pub mod Reader
pub mod RoundTrip
pub mod Leaf
use state_actor.Prelude.{
  ℕ, zero, suc, ◌+◌, ◌/◌, ◌%◌, Bool, true, false, List, [], ◌∷◌, ◌++◌, length, ltb, leb, ◌==◌,
  if◌then◌else◌,
}
use state_actor.Ethrex.Nibbles.{append_compact}

-- `for n > 0` with the bytes behind the cursor; the buffer has room for eight rounds, which an `int`
-- never exceeds.
unfoldable pub min_be_loop : ℕ → ℕ → List ℕ → List ℕ
min_be_loop zero n buf = buf
min_be_loop (suc room) n buf =
    let rest = min_be_loop room (n / 256) ((n % 256) ∷ buf) in if n == 0 then buf else rest

unfoldable pub min_be_bytes : ℕ → List ℕ
unfolding min_be_loop
min_be_bytes n = min_be_loop 8 n []

-- The header of the default case: `base+byte(len(lenBytes))`, then the length.
abbrev pub long_header : ℕ → ℕ → List ℕ
long_header base n = ((base + length (min_be_bytes n)) % 256) ∷ min_be_bytes n

-- The first case, of a single byte below 0x80.
unfoldable pub is_single_byte : List ℕ → Bool
is_single_byte [] = false
is_single_byte (x ∷ []) = ltb x 0x80
is_single_byte (x ∷ y ∷ b) = false

unfoldable pub append_rlp_bytes : List ℕ → List ℕ → List ℕ
unfolding is_single_byte
append_rlp_bytes dst b =
    let n = length b in
    if is_single_byte b
    then dst ++ b
    else if n == 0
    then dst ++ (0x80 ∷ [])
    else if leb n 55
    then (dst ++ (((0x80 + n) % 256) ∷ [])) ++ b
    else (dst ++ long_header 0xb7 n) ++ b

unfoldable pub rlp_encode_bytes : List ℕ → List ℕ
unfolding is_single_byte
rlp_encode_bytes b =
    let n = length b in
    if is_single_byte b
    then b
    else if n == 0
    then 0x80 ∷ []
    else if leb n 55
    then ((0x80 + n) % 256) ∷ b
    else long_header 0xb7 n ++ b

unfoldable pub rlp_encode_list_raw : List ℕ → List ℕ
rlp_encode_list_raw payload =
    let n = length payload in
    if leb n 55 then ((0xc0 + n) % 256) ∷ payload else long_header 0xf7 n ++ payload

unfoldable pub encode_leaf : List ℕ → List ℕ → List ℕ
unfolding append_compact append_rlp_bytes rlp_encode_list_raw
encode_leaf remaining_path value =
    let p = append_rlp_bytes [] (append_compact [] remaining_path true) in
    rlp_encode_list_raw (append_rlp_bytes p value)

module _ (keccak : List ℕ → List ℕ) where
  unfoldable pub append_child_ref_of : List ℕ → List ℕ → List ℕ
  append_child_ref_of dst child =
      if ltb (length child) 32 then dst ++ child else (dst ++ (0xa0 ∷ [])) ++ keccak child

  unfoldable pub encode_extension : List ℕ → List ℕ → List ℕ
  unfolding append_compact append_rlp_bytes rlp_encode_list_raw append_child_ref_of
  encode_extension prefix_path child_encoded =
      let p = append_rlp_bytes [] (append_compact [] prefix_path false) in
      rlp_encode_list_raw (append_child_ref_of p child_encoded)

  -- The loop over the slots with `left` of 16 to go.
  unfoldable pub append_children : List ℕ → ℕ → (ℕ → List ℕ) → ℕ → List ℕ
  unfolding append_child_ref_of
  append_children p zero children i = p
  append_children p (suc left) children i =
      let child = children i in
      let p' = if length child == 0 then p ++ (0x80 ∷ []) else append_child_ref_of p child in
      append_children p' left children (i + 1)

  unfoldable pub encode_branch : (ℕ → List ℕ) → List ℕ → List ℕ
  unfolding append_children append_rlp_bytes rlp_encode_list_raw
  encode_branch children value =
      rlp_encode_list_raw (append_rlp_bytes (append_children [] 16 children 0) value)
