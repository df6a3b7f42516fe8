-- ===== src/Reth/BranchNode.antt =====
-- internal/reth/trie_format.go: the compact form of a branch node. A panic is `none`.
pub mod RoundTrip
mod Examples
use state_actor.Prelude.{
  ℕ, zero, suc, ◌+◌, ◌-◌, ◌*◌, ◌/◌, ◌%◌, ◌^◌, Bool, not, ◌||◌, Option, none, some, List, [], ◌∷◌,
  ◌++◌, length, take, drop, ltb, ◌==◌, if◌then◌else◌, and_then, bit_and, bit_or,
}

pub record BranchNodeCompact : Type 0 where
  pub state_mask : ℕ
  pub tree_mask : ℕ
  pub hash_mask : ℕ
  pub hashes : List (List ℕ)
  pub root_hash : Option (List ℕ)

-- Arithmetic of a uint16.
abbrev pub u16_mod : ℕ
u16_mod = 2 ^ 16

unfoldable pub popcount16 : ℕ → ℕ
popcount16 v =
    let a = (v + (u16_mod - bit_and (v / 2) 0x5555)) % u16_mod in
    let b = (bit_and a 0x3333 + bit_and (a / 2 ^ 2) 0x3333) % u16_mod in
    let c = bit_and ((b + b / 2 ^ 4) % u16_mod) 0x0f0f in c * 0x0101 % u16_mod / 2 ^ 8

abbrev pub be_u16 : ℕ → List ℕ
be_u16 v = (v / 2 ^ 8 % 256) ∷ (v % 256) ∷ []

-- `a &^ b` on uint16s.
abbrev pub and_not : ℕ → ℕ → ℕ
and_not a b = bit_and a (u16_mod - 1 - b)

abbrev pub append_root : Option (List ℕ) → List ℕ
append_root none = []
append_root (some h) = h

-- The last loop; a hash is an array of 32 bytes.
abbrev pub append_hashes : List (List ℕ) → List ℕ
append_hashes [] = []
append_hashes (h ∷ hs) = h ++ append_hashes hs

-- The buffer, and the number of bytes written.
unfoldable pub encode_compact : List ℕ → BranchNodeCompact → Option (List ℕ × ℕ)
unfolding popcount16
encode_compact buf n =
    if not (popcount16 n.hash_mask == length n.hashes)
    then none
    else if not (and_not n.tree_mask n.state_mask == 0)
        || not (and_not n.hash_mask n.state_mask == 0)
    then none
    else (let written =
          be_u16 n.state_mask
          ++ (be_u16 n.tree_mask
              ++ (be_u16 n.hash_mask ++ (append_root n.root_hash ++ append_hashes n.hashes))) in
        some (buf ++ written, length written))

-- `copy(h[:], data[cursor:cursor+32])`, on the bytes from the cursor on.
abbrev pub read_hash : List ℕ → Option (List ℕ × List ℕ)
read_hash b = if ltb (length b) 32 then none else some (take 32 b, drop 32 b)

-- The loop over `count`: the hashes.
unfoldable pub read_hashes : ℕ → List ℕ → Option (List (List ℕ))
read_hashes zero b = some []
read_hashes (suc count) b =
    and_then (read_hash b) (λ p. and_then (read_hashes count p.1) (λ hs. some (p.0 ∷ hs)))

abbrev pub masks_of : List ℕ → Option ((ℕ × ℕ × ℕ) × List ℕ)
masks_of (a ∷ b ∷ c ∷ d ∷ e ∷ f ∷ rest) =
    some ((bit_or (a * 2 ^ 8) b, bit_or (c * 2 ^ 8) d, bit_or (e * 2 ^ 8) f), rest)
masks_of other = none

abbrev pub node_with :
    (ℕ × ℕ × ℕ) → Option (List ℕ) → ℕ → List (List ℕ) → Option (BranchNodeCompact × ℕ)
node_with (s, t, h) root total_len hashes = some (
  record { state_mask = s; tree_mask = t; hash_mask = h; hashes = hashes; root_hash = root },
  total_len,
)

-- From the root hash on, with `numHashes`; the cursor behind the last hash is `totalLen`.
unfoldable pub decode_hashes : (ℕ × ℕ × ℕ) → List ℕ → ℕ → ℕ → Option (BranchNodeCompact × ℕ)
unfolding popcount16 read_hashes
decode_hashes (s, t, h) b num_hashes total_len =
    let count = popcount16 h in
    if num_hashes == count + 1
    then and_then (read_hash b)
        (λ p. and_then (read_hashes count p.1) (λ hs. node_with (s, t, h) (some p.0) total_len hs))
    else if not (num_hashes == count)
    then none
    else and_then (read_hashes count b) (node_with (s, t, h) none total_len)

-- The node, and the number of bytes read.
unfoldable pub decode_compact : List ℕ → ℕ → Option (BranchNodeCompact × ℕ)
unfolding decode_hashes
decode_compact b total_len =
    if ltb total_len 6
    then none
    else and_then (masks_of b) (λ p.
      if not ((total_len - 6) % 32 == 0)
      then none
      else decode_hashes p.0 p.1 ((total_len - 6) / 32) total_len)
