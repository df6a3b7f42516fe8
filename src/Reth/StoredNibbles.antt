-- ===== src/Reth/StoredNibbles.antt =====
-- internal/reth/trie_format.go: the keys of stored trie nodes, of 65 bytes and packed into 33, and
-- the entry of a storage trie. A panic is `none`; `nibbles` is an array of 64 bytes.
pub mod RoundTrip
mod Examples
use state_actor.Prelude.{
  ℕ, zero, suc, ◌+◌, ◌*◌, ◌%◌, Option, none, some, List, [], ◌∷◌, ◌++◌, length, take, get_elem?,
  ltb, if◌then◌else◌, and_then,
}
use state_actor.Bytes.{join}
use state_actor.Reth.BranchNode.{BranchNodeCompact, encode_compact}

pub record StoredNibbles : Type 0 where
  pub nibble_count : ℕ
  pub nibbles : List ℕ

unfoldable pub encode_key : List ℕ → StoredNibbles → List ℕ
encode_key buf s = buf ++ (s.nibbles ++ (s.nibble_count ∷ []))

unfoldable pub decode_key : List ℕ → Option StoredNibbles
decode_key b =
    if ltb (length b) 65
    then none
    else and_then (get_elem? b 64) (λ n. some (record { nibble_count = n; nibbles = take 64 b }))

-- The loop over pairs, and the high half of one more byte for an odd nibble at the end.
unfoldable pub pack_nibbles : List ℕ → List ℕ
unfolding join
pack_nibbles [] = []
pack_nibbles (a ∷ []) = (a * 16 % 256) ∷ []
pack_nibbles (a ∷ b ∷ rest) = join a b ∷ pack_nibbles rest

-- The bytes behind them that the array keeps at zero.
unfoldable pub zero_padded : ℕ → List ℕ → List ℕ
zero_padded zero b = b
zero_padded (suc n) [] = 0 ∷ zero_padded n []
zero_padded (suc n) (x ∷ b) = x ∷ zero_padded n b

-- `out[:]`
abbrev pub packed_key : StoredNibbles → List ℕ
packed_key s =
    zero_padded 32 (pack_nibbles (take s.nibble_count s.nibbles)) ++ (s.nibble_count ∷ [])

unfoldable pub encode_packed_account_key : List ℕ → StoredNibbles → Option (List ℕ)
unfolding zero_padded pack_nibbles
encode_packed_account_key buf s = if ltb 64 s.nibble_count then none else some (buf ++ packed_key s)

pub record StorageTrieEntry : Type 0 where
  pub sub_key : StoredNibbles
  pub node : BranchNodeCompact

-- The buffer, and the number of bytes written.
unfoldable pub encode_packed_compact : List ℕ → StorageTrieEntry → Option (List ℕ × ℕ)
unfolding zero_padded pack_nibbles encode_compact
encode_packed_compact buf e =
    if ltb 64 e.sub_key.nibble_count
    then none
    else and_then (encode_compact (buf ++ packed_key e.sub_key) e.node) (λ p. some (p.0, 33 + p.1))
