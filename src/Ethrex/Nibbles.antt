-- ===== src/Ethrex/Nibbles.antt =====
-- internal/ethrex/nibbles.go: nibble paths and their compact form. A byte slice is a list of
-- numbers; appending to `dst` is `dst ++`.
use state_actor.Prelude.{
  ℕ, suc, ◌%◌, Bool, List, [], ◌∷◌, ◌++◌, length, ◌==◌, if◌then◌else◌, bit_or, not,
}
use state_actor.Bytes.{high, low, join}

abbrev pub leaf_flag : ℕ
leaf_flag = 16

abbrev pub storage_separator : ℕ
storage_separator = 17

unfoldable pub append_nibbles : List ℕ → List ℕ → List ℕ
unfolding high low
append_nibbles dst [] = dst
append_nibbles dst (b ∷ bs) = append_nibbles (dst ++ (high b ∷ low b ∷ [])) bs

unfoldable pub bytes_to_nibbles : List ℕ → List ℕ
unfolding append_nibbles
bytes_to_nibbles b = append_nibbles [] b

-- `for i := 0; i+1 < len(rest); i += 2`
unfoldable pub pack_pairs : List ℕ → List ℕ → List ℕ
unfolding join
pack_pairs dst [] = dst
pack_pairs dst (a ∷ []) = dst
pack_pairs dst (a ∷ b ∷ rest) = pack_pairs (dst ++ (join a b ∷ [])) rest

-- The flag byte and the slice `nibbles[start:]` of an odd and of an even path.
abbrev pub odd_head : List ℕ → ℕ
odd_head [] = 0
odd_head (n ∷ ns) = n

abbrev pub odd_rest : List ℕ → List ℕ
odd_rest [] = []
odd_rest (n ∷ ns) = ns

unfoldable pub append_compact : List ℕ → List ℕ → Bool → List ℕ
unfolding pack_pairs
append_compact dst nibbles is_leaf =
    let odd = not (length nibbles % 2 == 0) in
    let flag_byte = if odd then bit_or 0x10 (odd_head nibbles) else 0 in
    let flag_byte' = if is_leaf then bit_or flag_byte 0x20 else flag_byte in
    pack_pairs (dst ++ (flag_byte' ∷ [])) (if odd then odd_rest nibbles else nibbles)

unfoldable pub compact_encode : List ℕ → Bool → List ℕ
unfolding append_compact
compact_encode nibbles is_leaf = append_compact [] nibbles is_leaf

-- The loop compares up to the shorter length.
unfoldable pub common_prefix_len : List ℕ → List ℕ → ℕ
common_prefix_len [] b = 0
common_prefix_len (x ∷ a) [] = 0
common_prefix_len (x ∷ a) (y ∷ b) = let n = common_prefix_len a b in if x == y then suc n else 0
