-- ===== src/Ethrex/Examples.antt =====
-- Runs of the streaming builder at concrete accounts.
use state_actor.Besu.Trie
use state_actor.Prelude.{ℕ, zero, suc, ◌≡◌, refl, arith, some, List, [], ◌∷◌, true}
use state_actor.Besu.Trie.{new, add_accounts}
use state_actor.Besu.Trie.Keys.{IsHash}
use state_actor.Ethrex.Nibbles.{bytes_to_nibbles}
use state_actor.Nimbus.HexPrefix.{decode_hex_prefix}
use state_actor.Ethrex.NodeRlp.{encode_leaf}
use state_actor.Ethrex.NodeRlp.Reader.{text, sequence, read_item}
use state_actor.Ethrex.NodeRlp.Leaf.{read_item-encode_leaf}
use state_actor.Ethrex.Builder.{Builder, Row, added, compare_le, new_builder, rlp_encoder}
use state_actor.Ethrex.Builder.Finish.{root}
use state_actor.Ethrex.Builder.Accounts.{add_leaves, Ascend}
use state_actor.Ethrex.Builder.Bytes.{encode, root-add_leaves}

abbrev repeated : ℕ → ℕ → List ℕ
repeated zero b = []
repeated (suc n) b = b ∷ repeated n b

-- The first two hashes part at the fourth nibble, the third at the first one, so that the third
-- closes a branch below an extension.
abbrev first : List ℕ
first = 0x11 ∷ 0x22 ∷ repeated 30 0xab

abbrev second : List ℕ
second = 0x11 ∷ 0x23 ∷ repeated 30 0xcd

abbrev third : List ℕ
third = repeated 32 0xff

-- In place of keccak: 32 times the first byte.
abbrev stamp : List ℕ → List ℕ
stamp [] = repeated 32 0
stamp (x ∷ b) = repeated 32 x

abbrev later : List (List ℕ × List ℕ)
later = (second, 2 ∷ []) ∷ (third, 3 ∷ []) ∷ []

first-IsHash : IsHash first
first-IsHash = omega arith

later-Ascend : Ascend first later
unfolding compare_le bytes_to_nibbles
later-Ascend = (omega arith, refl, (omega arith, refl, tt))

root-add_leaves_example :
    (eb : Builder (List ℕ)) × (bb : Trie.Builder) × (rows : List (Row (List ℕ))) × (add_leaves
        (rlp_encoder stamp)
        (new_builder (rlp_encoder stamp))
        ((first, 1 ∷ []) ∷ later)
      ≡ added eb)
    × (add_accounts new ((first, 1 ∷ []) ∷ later) ≡ some bb)
    × (root stamp eb ≡ some (stamp (encode stamp bb.root), rows))
root-add_leaves_example = root-add_leaves stamp first (1 ∷ []) later first-IsHash later-Ascend

-- A long value, so that the string and the list take headers with a length.
abbrev long_value : List ℕ
long_value = repeated 60 7

read_item-encode_leaf_example :
    (payload : List ℕ) × (compact : List ℕ) × (rest : List ℕ) × (read_item
        (encode_leaf (1 ∷ 2 ∷ 3 ∷ []) long_value)
      ≡ some (sequence payload, []))
    × (read_item payload ≡ some (text compact, rest))
    × (decode_hex_prefix compact ≡ some (1 ∷ 2 ∷ 3 ∷ [], true))
    × (read_item rest ≡ some (text long_value, []))
read_item-encode_leaf_example =
    read_item-encode_leaf (1 ∷ 2 ∷ 3 ∷ []) long_value (omega arith) (omega arith) (omega arith)
