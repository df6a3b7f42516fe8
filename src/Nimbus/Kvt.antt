-- ===== src/Nimbus/Kvt.antt =====
-- internal/nimbus/kvt.go: the row keys and values of the key-value table.
use state_actor.Prelude.{
  ℕ, ◌+◌, ◌*◌, ◌/◌, ◌%◌, ◌^◌, ◌≡◌, refl, sym, ap, ◌∙◌, arith, List, [], ◌∷◌, ◌++◌, length, ◌==◌,
  if◌then◌else◌,
}
use state_actor.Nimbus.Sbe.{IsU64}
use state_actor.Nimbus.Sbe.RoundTrip.{be_bytes}

abbrev pub kind_generic_hash : ℕ
kind_generic_hash = 0

abbrev pub kind_block_number_to_hash : ℕ
kind_block_number_to_hash = 1

abbrev pub kind_block_hash_to_score : ℕ
kind_block_hash_to_score = 2

abbrev pub kind_canonical_head_hash : ℕ
kind_canonical_head_hash = 4

abbrev pub kind_contract_hash : ℕ
kind_contract_hash = 6

abbrev pub kind_fcu_num_and_hash : ℕ
kind_fcu_num_and_hash = 8

-- The hash is an array of 32 bytes.
abbrev pub hash_key : ℕ → List ℕ → List ℕ
hash_key kind h = kind ∷ h

-- `PutUint64` of the little-endian order.
abbrev pub u64_key : ℕ → ℕ → List ℕ
u64_key kind u =
    kind
    ∷ (u % 256)
    ∷ (u / 2 ^ 8 % 256)
    ∷ (u / 2 ^ 16 % 256)
    ∷ (u / 2 ^ 24 % 256)
    ∷ (u / 2 ^ 32 % 256)
    ∷ (u / 2 ^ 40 % 256)
    ∷ (u / 2 ^ 48 % 256)
    ∷ (u / 2 ^ 56 % 256)
    ∷ []

unfoldable pub key_header : List ℕ → List ℕ
key_header h = hash_key kind_generic_hash h

unfoldable pub key_block_num_to_hash : ℕ → List ℕ
key_block_num_to_hash n = u64_key kind_block_number_to_hash n

unfoldable pub key_score : List ℕ → List ℕ
key_score h = hash_key kind_block_hash_to_score h

abbrev pub key_canonical_head : List ℕ
key_canonical_head = kind_canonical_head_hash ∷ 0x00 ∷ []

unfoldable pub key_code : List ℕ → List ℕ
key_code code_hash = hash_key kind_contract_hash code_hash

unfoldable pub key_fcu : ℕ → List ℕ
key_fcu idx = u64_key kind_fcu_num_and_hash idx

unfoldable pub rlp_hash : List ℕ → List ℕ
rlp_hash h = 0xa0 ∷ h

unfoldable pub fcu_value : ℕ → List ℕ → List ℕ
unfolding be_bytes
fcu_value number h = be_bytes 8 number ++ h

-- The rows that are written to the table.
pub data Row : Type 0 where
  header score code : List ℕ → Row
  block_num_to_hash fcu : ℕ → Row
  canonical_head : Row

unfoldable pub key_of : Row → List ℕ
unfolding key_header key_block_num_to_hash key_score key_code key_fcu
key_of (header h) = key_header h
key_of (score h) = key_score h
key_of (code h) = key_code h
key_of (block_num_to_hash n) = key_block_num_to_hash n
key_of (fcu idx) = key_fcu idx
key_of canonical_head = key_canonical_head

abbrev pub IsRow : Row → Type 0
IsRow (header h) = length h ≡ 32
IsRow (score h) = length h ≡ 32
IsRow (code h) = length h ≡ 32
IsRow (block_num_to_hash n) = IsU64 n
IsRow (fcu idx) = IsU64 idx
IsRow canonical_head = Unit

-- What a key is the key of.
abbrev le_value : List ℕ → ℕ
le_value [] = 0
le_value (c ∷ cs) = c + 256 * le_value cs

abbrev row_of : List ℕ → Row
row_of [] = canonical_head
row_of (kind ∷ rest) =
    if kind == kind_generic_hash
    then header rest
    else if kind == kind_block_hash_to_score
    then score rest
    else if kind == kind_contract_hash
    then code rest
    else if kind == kind_block_number_to_hash
    then block_num_to_hash (le_value rest)
    else if kind == kind_fcu_num_and_hash
    then fcu (le_value rest)
    else canonical_head

row_of-key_of : (r : Row) → IsRow r → row_of (key_of r) ≡ r
unfolding key_of key_header key_block_num_to_hash key_score key_code key_fcu
row_of-key_of (header h) v = refl
row_of-key_of (score h) v = refl
row_of-key_of (code h) v = refl
row_of-key_of (block_num_to_hash n) v = ap block_num_to_hash (omega arith)
row_of-key_of (fcu idx) v = ap fcu (omega arith)
row_of-key_of canonical_head v = refl

-- No two rows of the table have the same key: rows of different kinds never, and rows of one kind only
-- with the same hash or the same uint64.
key_of_injective : (r s : Row) → IsRow r → IsRow s → key_of r ≡ key_of s → r ≡ s
key_of_injective r s v w e = sym (row_of-key_of r v) ∙ ap row_of e ∙ row_of-key_of s w
