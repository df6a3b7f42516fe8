-- ===== src/Nimbus/Vertex.antt =====
-- internal/nimbus/vertex.go: the records of trie vertices, and their encoders. The 256-bit integers
-- of the uint256 package and geth's EmptyCodeHash are parameters.
pub mod Decode
pub mod Segments
pub mod Paths
pub mod Branch
pub mod Leaf
pub mod Masks
pub mod Account
pub mod AccLeaf
pub mod RoundTrip
mod Examples
use state_actor.Prelude.{
  ℕ, zero, ◌+◌, ◌-◌, ◌*◌, ◌/◌, ◌%◌, ◌^◌, Bool, true, false, not, ◌&&◌, Option, none, some, List, [],
  ◌∷◌, ◌++◌, length, drop, ltb, leb, ◌==◌, if◌then◌else◌, bit_or,
}
use state_actor.Bytes.{same_bytes}
use state_actor.Nimbus.HexPrefix.{append_hex_prefix}
use state_actor.Nimbus.Sbe.{sbe_len, append_sbe, append_sbe_bytes32}
use state_actor.Nimbus.Vid.{static_vid_levels}

abbrev pub bits_leaf : ℕ
bits_leaf = 0b01

abbrev pub bits_has_key : ℕ
bits_has_key = 0b10

abbrev pub mask_nonce : ℕ
mask_nonce = 0x01

abbrev pub mask_balance : ℕ
mask_balance = 0x02

abbrev pub mask_sto_id : ℕ
mask_sto_id = 0x04

abbrev pub mask_code_hash : ℕ
mask_code_hash = 0x08

abbrev pub mask_sto_hint : ℕ
mask_sto_hint = 0x10

abbrev pub mask_sto_leaf : ℕ
mask_sto_leaf = 0x20

abbrev pub max_vertex_blob_size : ℕ
max_vertex_blob_size = 118

abbrev pub max_sto_hint : ℕ
max_sto_hint = static_vid_levels + 1

-- The methods of `uint256.Int` that the codec calls: `zero_int` is `new(uint256.Int)`.
pub record Uint256 (U : Type 0) : Type 0 where
  pub zero_int : U
  pub is_zero : U → Bool
  pub bytes : U → List ℕ
  pub set_bytes : List ℕ → U
  pub bytes32 : U → List ℕ

-- sbe.go: AppendSBE256, with `none` for a nil pointer.
abbrev pub append_sbe256 : {U : Type 0} → Uint256 U → List ℕ → Option U → List ℕ
append_sbe256 u dst none = dst ++ (0 ∷ [])
append_sbe256 u dst (some v) = if u.is_zero v then dst ++ (0 ∷ []) else dst ++ u.bytes v

pub data VertexType : Type 0 where
  branch ext_branch acc_leaf sto_leaf : VertexType

-- A nil key is the empty list, a nil balance is `none`.
pub record Vertex (U : Type 0) : Type 0 where
  pub vertex_type : VertexType
  pub pfx : List ℕ
  pub key : List ℕ
  pub start_vid : ℕ
  pub used : ℕ
  pub nonce : ℕ
  pub balance : Option U
  pub sto_id : ℕ
  pub sto_hint : ℕ
  pub code_hash : List ℕ
  pub sto_value : List ℕ

-- The second part: the hex-prefix segment, or nothing for an empty prefix.
unfoldable pub append_branch_rest : List ℕ → ℕ → List ℕ → List ℕ
unfolding append_hex_prefix
append_branch_rest dst bits [] = dst ++ (bit_or (bits * 2 ^ 6 % 256) 0 ∷ [])
append_branch_rest dst bits (n ∷ pfx) =
    let dst' = append_hex_prefix dst (n ∷ pfx) false in
    dst' ++ (bit_or (bits * 2 ^ 6 % 256) ((length dst' - length dst) % 256) ∷ [])

unfoldable pub append_branch_body : List ℕ → ℕ → ℕ → ℕ → List ℕ → List ℕ
unfolding append_branch_rest append_sbe
append_branch_body dst bits start_vid used pfx =
    append_branch_rest (append_sbe dst start_vid ++ ((used / 2 ^ 8 % 256) ∷ (used % 256) ∷ [])) bits
      pfx

-- `none` is the panic on a key that is neither nil nor 32 bytes.
unfoldable pub append_branch : List ℕ → List ℕ → ℕ → ℕ → List ℕ → Option (List ℕ)
unfolding append_branch_body
append_branch dst key32 start_vid used pfx =
    if length key32 == 0
    then some (append_branch_body dst 0 start_vid used pfx)
    else if length key32 == 32
    then some (append_branch_body (dst ++ key32) bits_has_key start_vid used pfx)
    else none

-- What `AppendAccLeafPayload` has made so far.
pub record Fields : Type 0 where
  pub dst : List ℕ
  pub lens : ℕ
  pub mask : ℕ

-- One of its `if`s: the bit of the mask, the bits of `lens`, and the bytes.
abbrev pub put_field : Bool → ℕ → ℕ → List ℕ → Fields → Fields
put_field true bit size bytes p = record {
  dst = p.dst ++ bytes;
  lens = bit_or p.lens (size % 2 ^ 16);
  mask = bit_or p.mask bit;
}
put_field false bit size bytes p = p

-- `balance != nil && !balance.IsZero()`, and `balance.Bytes()`.
abbrev pub has_balance : {U : Type 0} → Uint256 U → Option U → Bool
has_balance u none = false
has_balance u (some v) = not (u.is_zero v)

abbrev pub balance_bytes : {U : Type 0} → Uint256 U → Option U → List ℕ
balance_bytes u none = []
balance_bytes u (some v) = u.bytes v

module _ {U : Type 0} (u : Uint256 U) (empty_code_hash : List ℕ) where
  unfoldable pub append_acc_leaf_payload : List ℕ → ℕ → Option U → ℕ → ℕ → List ℕ → List ℕ
  unfolding sbe_len append_sbe same_bytes
  append_acc_leaf_payload dst nonce balance sto_id sto_hint code_hash =
      let p0 : Fields = record { dst = dst; lens = 0; mask = 0 } in
      let p1 = put_field (ltb 0 nonce) mask_nonce (sbe_len nonce - 1) (append_sbe [] nonce) p0 in
      let b = balance_bytes u balance in
      let p2 = put_field (has_balance u balance) mask_balance ((length b - 1) * 2 ^ 3) b p1 in
      let p3 =
        put_field (not (sto_id == 0)) mask_sto_id ((sbe_len sto_id - 1) * 2 ^ 8)
          (append_sbe [] sto_id) p2 in
      let p4 = put_field (ltb 0 sto_hint) mask_sto_hint 0 (sto_hint ∷ []) p3 in
      let p5 =
        put_field (not (same_bytes code_hash empty_code_hash)) mask_code_hash 0 code_hash p4 in
      p5.dst ++ ((p5.lens / 2 ^ 8 % 256) ∷ (p5.lens % 256) ∷ p5.mask ∷ [])

unfoldable pub append_sto_leaf_payload : List ℕ → List ℕ → List ℕ
unfolding append_sbe_bytes32
append_sto_leaf_payload dst value = append_sbe_bytes32 dst value ++ (mask_sto_leaf ∷ [])

-- The cases of the switch: one byte below 0x80, a short string, and anything else.
unfoldable pub append_sto_leaf_payload_from_rlp : List ℕ → List ℕ → List ℕ
append_sto_leaf_payload_from_rlp dst [] = (dst ++ (0 ∷ [])) ++ (mask_sto_leaf ∷ [])
append_sto_leaf_payload_from_rlp dst (c ∷ rest) =
    let n = length (c ∷ rest) in
    if n == 1 && ltb c 0x80
    then (dst ++ (c ∷ [])) ++ (mask_sto_leaf ∷ [])
    else if leb 2 n && (ltb 0x80 c && (leb c 0xa0 && (n == c - 0x80 + 1)))
    then (dst ++ rest) ++ (mask_sto_leaf ∷ [])
    else (dst ++ (0 ∷ [])) ++ (mask_sto_leaf ∷ [])

unfoldable pub append_leaf_record : List ℕ → List ℕ → List ℕ → List ℕ
unfolding append_hex_prefix
append_leaf_record dst payload pfx =
    let start = dst ++ payload in
    let dst' = append_hex_prefix start pfx true in
    dst' ++ (bit_or (bits_leaf * 2 ^ 6) ((length dst' - length start) % 256) ∷ [])

unfoldable pub encode : {U : Type 0} → Uint256 U → List ℕ → Vertex U → Option (List ℕ)
unfolding append_branch append_acc_leaf_payload append_sto_leaf_payload append_leaf_record
encode u empty_code_hash v = elim v.vertex_type [
  | branch ↦ append_branch [] v.key v.start_vid v.used v.pfx
  | ext_branch ↦ append_branch [] v.key v.start_vid v.used v.pfx
  | acc_leaf ↦ some (
      append_leaf_record []
        (append_acc_leaf_payload u empty_code_hash [] v.nonce v.balance v.sto_id v.sto_hint
          v.code_hash)
        v.pfx)
  | sto_leaf ↦ some (append_leaf_record [] (append_sto_leaf_payload [] v.sto_value) v.pfx)
]
