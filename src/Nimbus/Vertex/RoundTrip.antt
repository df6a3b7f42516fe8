-- ===== src/Nimbus/Vertex/RoundTrip.antt =====
-- Every vertex is written and read back; the payload of a storage leaf made from RLP.
use mathlib.Core.Path.{subst}
use state_actor.Prelude.{
  ℕ, ◌^◌, ◌≤◌, ◌<◌, ◌≡◌, refl, sym, arith, List, [], ◌∷◌, ◌++◌, length, ltb, Bool-cases, inl, inr,
  ◌⊎◌,
}
use state_actor.Bytes.{Nibbles}
use state_actor.Ethrex.NodeRlp.{append_rlp_bytes}
use state_actor.Nimbus.Sbe.{IsU64, trim_zeros, append_sbe_bytes32}
use state_actor.Nimbus.Sbe.Trim.{length-trim_zeros, trim_zeros_kept}
use state_actor.Nimbus.Vertex.{
  Uint256, Vertex, sto_leaf, append_branch, append_sto_leaf_payload,
  append_sto_leaf_payload_from_rlp, mask_sto_leaf, encode,
}
use state_actor.Nimbus.Vertex.Decode.{no_vertex}
use state_actor.Nimbus.Vertex.Segments.{ReadsBack}
use state_actor.Nimbus.Vertex.Branch.{segment, IsKey, branch_vertex, decode_vertex-append_branch}
use state_actor.Nimbus.Vertex.Leaf.{Pads, decode_vertex-append_sto_leaf}
use state_actor.Nimbus.Vertex.Account.{IsUint256, IsAccount}
use state_actor.Nimbus.Vertex.AccLeaf.{acc_leaf_vertex, decode_vertex-append_acc_leaf}

module _ {U : Type 0} (u : Uint256 U) (empty_code_hash : List ℕ) where
  -- A vertex of each kind: the fields of other kinds are as in `Vertex{}`, and its own are in range.
  pub record IsBranch (v : Vertex U) : Type 0 where
    pub shape : v ≡ branch_vertex u empty_code_hash v.key v.start_vid v.used v.pfx
    pub key_size : IsKey v.key
    pub start_small : IsU64 v.start_vid
    pub used_small : v.used < 2 ^ 16
    pub path : Nibbles v.pfx
    pub path_short : length v.pfx ≤ 64

  pub record IsAccLeaf (v : Vertex U) : Type 0 where
    pub held : U
    pub shape :
        v ≡ acc_leaf_vertex u empty_code_hash v.pfx v.nonce held v.sto_id v.sto_hint v.code_hash
    pub fields : IsAccount v.nonce v.sto_id v.sto_hint v.code_hash
    pub path : Nibbles v.pfx
    pub path_short : length v.pfx ≤ 64

  pub record IsStoLeaf (v : Vertex U) : Type 0 where
    pub shape : v ≡ record (no_vertex u empty_code_hash) {
      vertex_type = sto_leaf;
      pfx = v.pfx;
      sto_value = v.sto_value;
    }
    pub value_size : length v.sto_value ≡ 32
    pub path : Nibbles v.pfx
    pub path_short : length v.pfx ≤ 64

  abbrev pub IsVertex : Vertex U → Type 0
  IsVertex v = IsBranch v ⊎ (IsAccLeaf v ⊎ IsStoLeaf v)

  encode-branch_vertex :
      (key : List ℕ) (start_vid used : ℕ) (pfx : List ℕ)
      → encode u empty_code_hash (branch_vertex u empty_code_hash key start_vid used pfx)
        ≡ append_branch [] key start_vid used pfx
  unfolding encode
  encode-branch_vertex key start_vid used pfx = elim (Bool-cases (ltb 0 (length (segment pfx)))) [
    | inl e ↦ rw e refl
    | inr e ↦ rw e refl
  ]

  -- Every vertex in range, of the kinds branch, extension branch, account leaf and storage leaf, with
  -- a path of at most 64 nibbles, is encoded without a panic into at most MaxVertexBlobSize bytes, and
  -- DecodeVertex of those is the vertex. Of the 256-bit integers it asks that they take at most 32
  -- bytes which spell them, and that SetBytes and Bytes32 put zeros before fewer bytes.
  pub decode_vertex-encode :
      IsUint256 u
      → Pads u
      → (v : Vertex U) → IsVertex v
      → ReadsBack u empty_code_hash (encode u empty_code_hash v) v
  unfolding encode
  decode_vertex-encode laws pads v (inl h) =
      subst (λ x. ReadsBack u empty_code_hash (encode u empty_code_hash x) x) (sym h.shape)
        (rw (encode-branch_vertex v.key v.start_vid v.used v.pfx) (
          decode_vertex-append_branch u empty_code_hash v.key v.pfx v.start_vid v.used h.key_size
            h.start_small h.used_small h.path h.path_short))
  decode_vertex-encode laws pads v (inr (inl h)) =
      subst (λ x. ReadsBack u empty_code_hash (encode u empty_code_hash x) x) (sym h.shape)
        (decode_vertex-append_acc_leaf u empty_code_hash laws v.nonce h.held v.sto_id v.sto_hint
          v.code_hash v.pfx h.fields h.path h.path_short)
  decode_vertex-encode laws pads v (inr (inr h)) =
      subst (λ x. ReadsBack u empty_code_hash (encode u empty_code_hash x) x) (sym h.shape)
        (decode_vertex-append_sto_leaf u empty_code_hash pads v.sto_value v.pfx h.value_size h.path
          h.path_short)

from_rlp_of :
    (dst b : List ℕ)
    → 1 ≤ length b
    → length b ≤ 32
    → append_sto_leaf_payload_from_rlp dst (append_rlp_bytes [] b)
      ≡ (dst ++ b) ++ (mask_sto_leaf ∷ [])
unfolding append_sto_leaf_payload_from_rlp append_rlp_bytes
from_rlp_of dst [] one short = ground arith
from_rlp_of dst (x ∷ []) one short = elim (Bool-cases (ltb x 0x80)) [
  | inl e ↦ rw (e, e) refl
  | inr e ↦ rw e refl
]
from_rlp_of dst (x ∷ y ∷ b) one short = ground arith

-- For any 32-byte value: the payload made from the RLP of its bytes without leading zeros, of which at
-- least one is kept, is the payload made from the value.
append_sto_leaf_payload_from_rlp-append_rlp_bytes :
    (dst value : List ℕ)
    → length value ≡ 32
    → append_sto_leaf_payload_from_rlp dst (append_rlp_bytes [] (trim_zeros 31 value))
      ≡ append_sto_leaf_payload dst value
unfolding append_sto_leaf_payload append_sbe_bytes32
append_sto_leaf_payload_from_rlp-append_rlp_bytes dst value h =
    let kept = trim_zeros_kept 31 value in
    let short = length-trim_zeros 31 value in
    from_rlp_of dst (trim_zeros 31 value) (omega arith) (omega arith)
