-- ===== src/Reth/BranchNode/RoundTrip.antt =====
-- A branch node is read back.
use state_actor.Prelude.{
  ℕ, suc, ◌+◌, ◌-◌, ◌*◌, ◌/◌, ◌%◌, ◌^◌, ◌<◌, ◌≡◌, refl, sym, ap, ◌∙◌, arith, true, false, Option,
  none, some, List, [], ◌∷◌, ◌++◌, append_assoc, length, length-append, drop, drop-append, All, ltb,
  ◌==◌, ==_refl, bit_or,
}
use state_actor.Prelude.Bits.{bit_or_disjoint}
use state_actor.Bytes.Slices.{take_all}
use state_actor.Reth.BranchNode.{
  BranchNodeCompact, popcount16, be_u16, and_not, append_root, append_hashes, encode_compact,
  read_hash, read_hashes, decode_hashes, decode_compact,
}

abbrev pub IsHash : List ℕ → Type 0
IsHash h = length h ≡ 32

abbrev pub IsRoot : Option (List ℕ) → Type 0
IsRoot none = Unit
IsRoot (some h) = IsHash h

-- What the encoder does not panic on: as many hashes as bits of their mask, and masks within the
-- state's.
pub record IsBranchNode (n : BranchNodeCompact) : Type 0 where
  pub state_small : n.state_mask < 2 ^ 16
  pub tree_small : n.tree_mask < 2 ^ 16
  pub hash_small : n.hash_mask < 2 ^ 16
  pub count : popcount16 n.hash_mask ≡ length n.hashes
  pub tree_subset : and_not n.tree_mask n.state_mask ≡ 0
  pub hash_subset : and_not n.hash_mask n.state_mask ≡ 0
  pub hashes_sized : All IsHash n.hashes
  pub root_sized : IsRoot n.root_hash

read_hash-append : (h rest : List ℕ) → IsHash h → read_hash (h ++ rest) ≡ some (h, rest)
read_hash-append h rest s =
    let fits : ltb (length (h ++ rest)) 32 ≡ false = room h rest s in
    let front = take_all h rest 32 (sym s) in
    let back : drop 32 (h ++ rest) ≡ rest =
      ap (λ (n : ℕ). drop n (h ++ rest)) (sym s) ∙ drop-append h rest in
    rw (fits, front, back) refl
  where
    room : (h rest : List ℕ) → IsHash h → ltb (length (h ++ rest)) 32 ≡ false
    room h rest s = ground (arith, length-append h rest)

read_hashes-append :
    (hs : List (List ℕ)) (rest : List ℕ)
    → All IsHash hs
    → read_hashes (length hs) (append_hashes hs ++ rest) ≡ some hs
unfolding read_hashes
read_hashes-append [] rest s = refl
read_hashes-append (h ∷ hs) rest s =
    rw
      (
        append_assoc h (append_hashes hs) rest,
        read_hash-append h (append_hashes hs ++ rest) s.0,
        read_hashes-append hs rest s.1,
      )
      refl

length-append_hashes :
    (hs : List (List ℕ)) → All IsHash hs → length (append_hashes hs) ≡ 32 * length hs
length-append_hashes [] s = refl
length-append_hashes (h ∷ hs) s =
    omega (arith, length-append h (append_hashes hs), length-append_hashes hs s.1, s.0)

be_u16-read : (v : ℕ) → v < 2 ^ 16 → bit_or (v / 2 ^ 8 % 256 * 2 ^ 8) (v % 256) ≡ v
be_u16-read v h = omega (arith, bit_or_disjoint 8 (v / 2 ^ 8 % 256) (v % 256) (omega arith))

-- The hashes, with or without a root before them.
decode_hashes-append :
    (s t h : ℕ) (r : Option (List ℕ)) (hs : List (List ℕ)) (rest : List ℕ) (num total_len : ℕ)
    → popcount16 h ≡ length hs
    → All IsHash hs
    → IsRoot r
    → 32 * num ≡ length (append_root r ++ append_hashes hs)
    → decode_hashes (s, t, h) ((append_root r ++ append_hashes hs) ++ rest) num total_len
      ≡ some (
        record { state_mask = s; tree_mask = t; hash_mask = h; hashes = hs; root_hash = r },
        total_len,
      )
unfolding decode_hashes
decode_hashes-append s t h none hs rest num total_len c sized root size =
    let same : num ≡ length hs = omega (arith, length-append_hashes hs sized) in
    let no_root : (length hs == length hs + 1) ≡ false = different (length hs) in
    rw (c, same, no_root, ==_refl (length hs), read_hashes-append hs rest sized) refl
  where
    different : (n : ℕ) → (n == n + 1) ≡ false
    different n = ground arith
decode_hashes-append s t h (some r) hs rest num total_len c sized root size =
    let same : num ≡ length hs + 1 =
      omega (arith, length-append_hashes hs sized, length-append r (append_hashes hs)) in
    rw
      (
        c,
        same,
        ==_refl (length hs + 1),
        append_assoc r (append_hashes hs) rest,
        read_hash-append r (append_hashes hs ++ rest) root,
        read_hashes-append hs rest sized,
      )
      refl

-- The bytes behind the masks are a whole number of hashes.
tail_size :
    (r : Option (List ℕ)) (hs : List (List ℕ))
    → IsRoot r
    → All IsHash hs
    → (q : ℕ) × (length (append_root r ++ append_hashes hs) ≡ 32 * q)
tail_size none hs root sized = (length hs, length-append_hashes hs sized)
tail_size (some r) hs root sized = (
  length hs + 1,
  omega (arith, length-append r (append_hashes hs), length-append_hashes hs sized),
)

behind_masks :
    (size q : ℕ)
    → size ≡ 32 * q
    → let total = suc (suc (suc (suc (suc (suc size))))) in
      (ltb total 6 ≡ false) × ((((total - 6) % 32 == 0) ≡ true) × (32 * ((total - 6) / 32) ≡ size))
behind_masks size q h =
    let total = suc (suc (suc (suc (suc (suc size))))) in
    let whole : (total - 6) % 32 ≡ 0 = omega arith in (not_short size, (rw whole refl, omega arith))
  where
    not_short : (n : ℕ) → ltb (suc (suc (suc (suc (suc (suc n)))))) 6 ≡ false
    not_short n = ground arith

-- For a branch node that has as many hashes as bits in their mask, masks of 16 bits within the state
-- mask, and hashes of 32 bytes: EncodeCompact does not panic, and DecodeCompact, given the number of
-- bytes that it returns, reads the node back, whatever follows, and the same number of bytes.
pub decode_compact-encode_compact :
    (n : BranchNodeCompact) (rest : List ℕ)
    → IsBranchNode n
    → (b : List ℕ) × (encode_compact [] n ≡ some (b, length b))
      × (decode_compact (b ++ rest) (length b) ≡ some (n, length b))
unfolding encode_compact decode_compact
decode_compact-encode_compact n rest ok =
    let tail = append_root n.root_hash ++ append_hashes n.hashes in
    let b = be_u16 n.state_mask ++ (be_u16 n.tree_mask ++ (be_u16 n.hash_mask ++ tail)) in
    let counted : (popcount16 n.hash_mask == length n.hashes) ≡ true =
      rw ok.count (==_refl (length n.hashes)) in
    (
      b,
      rw (counted, ok.tree_subset, ok.hash_subset) refl,
      (let (q, size) = tail_size n.root_hash n.hashes ok.root_sized ok.hashes_sized in
          let total = suc (suc (suc (suc (suc (suc (length tail)))))) in
          let (long, (whole, num)) = behind_masks (length tail) q size in
          rw
            (
              long,
              whole,
              be_u16-read n.state_mask ok.state_small,
              be_u16-read n.tree_mask ok.tree_small,
              be_u16-read n.hash_mask ok.hash_small,
            )
            (decode_hashes-append n.state_mask n.tree_mask n.hash_mask n.root_hash n.hashes rest
              ((total - 6) / 32) total ok.count ok.hashes_sized ok.root_sized num)),
    )
