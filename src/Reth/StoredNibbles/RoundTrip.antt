-- ===== src/Reth/StoredNibbles/RoundTrip.antt =====
-- What is read back from the keys and from the entry of a storage trie.
use mathlib.Core.Path.{subst}
use state_actor.Prelude.{
  ℕ, zero, suc, ◌+◌, ◌*◌, ◌%◌, ◌≤◌, ◌<◌, ◌≡◌, refl, sym, ap, ◌∙◌, arith, Bool, true, false, not,
  Option, none, some, List, [], ◌∷◌, ◌++◌, append-nil, length, length-append, take, get_elem?, ltb,
  if◌then◌else◌,
}
use state_actor.Bytes.{high, Nibbles, high-join, low-join}
use state_actor.Bytes.Slices.{take_all}
use state_actor.HexPrefix.Loops.{spread}
use state_actor.Reth.BranchNode.{BranchNodeCompact, encode_compact, decode_compact}
use state_actor.Reth.BranchNode.RoundTrip.{IsBranchNode, decode_compact-encode_compact}
use state_actor.Reth.StoredNibbles.{
  StoredNibbles, StorageTrieEntry, encode_key, decode_key, pack_nibbles, zero_padded, packed_key,
  encode_packed_account_key, encode_packed_compact,
}

-- At most 64 nibbles count, and the array has 64 bytes.
pub record IsStored (s : StoredNibbles) : Type 0 where
  pub count : s.nibble_count ≤ 64
  pub sized : length s.nibbles ≡ 64
  pub counted : Nibbles (take s.nibble_count s.nibbles)

get_elem?-length :
    (b : List ℕ) (x : ℕ) (n : ℕ) → length b ≡ n → get_elem? (b ++ (x ∷ [])) n ≡ some x
get_elem?-length [] x zero h = refl
get_elem?-length [] x (suc n) h = absurd (omega arith)
get_elem?-length (y ∷ b) x zero h = absurd (omega arith)
get_elem?-length (y ∷ b) x (suc n) h = get_elem?-length b x n (omega arith)

-- The array of bytes that the nibbles are packed into.
length-zero_padded :
    (k : ℕ) (ns : List ℕ) → length ns ≤ k + k → length (zero_padded k (pack_nibbles ns)) ≡ k
unfolding zero_padded pack_nibbles
length-zero_padded zero [] h = refl
length-zero_padded zero (a ∷ ns) h = absurd (omega arith)
length-zero_padded (suc k) [] h = omega (arith, length-zero_padded k [] (omega arith))
length-zero_padded (suc k) (a ∷ []) h = omega (arith, length-zero_padded k [] (omega arith))
length-zero_padded (suc k) (a ∷ b ∷ ns) h = omega (arith, length-zero_padded k ns (omega arith))

high-shifted : (a : ℕ) → a < 16 → high (a * 16 % 256) ≡ a
unfolding high
high-shifted a l = omega arith

-- Their nibbles begin with those that were packed.
spread-zero_padded :
    (k : ℕ) (ns : List ℕ)
    → length ns ≤ k + k
    → Nibbles ns
    → take (length ns) (spread (zero_padded k (pack_nibbles ns))) ≡ ns
unfolding zero_padded pack_nibbles spread
spread-zero_padded k [] h v = refl
spread-zero_padded zero (a ∷ ns) h v = absurd (omega arith)
spread-zero_padded (suc k) (a ∷ []) h v = ap (λ x. x ∷ []) (high-shifted a v.0)
spread-zero_padded (suc k) (a ∷ b ∷ ns) h v =
    cc
      (high-join a b v.0 v.1.0, low-join a b v.0 v.1.0, spread-zero_padded k ns (omega arith) v.1.1)

length-take_le : (n : ℕ) (b : List ℕ) → n ≤ length b → length (take n b) ≡ n
length-take_le zero b h = refl
length-take_le (suc n) [] h = absurd (omega arith)
length-take_le (suc n) (x ∷ b) h = omega (arith, length-take_le n b (omega arith))

-- What a packed key tells.
pub record Unpacks (s : StoredNibbles) (key : List ℕ) : Type 0 where
  pub size : length key ≡ 33
  pub last : get_elem? key 32 ≡ some s.nibble_count
  pub front : take s.nibble_count (spread (take 32 key)) ≡ take s.nibble_count s.nibbles

packed_key-Unpacks : (s : StoredNibbles) → IsStored s → Unpacks s (packed_key s)
packed_key-Unpacks s ok =
    let ns = take s.nibble_count s.nibbles in
    let array = zero_padded 32 (pack_nibbles ns) in
    let count : length ns ≡ s.nibble_count =
      length-take_le s.nibble_count s.nibbles (omega (arith, ok.count, ok.sized)) in
    let size : length array ≡ 32 = length-zero_padded 32 ns (omega (arith, ok.count)) in
    record {
      size = omega (arith, length-append array (s.nibble_count ∷ []));
      last = get_elem?-length array s.nibble_count 32 size;
      front =
          ap (λ l. take s.nibble_count (spread l))
            (take_all array (s.nibble_count ∷ []) 32 (sym size))
          ∙ ap (λ n. take n (spread array)) (sym count)
          ∙ spread-zero_padded 32 ns (omega (arith, ok.count)) ok.counted;
    }

decode_key-encode_key :
    (s : StoredNibbles) → length s.nibbles ≡ 64 → decode_key (encode_key [] s) ≡ some s
unfolding decode_key encode_key
decode_key-encode_key s h =
    rw
      (
        long (length (s.nibbles ++ (s.nibble_count ∷ [])))
            (length-append s.nibbles (s.nibble_count ∷ [])),
        get_elem?-length s.nibbles s.nibble_count 64 h,
        take_all s.nibbles (s.nibble_count ∷ []) 64 (sym h),
      )
      refl
  where
    long : (n : ℕ) → n ≡ length s.nibbles + 1 → ltb n 65 ≡ false
    long n e = ground (arith, h)

abbrev when_accepted : Bool → Bool → List ℕ → ℕ → Option (List ℕ × ℕ)
when_accepted c g w l = if not c then none else if g then none else some (w, l)

guarded :
    (c g : Bool) (buf w b : List ℕ) (l count : ℕ)
    → when_accepted c g w l ≡ some (b, count)
    → when_accepted c g (buf ++ w) l ≡ some (buf ++ b, count)
guarded true false buf w b l count e = cc
guarded true true buf w b l count e = cc
guarded false g buf w b l count e = cc

-- A buffer only goes before what is written.
encode_compact_buffered :
    (buf b : List ℕ) (n : BranchNodeCompact) (count : ℕ)
    → encode_compact [] n ≡ some (b, count)
    → encode_compact buf n ≡ some (buf ++ b, count)
unfolding encode_compact
encode_compact_buffered buf b n count e = guarded _ _ buf _ b _ count e

-- For an entry whose key has at most 64 nibbles in an array of 64 bytes and whose node is one that
-- EncodeCompact accepts: neither encoder panics, the value is the packed key and then the node, and
-- the number of its bytes is returned. The key has 33 bytes, of which the last is the number of
-- nibbles and the others begin with these nibbles, two in a byte, and DecodeCompact reads the node
-- back from the bytes behind the key.
pub decode_compact-encode_packed_compact :
    (e : StorageTrieEntry)
    → IsStored e.sub_key
    → IsBranchNode e.node
    → (key : List ℕ) × (b : List ℕ) × (encode_packed_account_key [] e.sub_key ≡ some key)
      × Unpacks e.sub_key key
      × (encode_packed_compact [] e ≡ some (key ++ b, length (key ++ b)))
      × (decode_compact b (length b) ≡ some (e.node, length b))
unfolding encode_packed_account_key encode_packed_compact
decode_compact-encode_packed_compact e stored ok =
    let key = packed_key e.sub_key in
    let unpacks = packed_key-Unpacks e.sub_key stored in
    let (b, written, read) = decode_compact-encode_compact e.node [] ok in
    let fits = short e.sub_key.nibble_count stored.count in
    (
      key,
      b,
      rw fits refl,
      unpacks,
      rw (fits, encode_compact_buffered key b e.node (length b) written)
          (ap (λ n. some (key ++ b, n)) (omega (arith, length-append key b, unpacks.size))),
      subst (λ l. decode_compact l (length b) ≡ some (e.node, length b)) (append-nil b) read,
    )
  where
    short : (n : ℕ) → n ≤ 64 → ltb 64 n ≡ false
    short n h = ground arith
