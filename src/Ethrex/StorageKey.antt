-- ===== src/Ethrex/StorageKey.antt =====
-- internal/ethrex/storage_key.go and stream_builder.go: the keys of storage tries' rows, and the row
-- that is left out.
use state_actor.Prelude.{
  ℕ, ◌+◌, ◌≤◌, ◌≡◌, ◌≢◌, sym, ap, ◌∙◌, arith, ◌&&◌, List, [], ◌∷◌, ◌++◌, length, length-append,
  take, drop, drop-append, ◌==◌, if◌then◌else◌,
}
use state_actor.Bytes.{Bytes}
use state_actor.Bytes.Slices.{take_all}
use state_actor.Ethrex.Nibbles.{bytes_to_nibbles, leaf_flag, storage_separator}
use state_actor.HexPrefix.Loops.{
  spread, packed, append_nibbles-eq-spread, packed-spread, length-spread,
}

-- A hash is an array of 32 bytes, so it has 64 nibbles.
unfoldable pub storage_prefix : List ℕ → List ℕ
unfolding bytes_to_nibbles
storage_prefix addr_hash = bytes_to_nibbles addr_hash ++ (leaf_flag ∷ storage_separator ∷ [])

-- The key that `PrefixedSink` hands to its sink.
unfoldable pub prefixed_key : List ℕ → List ℕ → List ℕ
unfolding storage_prefix
prefixed_key addr_hash path_nibbles = storage_prefix addr_hash ++ path_nibbles

-- `SuppressEmptyTrieSentinel` on the rows of a trie, which reach the sink one by one.
unfoldable pub suppress_empty_trie_sentinel : List (List ℕ × List ℕ) → List (List ℕ × List ℕ)
suppress_empty_trie_sentinel [] = []
suppress_empty_trie_sentinel ((path, []) ∷ rows) = (path, []) ∷ suppress_empty_trie_sentinel rows
suppress_empty_trie_sentinel ((path, x ∷ value) ∷ rows) =
    let rest = suppress_empty_trie_sentinel rows in
    if length path == 0 && (length (x ∷ value) == 1 && x == 0x80)
    then rest
    else (path, x ∷ value) ∷ rest

nibbles_of : (h : List ℕ) → bytes_to_nibbles h ≡ spread h
unfolding bytes_to_nibbles
nibbles_of h = append_nibbles-eq-spread [] h

length-storage_prefix : (h : List ℕ) → length h ≡ 32 → length (storage_prefix h) ≡ 66
unfolding storage_prefix
length-storage_prefix h s = omega (
  arith,
  length-append (bytes_to_nibbles h) (leaf_flag ∷ storage_separator ∷ []),
  ap (length {A = ℕ}) (nibbles_of h),
  length-spread h,
)

storage_prefix_injective :
    (a b : List ℕ)
    → Bytes a
    → Bytes b
    → length a ≡ 32
    → length b ≡ 32
    → storage_prefix a ≡ storage_prefix b
    → a ≡ b
unfolding storage_prefix
storage_prefix_injective a b va vb sa sb e =
    sym (packed-spread a va)
    ∙ ap packed (sym (front a sa) ∙ ap (take 64) e ∙ front b sb)
    ∙ packed-spread b vb
  where
    front :
        (h : List ℕ)
        → length h ≡ 32
        → take 64 (bytes_to_nibbles h ++ (leaf_flag ∷ storage_separator ∷ [])) ≡ spread h
    front h s =
        take_all (bytes_to_nibbles h) (leaf_flag ∷ storage_separator ∷ []) 64
          (omega (arith, ap (length {A = ℕ}) (nibbles_of h), length-spread h))
        ∙ nibbles_of h

-- For address hashes of 32 bytes: the rows of two storage tries share a key only for the same address
-- hash and the same path, and never share one with a row of the account trie, whose path has at most
-- 64 nibbles and the leaf flag.
pub prefixed_key_injective :
    (a b p q r : List ℕ)
    → Bytes a
    → Bytes b
    → length a ≡ 32
    → length b ≡ 32
    → length r ≤ 65
    → (prefixed_key a p ≡ prefixed_key b q → (a ≡ b) × (p ≡ q)) × (prefixed_key a p ≢ r)
unfolding prefixed_key
prefixed_key_injective a b p q r va vb sa sb short =
    let size_a = length-storage_prefix a sa in
    let size_b = length-storage_prefix b sb in
    (
      λ e. (
        storage_prefix_injective a b va vb sa sb (
            sym (take_all (storage_prefix a) p 66 (sym size_a))
            ∙ ap (take 66) e
            ∙ take_all (storage_prefix b) q 66 (sym size_b)),
        sym (behind (storage_prefix a) p size_a)
            ∙ ap (drop 66) e
            ∙ behind (storage_prefix b) q size_b,
      ),
      λ e. long e (length-append (storage_prefix a) p) size_a,
    )
  where
    behind : (x p : List ℕ) → length x ≡ 66 → drop 66 (x ++ p) ≡ p
    behind x p s = ap (λ (n : ℕ). drop n (x ++ p)) (sym s) ∙ drop-append x p

    long :
        storage_prefix a ++ p ≡ r
        → length (storage_prefix a ++ p) ≡ length (storage_prefix a) + length p
        → length (storage_prefix a) ≡ 66
        → ⊥
    long e n s = omega (arith, ap (length {A = ℕ}) e)
