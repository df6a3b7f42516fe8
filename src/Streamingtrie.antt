-- ===== src/Streamingtrie.antt =====
-- internal/streamingtrie/streamingtrie.go: the root of a storage trie through the spill store. The
-- hash builder, the sink, Keccak and geth's RLP encoder are parameters; an error of the first two is
-- `false` or `none`.
pub mod Agreement
pub mod BesuRoots
mod Examples
use state_actor.Bytes.{same_bytes}
use state_actor.Bytes.Slices.{slice}
use state_actor.Streamsort.{
  Pebble, Store, Answer, ok, fail, StoreError, yield_failed, put, new_store, iterate, close_store,
  unless_stopped,
}
use state_actor.Prelude.{
  ℕ, zero, suc, Bool, true, false, Option, none, some, List, [], ◌∷◌, ◌++◌, take, ◌==◌,
  if◌then◌else◌,
}

-- `HashBuilder`
pub record HashBuilder (H : Type 0) : Type 0 where
  pub add_leaf : H → List ℕ → List ℕ → Bool × H
  pub root : H → Option (List ℕ) × H

-- `Sink`, which may be nil: it changes what its closure holds.
abbrev pub Sink : Type 0 → Type 0
Sink K = Option (K → List ℕ → List ℕ → List ℕ → Bool × K)

pub data TrieError : Type 0 where
  root_failed : TrieError
  drain_failed iterate_failed : StoreError → TrieError
  leaf_failed : ℕ → TrieError

pub data RootResult : Type 0 where
  root_is : List ℕ → RootResult
  no_root : TrieError → RootResult

-- The errors of `addLeaf` by number.
abbrev pub sink_error : ℕ
sink_error = 0

abbrev pub add_leaf_error : ℕ
add_leaf_error = 1

abbrev pub zeros : ℕ → List ℕ
zeros zero = []
zeros (suc n) = 0 ∷ zeros n

-- `copy(h[:], b)` into a fresh hash.
unfoldable pub to_hash : List ℕ → List ℕ
to_hash b = take 32 (b ++ zeros 32)

-- The loop that drops leading zeros.
unfoldable pub trim_left : List ℕ → List ℕ
trim_left [] = []
trim_left (x ∷ b) = let rest = trim_left b in if x == 0 then rest else x ∷ b

-- `keccak` is `Keccak256Hash` and `encode` is `EncodeToBytes` of a byte slice, which does not fail.
module _ {H K : Type 0} (keccak encode : List ℕ → List ℕ) (hb : HashBuilder H) (sink : Sink K) where
  -- The call of the sink.
  abbrev pub call_sink : Sink K → K → List ℕ → List ℕ → List ℕ → Bool × K
  call_sink none k key_hash raw_key value = (true, k)
  call_sink (some f) k key_hash raw_key value = f k key_hash raw_key value

  unfoldable pub add_trie_leaf : H × K → List ℕ → List ℕ → List ℕ → Option ℕ × (H × K)
  unfolding trim_left
  add_trie_leaf (h, k) key_hash raw_key value =
      let (done, k') = call_sink sink k key_hash raw_key value in
      let (added, h') = hb.add_leaf h key_hash (encode (trim_left value)) in
      if done
      then (if added then none else some add_leaf_error, (h', k'))
      else (some sink_error, (h, k'))

  abbrev pub finished_root : K → Option (List ℕ) × H → RootResult × (H × K)
  finished_root k (none, h) = (no_root root_failed, (h, k))
  finished_root k (some r, h) = (root_is r, (h, k))

  -- `finish`
  unfoldable pub finish : H × K → RootResult × (H × K)
  finish (h, k) = finished_root k (hb.root h)

  -- The callback of `Iterate`: the combined value is the raw key and the value.
  unfoldable pub on_entry : H × K → List ℕ → List ℕ → Option ℕ × (H × K)
  unfolding to_hash add_trie_leaf
  on_entry y key_hash_b combined_b =
      add_trie_leaf y (to_hash key_hash_b) (slice combined_b 0 32) (slice combined_b 32 64)

  -- A sorted source, up to the first error.
  unfoldable pub sorted_loop : List (List ℕ × List ℕ × List ℕ) → H × K → Option ℕ × (H × K)
  unfolding add_trie_leaf
  sorted_loop [] y = (none, y)
  sorted_loop ((key_hash, raw_key, value) ∷ entries) y =
      let (e, y') = add_trie_leaf y key_hash raw_key value in
      let rest = sorted_loop entries y' in unless_stopped (λ x. (some x, y')) rest e

  abbrev pub root_unless : Option ℕ × (H × K) → RootResult × (H × K)
  root_unless (none, y) = finish y
  root_unless (some e, y) = (no_root (leaf_failed e), y)

  unfoldable pub sorted_root : List (List ℕ × List ℕ × List ℕ) → H × K → RootResult × (H × K)
  unfolding sorted_loop finish
  sorted_root entries y = root_unless (sorted_loop entries y)

  module _ {B D I : Type 0} (pebble : Pebble B D I) where
    abbrev pub after_put :
        Answer (Unit {0})
        → Store B D
        → Option StoreError × Store B D
        → Option StoreError × Store B D
    after_put (ok u) s rest = rest
    after_put (fail e) s rest = (some e, s)

    -- `Drain`, over the slots as they come; zero values are skipped.
    unfoldable pub drain : Store B D → List (List ℕ × List ℕ) → Option StoreError × Store B D
    unfolding put same_bytes
    drain s [] = (none, s)
    drain s ((k, v) ∷ slots) =
        let (a, s') =
          if same_bytes v (zeros 32) then (ok tt, s) else put pebble s (keccak k) (k ++ v) in
        let rest = drain s' slots in after_put a s' rest

    -- The error of `Iterate` is that of its callback, or its own.
    abbrev pub iterate_error : StoreError → TrieError
    iterate_error (yield_failed e) = leaf_failed e
    iterate_error e = iterate_failed e

    abbrev pub root_after : Option (Answer (Unit {0}) × (H × K)) → Option (RootResult × (H × K))
    root_after none = none
    root_after (some (ok u, y)) = some (finish y)
    root_after (some (fail e, y)) = some (no_root (iterate_error e), y)

    -- With fuel for the entries of the store; `none` when it does not suffice.
    unfoldable pub iterate_root : ℕ → Store B D → H × K → Option (RootResult × (H × K)) × Store B D
    unfolding iterate on_entry finish
    iterate_root fuel s y = let (r, s') = iterate pebble on_entry fuel s y in (root_after r, s')

    abbrev pub after_drain :
        ℕ → H × K → Option StoreError × Store B D → Option (RootResult × (H × K)) × Store B D
    after_drain fuel y (some e, s) = (some (no_root (drain_failed e), y), s)
    after_drain fuel y (none, s) = iterate_root fuel s y

    -- `StorageRoot` on a new store, and how the store's `Close` ends.
    unfoldable pub storage_root :
        ℕ
        → D
        → List (List ℕ × List ℕ)
        → H × K
        → Option (RootResult × (H × K)) × Option (Answer (Unit {0}) × Store B D)
    unfolding drain iterate_root close_store new_store
    storage_root fuel d slots y =
        let (r, s) = after_drain fuel y (drain (new_store pebble d) slots) in
        (r, close_store pebble s)
