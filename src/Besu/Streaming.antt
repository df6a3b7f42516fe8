-- ===== src/Besu/Streaming.antt =====
-- internal/besu/trie/streaming_storage_builder.go: the right-spine builder that both streaming
-- builders wrap, with the node sink, Keccak and geth's RLP package as parameters. An error is a value
-- and a panic is another one. A stack is listed from its top.
mod Nodes
unfoldable pub use Nodes.*
pub mod Masks
pub mod Encodings
pub mod Rounds
pub mod Loop
pub mod Update
pub mod Stream
pub mod Roots
pub mod Examples
use state_actor.Bytes.{same_bytes}
use state_actor.Streamsort.Keys.{key_before}
use state_actor.Besu.Compact.{compact_encode, fill_pairs}
use state_actor.Besu.Trie.{key_path, leaf_terminator}
use state_actor.Ethrex.Nibbles.{common_prefix_len}
use mathlib.Core.List.{reverse}
use state_actor.Prelude.{
  ℕ, zero, suc, ◌+◌, ◌-◌, ◌*◌, ◌/◌, ◌%◌, ◌^◌, Bool, true, false, not, ◌&&◌, ◌||◌, Option, none,
  some, List, [], ◌∷◌, ◌++◌, length, get_elem?, take, drop, ltb, leb, ◌==◌, if◌then◌else◌, bit_and,
  bit_or,
}

-- The two methods of NodeSink that the emitters call; an error is `false`.
pub record NodeSink (S : Type 0) : Type 0 where
  pub put_account_state_trie_node : S → List ℕ → List ℕ → List ℕ → Bool × S
  pub put_account_storage_trie_node : S → List ℕ → List ℕ → List ℕ → List ℕ → Bool × S

pub data Emitter : Type 0 where
  account_trie_emitter : Emitter
  storage_trie_emitter : List ℕ → Emitter

pub data StreamError : Type 0 where
  slots_out_of_order sink_failed empty_stack : StreamError

pub record StreamingBuilder (S : Type 0) : Type 0 where
  pub sink : S
  pub em : Emitter
  pub prev_path : Option (List ℕ)
  pub prev_value : List ℕ
  pub stack : List (List ℕ)
  pub state_masks : List ℕ
  pub leaf_count : ℕ
  pub root_rlp : List ℕ

-- How a call ends: with a value, with an error, with a panic, or, in the loop, without fuel.
pub data Outcome (S A : Type 0) : Type 0 where
  finished : A → StreamingBuilder S → Outcome S A
  failed : StreamError → StreamingBuilder S → Outcome S A
  panicked out_of_fuel : Outcome S A

-- `if err := …; err != nil { return err }`
abbrev pub and_next :
    {S A B : Type 0} → Outcome S A → (A → StreamingBuilder S → Outcome S B) → Outcome S B
and_next (finished a b) next = next a b
and_next (failed e b) next = failed e b
and_next panicked next = panicked
and_next out_of_fuel next = out_of_fuel

abbrev pub or_panic : {S A B : Type 0} → Option A → (A → Outcome S B) → Outcome S B
or_panic none next = panicked
or_panic (some a) next = next a

abbrev pub is_nonempty : List ℕ → Bool
is_nonempty [] = false
is_nonempty (x ∷ path) = true

abbrev pub preceding_len : {S : Type 0} → StreamingBuilder S → ℕ
preceding_len b = length b.state_masks - 1

abbrev pub preceding_exists : {S : Type 0} → StreamingBuilder S → Bool
preceding_exists b = ltb 0 (length b.state_masks)

-- `if cpl > length { length = cpl }`
abbrev pub longer : ℕ → ℕ → ℕ
longer preceding cpl = if ltb preceding cpl then cpl else preceding

module _ (coding : Coding) where
  open coding use {keccak}

  module _ {S : Type 0} (node_sink : NodeSink S) where
    abbrev pub emit : Emitter → S → List ℕ → List ℕ → List ℕ → Bool × S
    emit account_trie_emitter s location hash rlp =
        node_sink.put_account_state_trie_node s location hash rlp
    emit (storage_trie_emitter addr_hash) s location hash rlp =
        node_sink.put_account_storage_trie_node s addr_hash location hash rlp

    abbrev pub emitted : StreamingBuilder S → Bool × S → Outcome S (Unit {0})
    emitted b (true, s) = finished tt (record b { sink = s })
    emitted b (false, s) = failed sink_failed (record b { sink = s })

    abbrev pub keep_root : StreamingBuilder S → List ℕ → List ℕ → StreamingBuilder S
    keep_root b [] rlp = record b { root_rlp = rlp }
    keep_root b (x ∷ location) rlp = b

    unfoldable pub maybe_emit : StreamingBuilder S → List ℕ → List ℕ → Outcome S (Unit {0})
    unfolding same_bytes
    maybe_emit b location rlp =
        let hash = keccak rlp in
        let b' = keep_root b location rlp in
        if not (is_referenced_by_hash rlp)
        then finished tt b
        else if same_bytes hash empty_trie_node_hash
        then finished tt b
        else emitted b' (emit b'.em b'.sink location hash rlp)

    -- A node goes to the sink and its reference on the stack.
    abbrev pub push_node :
        StreamingBuilder S → List ℕ → List ℕ → List (List ℕ) → Outcome S (Unit {0})
    push_node b location rlp below =
        and_next (maybe_emit b location rlp)
          (λ _ b'. finished tt (record b' { stack = ref_of_rlp coding rlp ∷ below }))

    unfoldable pub push_leaf : StreamingBuilder S → List ℕ → List ℕ → Outcome S (Unit {0})
    unfolding encode_leaf_rlp ref_of_rlp maybe_emit
    push_leaf b location short_node_key =
        or_panic (encode_leaf_rlp coding short_node_key b.prev_value)
          (λ rlp. push_node b location rlp b.stack)

    abbrev pub extend_top :
        StreamingBuilder S → List ℕ → List ℕ → List (List ℕ) → Outcome S (Unit {0})
    extend_top b location short_node_key [] = panicked
    extend_top b location short_node_key (top ∷ below) =
        let b' : StreamingBuilder S = record b { stack = below } in
        or_panic (encode_extension_rlp coding short_node_key top)
          (λ rlp. push_node b' location rlp below)

    -- Nothing, for an empty key.
    unfoldable pub push_extension : StreamingBuilder S → List ℕ → List ℕ → Outcome S (Unit {0})
    unfolding encode_extension_rlp ref_of_rlp maybe_emit
    push_extension b location [] = finished tt b
    push_extension b location (x ∷ path) = extend_top b location (x ∷ path) b.stack

    -- The children are the top of the stack, the last one first.
    abbrev pub seal_mask : StreamingBuilder S → List ℕ → ℕ → Outcome S (Unit {0})
    seal_mask b location state_mask =
        let child_count = popcount state_mask in
        if ltb (length b.stack) child_count
        then panicked
        else or_panic (encode_branch_rlp coding state_mask (reverse (take child_count b.stack)))
            (λ rlp. push_node b location rlp (drop child_count b.stack))

    unfoldable pub seal_branch_at : StreamingBuilder S → List ℕ → ℕ → Outcome S (Unit {0})
    unfolding encode_branch_rlp ref_of_rlp maybe_emit popcount
    seal_branch_at b current length =
        or_panic (get_elem? b.state_masks length) (seal_mask b (take length current))

    -- What follows a sealed branch; `next` is the next round, on the shortened path.
    abbrev pub shorten :
        ℕ
        → ℕ
        → List ℕ
        → (StreamingBuilder S → List ℕ → Outcome S (Unit {0}))
        → StreamingBuilder S
        → Outcome S (Unit {0})
    shorten preceding length current next b =
        let b' : StreamingBuilder S = record b {
          state_masks = strip_zeros (take length b.state_masks);
        } in
        if preceding == 0 then finished tt b' else next b' (take preceding current)

    -- The end of a round, once its leaf or extension is on the stack. `b` is the builder at the
    -- start of the round.
    abbrev pub end_round :
        StreamingBuilder S
        → List ℕ
        → List ℕ
        → ℕ
        → (StreamingBuilder S → List ℕ → Outcome S (Unit {0}))
        → StreamingBuilder S
        → Outcome S (Unit {0})
    end_round b succeeding current length next b' =
        if leb (preceding_len b) (common_prefix_len succeeding current) && is_nonempty succeeding
        then finished tt b'
        else and_next
            (if is_nonempty succeeding || preceding_exists b
              then seal_branch_at b' current length
              else finished tt b')
            (λ _ b1. shorten (preceding_len b) length current next b1)

    -- A round with the digit at which `current` leaves the spine.
    abbrev pub digit_round :
        StreamingBuilder S
        → List ℕ
        → List ℕ
        → Bool
        → ℕ
        → (StreamingBuilder S → List ℕ → Outcome S (Unit {0}))
        → ℕ
        → Outcome S (Unit {0})
    digit_round b succeeding current build_extensions at next digit =
        let len_from = if is_nonempty succeeding || preceding_exists b then at + 1 else at in
        let b' : StreamingBuilder S = record b { state_masks = set_mask b.state_masks at digit } in
        if ltb (length current) len_from
        then panicked
        else and_next
            (if build_extensions
              then push_extension b' (take len_from current) (drop len_from current)
              else push_leaf b' (take len_from current) (drop len_from current))
            (λ _ b1. end_round b succeeding current at next b1)

    unfoldable pub round :
        StreamingBuilder S
        → List ℕ
        → List ℕ
        → Bool
        → (StreamingBuilder S → List ℕ → Outcome S (Unit {0}))
        → Outcome S (Unit {0})
    unfolding push_leaf push_extension seal_branch_at set_mask strip_zeros common_prefix_len
    round b succeeding current build_extensions next =
        let at = longer (preceding_len b) (common_prefix_len succeeding current) in
        or_panic (get_elem? current at) (digit_round b succeeding current build_extensions at next)

    -- The loop, from a path and with extensions instead of a leaf after the first round.
    unfoldable pub update_loop :
        ℕ → StreamingBuilder S → List ℕ → List ℕ → Bool → Outcome S (Unit {0})
    unfolding round
    update_loop zero b succeeding current build_extensions = out_of_fuel
    update_loop (suc fuel) b succeeding current build_extensions =
        round b succeeding current build_extensions
          (λ b' shortened. update_loop fuel b' succeeding shortened true)

    -- A round for every nibble of the path suffices.
    unfoldable pub update : StreamingBuilder S → List ℕ → List ℕ → Outcome S (Unit {0})
    unfolding update_loop
    update b prev succeeding = update_loop (length prev) b succeeding prev false

    abbrev pub take_leaf : List ℕ → List ℕ → StreamingBuilder S → Outcome S (Unit {0})
    take_leaf new_path value_rlp b = finished tt (record b {
      leaf_count = b.leaf_count + 1;
      prev_path = some new_path;
      prev_value = value_rlp;
    })

    abbrev pub after_prev : StreamingBuilder S → Option (List ℕ) → List ℕ → Outcome S (Unit {0})
    after_prev b none new_path = finished tt b
    after_prev b (some prev) new_path =
        if not (key_before prev new_path)
        then failed slots_out_of_order b
        else update b prev new_path

    unfoldable pub add_leaf : StreamingBuilder S → List ℕ → List ℕ → Outcome S (Unit {0})
    unfolding update key_before key_path
    add_leaf b key_hash value_rlp =
        let new_path = key_path key_hash in
        and_next (after_prev b b.prev_path new_path) (λ _ b'. take_leaf new_path value_rlp b')

    abbrev pub collapse : StreamingBuilder S → Option (List ℕ) → Outcome S (Unit {0})
    collapse b none = finished tt b
    collapse b (some prev) =
        and_next (update b prev [])
          (λ _ b'. finished tt (record b' { prev_path = none; prev_value = [] }))

    -- The root's reference: 33 bytes behind 0xa0 are its hash.
    abbrev pub is_hash_ref : List ℕ → Bool
    is_hash_ref [] = false
    is_hash_ref (x ∷ ref) = length ref == 32 && x == 0xa0

    abbrev pub root_of : StreamingBuilder S → List (List ℕ) → Outcome S (List ℕ × List ℕ)
    root_of b [] = failed empty_stack b
    root_of b (root_ref ∷ below) =
        let root_hash = keccak root_ref in
        if is_hash_ref root_ref
        then finished (drop 1 root_ref, b.root_rlp) b
        else if same_bytes root_hash empty_trie_node_hash
        then finished (root_hash, root_ref) b
        else and_next (emitted b (emit b.em b.sink [] root_hash root_ref))
            (λ _ b'. finished (root_hash, root_ref) b')

    unfoldable pub finalize_stream : StreamingBuilder S → Outcome S (List ℕ × List ℕ)
    unfolding update same_bytes
    finalize_stream b =
        if b.leaf_count == 0
        then finished (empty_trie_node_hash, 0x80 ∷ []) b
        else and_next (collapse b b.prev_path) (λ _ b'. root_of b' b'.stack)

    unfoldable pub new_streaming_builder : S → Emitter → StreamingBuilder S
    new_streaming_builder s em = record {
      sink = s;
      em = em;
      prev_path = none;
      prev_value = [];
      stack = [];
      state_masks = [];
      leaf_count = 0;
      root_rlp = [];
    }
