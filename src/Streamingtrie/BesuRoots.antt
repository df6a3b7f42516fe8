-- ===== src/Streamingtrie/BesuRoots.antt =====
-- The three together: slots drained into the spill store, and their root by Besu's streaming builder.
use mathlib.Core.Bool.{false≢true}
use state_actor.Besu.Trie.Keys.{IsHash}
use state_actor.Besu.Streaming.{
  Coding, NodeSink, StreamingBuilder, Outcome, finished, failed, panicked, out_of_fuel, and_next,
  add_leaf, finalize_stream,
}
use state_actor.Besu.Streaming.Stream.{stream}
use state_actor.Streamsort.{unless_stopped}
use state_actor.Streamsort.Keys.{Entry}
use state_actor.Streamingtrie.{
  HashBuilder, Sink, RootResult, root_is, no_root, leaf_failed, sink_error, add_leaf_error,
  trim_left, call_sink, add_trie_leaf, finish, finished_root, sorted_loop, root_unless, sorted_root,
}
use state_actor.Prelude.{
  ℕ, ◌≡◌, ◌⊎◌, refl, ap, sym, Bool, true, false, Option, none, some, List, [], ◌∷◌, inl, inr,
  if◌then◌else◌,
}

abbrev is_finished : {S A : Type 0} → Outcome S A → Bool
is_finished (finished a b) = true
is_finished _ = false

abbrev root_result :
    {S : Type 0} → Outcome S (List ℕ × List ℕ) → Option (List ℕ) × Outcome S (Unit {0})
root_result (finished r b) = (some r.0, finished tt b)
root_result (failed e b) = (none, failed e b)
root_result panicked = (none, panicked)
root_result out_of_fuel = (none, out_of_fuel)

-- The methods AddLeaf and Root of a streaming builder, or of what it ended in.
unfoldable pub besu_builder :
    {S : Type 0} → Coding → NodeSink S → HashBuilder (Outcome S (Unit {0}))
unfolding add_leaf finalize_stream
besu_builder coding node_sink = record {
  add_leaf =
      λ o k v. let r = and_next o (λ _ b. add_leaf coding node_sink b k v) in (is_finished r, r);
  root = λ o. root_result (and_next o (λ _ b. finalize_stream coding node_sink b));
}

-- The leaves that a sorted source feeds to its builder.
abbrev pub leaves_of : (List ℕ → List ℕ) → List (List ℕ × List ℕ × List ℕ) → List Entry
leaves_of encode [] = []
leaves_of encode ((key_hash, raw_key, value) ∷ entries) =
    (key_hash, encode (trim_left value)) ∷ leaves_of encode entries

-- Some call of the sink fails.
abbrev pub Refuses : {K : Type 0} → Sink K → Type 0
Refuses {K} none = ⊥
Refuses {K} (some f) =
    (k : K) × (key_hash : List ℕ) × (raw_key : List ℕ) × (value : List ℕ) × ((f k key_hash raw_key
        value).0
      ≡ false)

-- A root, or the error of the sink.
abbrev pub IsRootOrRefused : {K : Type 0} → Sink K → RootResult → Type 0
IsRootOrRefused sink r =
    ((root : List ℕ) × (r ≡ root_is root)) ⊎ ((r ≡ no_root (leaf_failed sink_error)) × Refuses sink)

module _ {S K : Type 0} (keccak encode : List ℕ → List ℕ) (coding : Coding) (node_sink : NodeSink S)
    (sink : Sink K) where
  abbrev builder : HashBuilder (Outcome S (Unit {0}))
  builder = besu_builder coding node_sink

  -- What `add_trie_leaf` returns, from the call of the sink and the builder's result.
  abbrev leaf_result :
      Outcome S (Unit {0}) → Bool × K → Outcome S (Unit {0}) → Option ℕ × (Outcome S (Unit {0}) × K)
  leaf_result h (done, k') o =
      if done
      then (if is_finished o then none else some add_leaf_error, (o, k'))
      else (some sink_error, (h, k'))

  -- One leaf of the loop, whatever its outcome.
  loop_step :
      (entries : List (List ℕ × List ℕ × List ℕ)) (h o : Outcome S (Unit {0}))
      (b' : StreamingBuilder S) (root : List ℕ × List ℕ) (c : Bool × K)
      → and_next o (λ _ b. stream coding node_sink b (leaves_of encode entries)) ≡ finished root b'
      → (c.0 ≡ false → Refuses sink)
      → ((b : StreamingBuilder S) (k : K)
          → stream coding node_sink b (leaves_of encode entries) ≡ finished root b'
          → IsRootOrRefused sink
              (root_unless keccak encode builder sink
                (sorted_loop keccak encode builder sink entries (finished tt b, k))).0)
      → IsRootOrRefused sink
          (root_unless keccak encode builder sink (
            let (e, y') = leaf_result h c o in
            unless_stopped
              (λ x. (some x, y'))
              (sorted_loop keccak encode builder sink entries y')
              e)).0
  loop_step entries h (finished u b) b' root (true, k) e refused rest = rest b k e
  loop_step entries h (finished u b) b' root (false, k) e refused rest = inr (refl, refused refl)
  loop_step entries h (failed x b) b' root c e refused rest = absurd (false≢true (ap is_finished e))
  loop_step entries h panicked b' root c e refused rest = absurd (false≢true (ap is_finished e))
  loop_step entries h out_of_fuel b' root c e refused rest = absurd (false≢true (ap is_finished e))

  refusing :
      (k : K) (key_hash raw_key value : List ℕ)
      → (call_sink keccak encode builder sink sink k key_hash raw_key value).0 ≡ false
      → Refuses sink
  refusing k key_hash raw_key value e = refusing_of sink k key_hash raw_key value e
    where
      refusing_of :
          (f : Sink K) (k : K) (key_hash raw_key value : List ℕ)
          → (call_sink keccak encode builder sink f k key_hash raw_key value).0 ≡ false
          → Refuses f
      refusing_of none k key_hash raw_key value e = false≢true (sym e)
      refusing_of (some f) k key_hash raw_key value e = (k, key_hash, raw_key, value, e)

  root_found :
      (k : K) (o : Outcome S (List ℕ × List ℕ)) (root : List ℕ × List ℕ) (b' : StreamingBuilder S)
      → o ≡ finished root b'
      → IsRootOrRefused sink (finished_root keccak encode builder sink k (root_result o)).0
  root_found k o root b' e = inl (
    root.0,
    ap
        (λ (o : Outcome S (List ℕ × List ℕ)).
          (finished_root keccak encode builder sink k (root_result o)).0)
        e,
  )

  pub sorted_root-stream :
      (entries : List (List ℕ × List ℕ × List ℕ)) (b b' : StreamingBuilder S) (k : K)
      (root : List ℕ × List ℕ)
      → stream coding node_sink b (leaves_of encode entries) ≡ finished root b'
      → IsRootOrRefused sink (sorted_root keccak encode builder sink entries (finished tt b, k)).0
  unfolding stream sorted_root sorted_loop finish besu_builder add_trie_leaf
  sorted_root-stream [] b b' k root h = root_found k _ root b' h
  sorted_root-stream ((key_hash, raw_key, value) ∷ entries) b b' k root h =
      loop_step entries (finished tt b)
        (add_leaf coding node_sink b key_hash (encode (trim_left value))) b' root
        (call_sink keccak encode builder sink sink k key_hash raw_key value) h
        (refusing k key_hash raw_key value)
        (λ b1 k1 h1. sorted_root-stream entries b1 b' k1 root h1)

-- The rows of the store have the hashes of the keys.
abbrev HashRow : Entry → Type 0
HashRow e = IsHash e.0
