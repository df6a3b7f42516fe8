-- ===== src/Besu/Streaming/Roots.antt =====
-- What the streaming builders promise their callers.
use mathlib.Core.Path.{subst}
use mathlib.Core.Bool.{true≢false}
use state_actor.Bytes.{Bytes, high, low-eq-mod}
use state_actor.HexPrefix.Loops.{spread}
use state_actor.Besu.Trie.{key_path, leaf_terminator}
use state_actor.Besu.Trie.Keys.{IsHash, key_path-eq}
use state_actor.Streamsort.Keys.{Entry, key_before, Ascending, IsAfter}
use state_actor.Besu.Streaming.{
  Coding, NodeSink, StreamError, slots_out_of_order, sink_failed, empty_stack, StreamingBuilder,
  Emitter, Outcome, finished, failed, panicked, out_of_fuel, emit, new_streaming_builder,
}
use state_actor.Besu.Streaming.Rounds.{Safe, SinkAllowed}
use state_actor.Besu.Streaming.Stream.{
  stream, InOrder, HashKeys, Anything, stream-Safe, new_streaming_builder-IsGrowing,
}
use state_actor.Prelude.{
  ℕ, ◌≡◌, ◌≢◌, refl, ap, sym, ◌∙◌, arith, Bool, true, false, none, some, List, [], ◌∷◌, ◌++◌,
  length, inl, inr, All,
}

-- Nibbles keep the order of bytes.
spread_before :
    (a b t : List ℕ)
    → length a ≡ length b
    → Bytes a
    → Bytes b
    → key_before a b ≡ true
    → key_before (spread a ++ t) (spread b ++ t) ≡ true
unfolding key_before spread high
spread_before [] [] t l va vb h = absurd (true≢false (sym h))
spread_before [] (y ∷ b) t l va vb h = absurd (omega arith)
spread_before (x ∷ a) [] t l va vb h = absurd (omega arith)
spread_before (x ∷ a) (y ∷ b) t l va vb h =
    ground (arith, low-eq-mod x, low-eq-mod y, spread_before a b t)

abbrev pub AllHashes : List Entry → Type 0
AllHashes = All (λ (e : Entry). IsHash e.0)

key_path_before :
    (a b : List ℕ)
    → IsHash a
    → IsHash b
    → key_before a b ≡ true
    → key_before (key_path a) (key_path b) ≡ true
key_path_before a b ha hb h =
    rw (key_path-eq a, key_path-eq b)
      (spread_before a b (leaf_terminator ∷ []) (ha.0 ∙ sym hb.0) ha.1 hb.1 h)

InOrder-Ascending :
    (k v : List ℕ) (leaves : List Entry)
    → IsHash k
    → AllHashes leaves
    → All (IsAfter k) leaves
    → Ascending leaves
    → InOrder (some (key_path k)) leaves
unfolding InOrder
InOrder-Ascending k v [] h hs after up = tt
InOrder-Ascending k v ((k', v') ∷ leaves) h hs after up =
    (key_path_before k k' h hs.0 after.0, InOrder-Ascending k' v' leaves hs.0 hs.1 up.0 up.1)

first_InOrder : (leaves : List Entry) → AllHashes leaves → Ascending leaves → InOrder none leaves
unfolding InOrder
first_InOrder [] hs up = tt
first_InOrder ((k, v) ∷ leaves) hs up = InOrder-Ascending k v leaves hs.0 hs.1 up.0 up.1

keys_of : (leaves : List Entry) → AllHashes leaves → HashKeys leaves
keys_of [] h = tt
keys_of (e ∷ leaves) h = (h.0.0, keys_of leaves h.1)

abbrev is_empty_stack : StreamError → Bool
is_empty_stack empty_stack = true
is_empty_stack _ = false

not_empty_stack : (e : StreamError) → is_empty_stack e ≡ false → e ≢ empty_stack
not_empty_stack e h k = true≢false (sym (ap is_empty_stack k) ∙ h)

finished_of :
    {S A : Type 0} (o : Outcome S A)
    → Safe (λ e. ⊥) (λ a b. Unit {0}) o
    → (a : A) × (b : StreamingBuilder S) × (o ≡ finished a b)
finished_of (finished a b) h = (a, b, refl)
finished_of (failed e b) h = elim h [ ]
finished_of panicked h = elim h [ ]
finished_of out_of_fuel h = elim h [ ]

module _ (coding : Coding) {S : Type 0} (node_sink : NodeSink S) where
  -- For any coding, any sink and any leaves with keys of 32 bytes, in whatever order: the leaves and
  -- the root end without a panic, within the fuel, and never with the error of a violated invariant.
  pub stream_never_breaks :
      (s : S) (em : Emitter) (leaves : List Entry)
      → HashKeys leaves
      → let o = stream coding node_sink (new_streaming_builder coding node_sink s em) leaves in
        (o ≢ panicked) × (o ≢ out_of_fuel) × ((b : StreamingBuilder S) → o ≢ failed empty_stack b)
  stream_never_breaks s em leaves h =
      let allowed : StreamError → Type 0 = λ e. e ≢ empty_stack in
      let sink_allowed : SinkAllowed coding node_sink allowed =
        λ em s location hash rlp. inr (not_empty_stack sink_failed refl) in
      let b = new_streaming_builder coding node_sink s em in
      let safe =
        stream-Safe coding node_sink allowed sink_allowed b leaves
          (new_streaming_builder-IsGrowing coding node_sink allowed sink_allowed s em) h
          (inr (not_empty_stack slots_out_of_order refl)) in
      let Q = λ (o : Outcome S (List ℕ × List ℕ)).
        Safe allowed (Anything coding node_sink allowed sink_allowed) o in
      (λ e. subst Q e safe, λ e. subst Q e safe, λ b' e. subst Q e safe refl)

  -- For a sink that does not fail, and leaves whose 32-byte keys ascend strictly, which is the order
  -- of the spill store: every leaf is taken and there is a root.
  pub stream_has_root :
      (s : S) (em : Emitter) (leaves : List Entry)
      → ((em : Emitter) (s : S) (location hash rlp : List ℕ)
          → (emit coding node_sink em s location hash rlp).0 ≡ true)
      → AllHashes leaves
      → Ascending leaves
      → (root : List ℕ × List ℕ) × (b : StreamingBuilder S) × (stream coding node_sink
            (new_streaming_builder coding node_sink s em)
            leaves
          ≡ finished root b)
  unfolding new_streaming_builder
  stream_has_root s em leaves reliable h up =
      let allowed : StreamError → Type 0 = λ e. ⊥ in
      let sink_allowed : SinkAllowed coding node_sink allowed =
        λ em s location hash rlp. inl (reliable em s location hash rlp) in
      let b = new_streaming_builder coding node_sink s em in
      finished_of (stream coding node_sink b leaves) (
        stream-Safe coding node_sink allowed sink_allowed b leaves
          (new_streaming_builder-IsGrowing coding node_sink allowed sink_allowed s em)
          (keys_of leaves h) (inl (first_InOrder leaves h up)))
