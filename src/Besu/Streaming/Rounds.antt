-- ===== src/Besu/Streaming/Rounds.antt =====
-- The rounds of the loop: no panic, and what they leave on the spine.
use mathlib.Core.Option.{some-ne-none}
use mathlib.Core.Logic.{◌⊎◌}
use mathlib.Core.Bool.{false≢true}
use state_actor.Bytes.{same_bytes}
use state_actor.Besu.Streaming.{
  Coding, NodeSink, StreamError, sink_failed, StreamingBuilder, Emitter, Outcome, finished, failed,
  panicked, out_of_fuel, and_next, or_panic, is_referenced_by_hash, empty_trie_node_hash,
  encode_leaf_rlp, encode_extension_rlp, ref_of_rlp, emit, emitted, keep_root, maybe_emit,
  push_node, push_leaf, push_extension, extend_top,
}
use state_actor.Besu.Streaming.Encodings.{
  IsSome, encode_leaf_rlp-IsSome, encode_extension_rlp-IsSome,
}
use state_actor.Prelude.{
  ℕ, suc, ◌≤◌, ◌≡◌, refl, sym, arith, Bool, true, false, not, Option, none, some, List, [], ◌∷◌,
  length, inl, inr, if◌then◌else◌,
}

-- An outcome is no panic and no lack of fuel; its error is allowed, and otherwise `P` holds of its
-- value and the builder.
abbrev pub Safe :
    {S A : Type 0}
    → (StreamError → Type 0)
    → (A → StreamingBuilder S → Type 0)
    → Outcome S A
    → Type 0
Safe allowed P (finished a b) = P a b
Safe allowed P (failed e b) = allowed e
Safe allowed P panicked = ⊥
Safe allowed P out_of_fuel = ⊥

module _ {S : Type 0} (allowed : StreamError → Type 0) where
  pub Safe-and_next :
      {A B : Type 0} (P : A → StreamingBuilder S → Type 0) (Q : B → StreamingBuilder S → Type 0)
      (o : Outcome S A) (next : A → StreamingBuilder S → Outcome S B)
      → Safe allowed P o
      → ((a : A) (b : StreamingBuilder S) → P a b → Safe allowed Q (next a b))
      → Safe allowed Q (and_next o next)
  Safe-and_next P Q (finished a b) next h k = k a b h
  Safe-and_next P Q (failed e b) next h k = h
  Safe-and_next P Q panicked next h k = h
  Safe-and_next P Q out_of_fuel next h k = h

  pub Safe-or_panic :
      {A B : Type 0} (Q : B → StreamingBuilder S → Type 0) (o : Option A) (next : A → Outcome S B)
      → IsSome o
      → ((a : A) → o ≡ some a → Safe allowed Q (next a))
      → Safe allowed Q (or_panic o next)
  Safe-or_panic Q none next h k = absurd (some-ne-none h.0 (sym h.1))
  Safe-or_panic Q (some a) next h k = k a refl

  pub Safe-weaken :
      {A : Type 0} (P Q : A → StreamingBuilder S → Type 0) (o : Outcome S A)
      → Safe allowed P o
      → ((a : A) (b : StreamingBuilder S) → P a b → Q a b)
      → Safe allowed Q o
  Safe-weaken P Q (finished a b) h k = k a b h
  Safe-weaken P Q (failed e b) h k = h
  Safe-weaken P Q panicked h k = h
  Safe-weaken P Q out_of_fuel h k = h

  pub Safe-if :
      {A : Type 0} (Q : A → StreamingBuilder S → Type 0) (t : Bool) (x y : Outcome S A)
      → (t ≡ true → Safe allowed Q x)
      → (t ≡ false → Safe allowed Q y)
      → Safe allowed Q (if t then x else y)
  Safe-if Q true x y h k = h refl
  Safe-if Q false x y h k = k refl

-- The parts of the builder that the loop works on, with a stack of `n` references.
pub record Kept {S : Type 0} (masks : List ℕ) (prev : Option (List ℕ)) (count n : ℕ)
    (b : StreamingBuilder S) : Type 0 where
  pub same_masks : b.state_masks ≡ masks
  pub same_prev : b.prev_path ≡ prev
  pub same_count : b.leaf_count ≡ count
  pub height : length b.stack ≡ n

-- They stay, up to the stack.
abbrev pub Stacked : {S : Type 0} → StreamingBuilder S → ℕ → StreamingBuilder S → Type 0
Stacked b n b' = Kept b.state_masks b.prev_path b.leaf_count n b'

module _ (coding : Coding) {S : Type 0} (node_sink : NodeSink S)
    (allowed : StreamError → Type 0) where
  -- The sink does not fail, or its error is allowed.
  abbrev pub SinkAllowed : Type 0
  SinkAllowed =
      (em : Emitter) (s : S) (location hash rlp : List ℕ)
      → ((emit coding node_sink em s location hash rlp).0 ≡ true) ⊎ allowed sink_failed

  pub emitted-Safe :
      (b : StreamingBuilder S) (r : Bool × S)
      → (r.0 ≡ true) ⊎ allowed sink_failed
      → Safe allowed (λ _ b'. Stacked b (length b.stack) b') (emitted coding node_sink b r)
  emitted-Safe b (true, s) h = record {
    same_masks = refl;
    same_prev = refl;
    same_count = refl;
    height = refl;
  }
  emitted-Safe b (false, s) (inl h) = absurd (false≢true h)
  emitted-Safe b (false, s) (inr h) = h

  module _ (sink_allowed : SinkAllowed) where
    unchanged : (b : StreamingBuilder S) → Stacked b (length b.stack) b
    unchanged b = record { same_masks = refl; same_prev = refl; same_count = refl; height = refl }

    kept_root :
        (b : StreamingBuilder S) (location rlp hash : List ℕ)
        → Safe allowed
            (λ _ b'. Stacked b (length b.stack) b')
            (emitted coding node_sink (keep_root coding node_sink b location rlp) (
              emit coding node_sink
                (keep_root coding node_sink b location rlp).em
                (keep_root coding node_sink b location rlp).sink
                location
                hash
                rlp))
    kept_root b [] rlp hash =
        let r = emit coding node_sink b.em b.sink [] hash rlp in
        let b0 : StreamingBuilder S = record b { root_rlp = rlp } in
        emitted-Safe b0 r (sink_allowed b.em b.sink [] hash rlp)
    kept_root b (x ∷ location) rlp hash =
        emitted-Safe b (emit coding node_sink b.em b.sink (x ∷ location) hash rlp)
          (sink_allowed b.em b.sink (x ∷ location) hash rlp)

    maybe_emit-Safe :
        (b : StreamingBuilder S) (location rlp : List ℕ)
        → Safe allowed
            (λ _ b'. Stacked b (length b.stack) b')
            (maybe_emit coding node_sink b location rlp)
    unfolding maybe_emit
    maybe_emit-Safe b location rlp =
        let Q : Unit {0} → StreamingBuilder S → Type 0 = λ _ b'. Stacked b (length b.stack) b' in
        Safe-if allowed Q (not (is_referenced_by_hash rlp)) _ _ (λ _. unchanged b)
          (λ _.
            Safe-if allowed Q (same_bytes (coding.keccak rlp) empty_trie_node_hash) _ _
              (λ _. unchanged b) (λ _. kept_root b location rlp (coding.keccak rlp)))

    pub push_node-Safe :
        (b : StreamingBuilder S) (location rlp : List ℕ) (below : List (List ℕ))
        → Safe allowed
            (λ _ b'. Stacked b (suc (length below)) b')
            (push_node coding node_sink b location rlp below)
    push_node-Safe b location rlp below =
        Safe-and_next allowed (λ _ b'. Stacked b (length b.stack) b')
          (λ _ b'. Stacked b (suc (length below)) b') (maybe_emit coding node_sink b location rlp)
          (λ _ b'. finished tt (record b' { stack = ref_of_rlp coding rlp ∷ below }))
          (maybe_emit-Safe b location rlp)
          (λ _ b' w. record {
            same_masks = w.same_masks;
            same_prev = w.same_prev;
            same_count = w.same_count;
            height = refl;
          })

    pub push_leaf-Safe :
        (b : StreamingBuilder S) (location path : List ℕ)
        → Safe allowed
            (λ _ b'. Stacked b (suc (length b.stack)) b')
            (push_leaf coding node_sink b location path)
    unfolding push_leaf
    push_leaf-Safe b location path =
        Safe-or_panic allowed (λ _ b'. Stacked b (suc (length b.stack)) b')
          (encode_leaf_rlp coding path b.prev_value)
          (λ rlp. push_node coding node_sink b location rlp b.stack)
          (encode_leaf_rlp-IsSome coding path b.prev_value)
          (λ rlp _. push_node-Safe b location rlp b.stack)

    extend_top-Safe :
        (b : StreamingBuilder S) (location path : List ℕ) (stack : List (List ℕ))
        → 1 ≤ length stack
        → Safe allowed
            (λ _ b'. Stacked b (length stack) b')
            (extend_top coding node_sink b location path stack)
    extend_top-Safe b location path [] h = absurd (omega arith)
    extend_top-Safe b location path (top ∷ below) h =
        let b0 : StreamingBuilder S = record b { stack = below } in
        Safe-or_panic allowed (λ _ b'. Stacked b (suc (length below)) b')
          (encode_extension_rlp coding path top)
          (λ rlp. push_node coding node_sink b0 location rlp below)
          (encode_extension_rlp-IsSome coding path top)
          (λ rlp _. push_node-Safe b0 location rlp below)

    pub push_extension-Safe :
        (b : StreamingBuilder S) (location path : List ℕ)
        → 1 ≤ length b.stack
        → Safe allowed
            (λ _ b'. Stacked b (length b.stack) b')
            (push_extension coding node_sink b location path)
    unfolding push_extension
    push_extension-Safe b location [] h = unchanged b
    push_extension-Safe b location (x ∷ path) h = extend_top-Safe b location (x ∷ path) b.stack h
