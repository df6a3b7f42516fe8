-- ===== src/Besu/Streaming/Stream.antt =====
-- A whole trie: leaves added in turn, and the root.
use mathlib.Core.Bool.{true≢false}
use mathlib.Core.Option.{some-ne-none}
use state_actor.Bytes.{same_bytes}
use state_actor.Ethrex.Nibbles.{common_prefix_len}
use state_actor.HexPrefix.Loops.{length-spread}
use state_actor.Besu.Trie.{key_path, leaf_terminator}
use state_actor.Besu.Trie.Keys.{key_path-eq}
use state_actor.Streamsort.Keys.{Entry, key_before}
use state_actor.Besu.Streaming.{
  Coding, NodeSink, StreamError, slots_out_of_order, StreamingBuilder, Emitter,
  new_streaming_builder, Outcome, finished, and_next, empty_trie_node_hash, update, take_leaf,
  after_prev, add_leaf, collapse, is_hash_ref, root_of, finalize_stream, emit, emitted,
}
use state_actor.Besu.Streaming.Masks.{bits}
use state_actor.Besu.Streaming.Rounds.{
  Safe, Safe-and_next, Safe-if, Safe-weaken, Stacked, SinkAllowed, emitted-Safe,
}
use state_actor.Besu.Streaming.Loop.{Ended}
use state_actor.Besu.Streaming.Update.{update_loop-Safe}
use state_actor.Prelude.{
  ℕ, ◌≤◌, ◌<◌, ◌≡◌, refl, ap, sym, ◌∙◌, arith, ◌⊎◌, Bool, true, false, not, Option, none, some,
  List, [], ◌∷◌, length, length-append, ◌==◌, inl, inr, All,
}

-- All the leaves, up to the first that fails, and the root.
unfoldable pub stream :
    {S : Type 0}
    → Coding
    → NodeSink S
    → StreamingBuilder S
    → List Entry
    → Outcome S (List ℕ × List ℕ)
unfolding add_leaf finalize_stream
stream coding node_sink b [] = finalize_stream coding node_sink b
stream coding node_sink b ((k, v) ∷ leaves) =
    and_next (add_leaf coding node_sink b k v) (λ _ b'. stream coding node_sink b' leaves)

-- The paths of the leaves ascend strictly, behind that of the previous leaf.
unfoldable pub InOrder : Option (List ℕ) → List Entry → Type 0
InOrder prev [] = Unit {0}
InOrder none ((k, v) ∷ leaves) = InOrder (some (key_path k)) leaves
InOrder (some p) ((k, v) ∷ leaves) =
    (key_before p (key_path k) ≡ true) × InOrder (some (key_path k)) leaves

abbrev pub HashKeys : List Entry → Type 0
HashKeys = All (λ (e : Entry). length e.0 ≡ 32)

length-key_path : (key : List ℕ) → length key ≡ 32 → length (key_path key) ≡ 65
length-key_path key h =
    rw (key_path-eq key)
      (omega (arith, h, length-append _ (leaf_terminator ∷ []), length-spread key))

-- Paths of one length that differ, differ before their end.
apart :
    (a b : List ℕ) → length a ≡ length b → key_before b a ≡ true → common_prefix_len a b < length b
unfolding key_before common_prefix_len
apart [] [] l h = absurd (true≢false (sym h))
apart [] (y ∷ b) l h = omega arith
apart (x ∷ a) [] l h = absurd (omega arith)
apart (x ∷ a) (y ∷ b) l h = ground (arith, apart a b)

abbrev before_path : Option (List ℕ) → List ℕ → Bool
before_path none k = true
before_path (some p) k = key_before p k

negated_false : (b : Bool) → not b ≡ false → b ≡ true
negated_false true h = refl
negated_false false h = sym h

out_of_order : {A : Type 0} (b : Bool) → not b ≡ true → (b ≡ true) ⊎ A → A
out_of_order b h (inl e) = absurd (true≢false (sym h ∙ ap not e))
out_of_order b h (inr a) = a

abbrev length_or_zero : Option (List ℕ) → ℕ
length_or_zero none = 0
length_or_zero (some p) = length p

nothing_common : (p : List ℕ) → 1 ≤ length p → common_prefix_len [] p < length p
unfolding common_prefix_len
nothing_common p h = h

next-InOrder :
    {A : Type 0} (o : Option (List ℕ)) (p k v : List ℕ) (leaves : List Entry)
    → o ≡ some p
    → InOrder o ((k, v) ∷ leaves) ⊎ A
    → (key_before p (key_path k) ≡ true) ⊎ A
unfolding InOrder
next-InOrder o p k v leaves e (inr a) = inr a
next-InOrder none p k v leaves e (inl h) = absurd (some-ne-none p (sym e))
next-InOrder (some q) p k v leaves e (inl h) =
    inl (ap (λ o. before_path o (key_path k)) (sym e) ∙ h.0)

rest-InOrder :
    {A : Type 0} (o : Option (List ℕ)) (k v : List ℕ) (leaves : List Entry)
    → InOrder o ((k, v) ∷ leaves) ⊎ A
    → InOrder (some (key_path k)) leaves ⊎ A
unfolding InOrder
rest-InOrder o k v leaves (inr a) = inr a
rest-InOrder none k v leaves (inl h) = inl h
rest-InOrder (some p) k v leaves (inl h) = inl h.1

module _ (coding : Coding) {S : Type 0} (node_sink : NodeSink S) (allowed : StreamError → Type 0)
    (sink_allowed : SinkAllowed coding node_sink allowed) where
  -- A spine that the next leaf can go on.
  pub record IsGrowing (b : StreamingBuilder S) : Type 0 where
    pub path_length : (p : List ℕ) → b.prev_path ≡ some p → length p ≡ 65
    pub counted : b.prev_path ≡ none → b.leaf_count ≡ 0
    pub masks_short : length b.state_masks ≤ 65
    pub referenced : bits b.state_masks ≤ length b.stack

  -- What `update` leaves for the next leaf.
  IsSpine : Unit {0} → StreamingBuilder S → Type 0
  IsSpine _ b = (length b.state_masks ≤ 65) × (bits b.state_masks ≤ length b.stack)

  update-Safe :
      (b : StreamingBuilder S) (p succeeding : List ℕ)
      → IsGrowing b
      → b.prev_path ≡ some p
      → common_prefix_len succeeding p < length p
      → Safe allowed
          (λ _ b'. Ended b.prev_path b.leaf_count 65 b')
          (update coding node_sink b p succeeding)
  unfolding update
  update-Safe b p succeeding g e parts =
      let l = g.path_length p e in
      let m = g.masks_short in
      let s = g.referenced in
      update_loop-Safe coding node_sink allowed sink_allowed succeeding b.prev_path b.leaf_count 65
        (length p) b p false
        (record { parts = parts; masks_fit = omega (arith, l, m); on_stack = omega (arith, s) })
        (omega arith) (omega (arith, l)) refl refl

  after_prev-Safe :
      (b : StreamingBuilder S) (o : Option (List ℕ)) (new_path : List ℕ)
      → IsGrowing b
      → b.prev_path ≡ o
      → length new_path ≡ 65
      → ((p : List ℕ) → o ≡ some p → (key_before p new_path ≡ true) ⊎ allowed slots_out_of_order)
      → Safe allowed IsSpine (after_prev coding node_sink b o new_path)
  unfolding IsSpine
  after_prev-Safe b none new_path g e l h = (g.masks_short, g.referenced)
  after_prev-Safe b (some p) new_path g e l h =
      Safe-if allowed IsSpine (not (key_before p new_path)) _ _
        (λ t. out_of_order (key_before p new_path) t (h p refl))
        (λ t.
          Safe-weaken allowed (λ _ b'. Ended b.prev_path b.leaf_count 65 b') IsSpine
            (update coding node_sink b p new_path)
            (update-Safe b p new_path g e (
              apart new_path p (l ∙ sym (g.path_length p e))
                (negated_false (key_before p new_path) t)))
            (λ _ b' w. (w.masks_short, w.referenced)))

  -- The builder after a leaf.
  HasLeaf : List ℕ → Unit {0} → StreamingBuilder S → Type 0
  HasLeaf key _ b = IsGrowing b × (b.prev_path ≡ some (key_path key))

  add_leaf-Safe :
      (b : StreamingBuilder S) (key value : List ℕ)
      → IsGrowing b
      → length key ≡ 32
      → ((p : List ℕ)
          → b.prev_path ≡ some p
          → (key_before p (key_path key) ≡ true) ⊎ allowed slots_out_of_order)
      → Safe allowed (HasLeaf key) (add_leaf coding node_sink b key value)
  unfolding add_leaf HasLeaf IsSpine
  add_leaf-Safe b key value g l h =
      let path_length = length-key_path key l in
      Safe-and_next allowed IsSpine (HasLeaf key)
        (after_prev coding node_sink b b.prev_path (key_path key))
        (λ _ b'. take_leaf coding node_sink (key_path key) value b')
        (after_prev-Safe b b.prev_path (key_path key) g refl path_length h)
        (λ _ b' w. (
          record {
            path_length = λ p e. sym (ap length_or_zero e) ∙ path_length;
            counted = λ e. absurd (some-ne-none (key_path key) e);
            masks_short = w.0;
            referenced = w.1;
          },
          refl,
        ))

  abbrev pub Anything : {A : Type 0} → A → StreamingBuilder S → Type 0
  Anything a b = Unit {0}

  root_of-Safe :
      (b : StreamingBuilder S) (stack : List (List ℕ))
      → 1 ≤ length stack
      → Safe allowed Anything (root_of coding node_sink b stack)
  root_of-Safe b [] h = absurd (omega arith)
  root_of-Safe b (ref ∷ below) h =
      Safe-if allowed Anything (is_hash_ref coding node_sink ref) _ _ (λ _. tt)
        (λ _.
          Safe-if allowed Anything (same_bytes (coding.keccak ref) empty_trie_node_hash) _ _
            (λ _. tt)
            (λ _.
              Safe-and_next allowed (λ _ b'. Stacked b (length b.stack) b') Anything
                (emitted coding node_sink b
                  (emit coding node_sink b.em b.sink [] (coding.keccak ref) ref))
                (λ _ b'. finished (coding.keccak ref, ref) b')
                (emitted-Safe coding node_sink allowed b _
                  (sink_allowed b.em b.sink [] (coding.keccak ref) ref))
                (λ _ b' _. tt)))

  collapse-Safe :
      (b : StreamingBuilder S) (o : Option (List ℕ))
      → IsGrowing b
      → b.prev_path ≡ o
      → (b.leaf_count == 0) ≡ false
      → Safe allowed (λ _ b'. 1 ≤ length b'.stack) (collapse coding node_sink b o)
  collapse-Safe b none g e h = (let none_yet = g.counted e in absurd (ground arith))
  collapse-Safe b (some p) g e h =
      let l = g.path_length p e in
      Safe-and_next allowed (λ _ b'. Ended b.prev_path b.leaf_count 65 b')
        (λ _ b'. 1 ≤ length b'.stack) (update coding node_sink b p [])
        (λ _ b'. finished tt (record b' { prev_path = none; prev_value = [] }))
        (update-Safe b p [] g e (nothing_common p (omega (arith, l)))) (λ _ b' w. w.some_reference)

  finalize_stream-Safe :
      (b : StreamingBuilder S)
      → IsGrowing b
      → Safe allowed Anything (finalize_stream coding node_sink b)
  unfolding finalize_stream
  finalize_stream-Safe b g =
      Safe-if allowed Anything (b.leaf_count == 0) _ _ (λ _. tt)
        (λ h.
          Safe-and_next allowed (λ _ b'. 1 ≤ length b'.stack) Anything
            (collapse coding node_sink b b.prev_path) (λ _ b'. root_of coding node_sink b' b'.stack)
            (collapse-Safe b b.prev_path g refl h) (λ _ b' w. root_of-Safe b' b'.stack w))

  pub stream-Safe :
      (b : StreamingBuilder S) (leaves : List Entry)
      → IsGrowing b
      → HashKeys leaves
      → InOrder b.prev_path leaves ⊎ allowed slots_out_of_order
      → Safe allowed Anything (stream coding node_sink b leaves)
  unfolding stream HasLeaf
  stream-Safe b [] g l h = finalize_stream-Safe b g
  stream-Safe b ((k, v) ∷ leaves) g l h =
      Safe-and_next allowed (HasLeaf k) Anything (add_leaf coding node_sink b k v)
        (λ _ b'. stream coding node_sink b' leaves)
        (add_leaf-Safe b k v g l.0 (λ p e. next-InOrder b.prev_path p k v leaves e h))
        (λ _ b' w. stream-Safe b' leaves w.0 l.1 (rw w.1 (rest-InOrder b.prev_path k v leaves h)))

  pub new_streaming_builder-IsGrowing :
      (s : S) (em : Emitter) → IsGrowing (new_streaming_builder coding node_sink s em)
  unfolding new_streaming_builder bits
  new_streaming_builder-IsGrowing s em = record {
    path_length = λ p e. absurd (some-ne-none p (sym e));
    counted = λ e. refl;
    masks_short = omega arith;
    referenced = omega arith;
  }
