-- ===== src/Besu/Streaming/Loop.antt =====
-- The loop of `update`: every round is safe and shortens the path.
use mathlib.Core.Path.{subst}
use mathlib.Core.List.{reverse, reverse_aux}
use state_actor.Ethrex.Nibbles.{common_prefix_len}
use state_actor.Besu.Streaming.{
  Coding, NodeSink, StreamError, StreamingBuilder, or_panic, popcount, set_mask, encode_branch_rlp,
  push_node, seal_mask, seal_branch_at,
}
use state_actor.Besu.Streaming.Masks.{bits, set_mask-at, bits-take}
use state_actor.Besu.Streaming.Encodings.{IsSome, encode_branch_rlp-IsSome}
use state_actor.Besu.Streaming.Rounds.{
  Safe, Safe-or_panic, Safe-if, Safe-weaken, Stacked, SinkAllowed, push_node-Safe,
}
use state_actor.Prelude.{
  ℕ, zero, suc, ◌+◌, ◌-◌, ◌≤◌, ◌<◌, ◌≡◌, refl, sym, ◌∙◌, arith, Option, some, List, [], ◌∷◌, length,
  get_elem?, take, drop, length-drop, ltb, ltb→lt,
}

length-reverse_aux : (xs ys : List (List ℕ)) → length (reverse_aux xs ys) ≡ length xs + length ys
length-reverse_aux [] ys = omega arith
length-reverse_aux (x ∷ xs) ys = omega (arith, length-reverse_aux xs (x ∷ ys))

pub take_exactly : {A : Type 0} (n : ℕ) (xs : List A) → n ≤ length xs → length (take n xs) ≡ n
take_exactly zero xs h = refl
take_exactly (suc n) [] h = absurd (omega arith)
take_exactly (suc n) (x ∷ xs) h = omega (arith, take_exactly n xs (omega arith))

pub elem-IsSome : (xs : List ℕ) (i : ℕ) → i < length xs → IsSome (get_elem? xs i)
elem-IsSome [] i h = absurd (omega arith)
elem-IsSome (x ∷ xs) zero h = (x, refl)
elem-IsSome (x ∷ xs) (suc i) h = elem-IsSome xs i (omega arith)

pub common_prefix_len-take :
    (a b : List ℕ) (n : ℕ) → common_prefix_len a (take n b) ≤ common_prefix_len a b
unfolding common_prefix_len
common_prefix_len-take [] b n = omega arith
common_prefix_len-take (x ∷ a) [] zero = omega arith
common_prefix_len-take (x ∷ a) [] (suc n) = omega arith
common_prefix_len-take (x ∷ a) (y ∷ b) zero = omega arith
common_prefix_len-take (x ∷ a) (y ∷ b) (suc n) = ground (arith, common_prefix_len-take a b n)

-- A builder that a round can start from; `extra` is 1 when an extension takes the place of a leaf.
pub record Ready {S : Type 0} (succeeding current : List ℕ) (extra : ℕ) (b : StreamingBuilder S)
    : Type 0 where
  pub parts : common_prefix_len succeeding current < length current
  pub masks_fit : length b.state_masks ≤ length current
  pub on_stack : bits b.state_masks + extra ≤ length b.stack

-- What the loop leaves: a reference for every bit, and at least one.
pub record Ended {S : Type 0} (prev : Option (List ℕ)) (count n : ℕ) (b : StreamingBuilder S)
    : Type 0 where
  pub same_prev : b.prev_path ≡ prev
  pub same_count : b.leaf_count ≡ count
  pub masks_short : length b.state_masks ≤ n
  pub referenced : bits b.state_masks ≤ length b.stack
  pub some_reference : 1 ≤ length b.stack

-- The mask is set and the node of the round is on the stack.
pub record Marked {S : Type 0} (b : StreamingBuilder S) (at digit : ℕ) (b' : StreamingBuilder S)
    : Type 0 where
  pub masks : b'.state_masks ≡ set_mask b.state_masks at digit
  pub prev : b'.prev_path ≡ b.prev_path
  pub count : b'.leaf_count ≡ b.leaf_count
  pub held : bits b'.state_masks ≤ length b'.stack
  pub top : 1 ≤ length b'.stack

-- The branch of the round is sealed.
pub record Sealed {S : Type 0} (b : StreamingBuilder S) (at : ℕ) (b' : StreamingBuilder S)
    : Type 0 where
  pub prev : b'.prev_path ≡ b.prev_path
  pub count : b'.leaf_count ≡ b.leaf_count
  pub held : bits (take at b'.state_masks) + 1 ≤ length b'.stack

module _ (coding : Coding) {S : Type 0} (node_sink : NodeSink S) (allowed : StreamError → Type 0)
    (sink_allowed : SinkAllowed coding node_sink allowed) where
  children-IsSome :
      (b : StreamingBuilder S) (x : ℕ)
      → popcount x ≤ length b.stack
      → IsSome (encode_branch_rlp coding x (reverse (take (popcount x) b.stack)))
  children-IsSome b x h = encode_branch_rlp-IsSome coding x (reverse (take (popcount x) b.stack)) (
      omega (
        arith,
        length-reverse_aux (take (popcount x) b.stack) [],
        take_exactly (popcount x) b.stack h,
      ))

  seal_mask-Safe :
      (b : StreamingBuilder S) (location : List ℕ) (x : ℕ)
      → popcount x ≤ length b.stack
      → Safe allowed
          (λ _ b'. Stacked b (suc (length b.stack - popcount x)) b')
          (seal_mask coding node_sink b location x)
  seal_mask-Safe b location x h =
      let Q : Unit {0} → StreamingBuilder S → Type 0 =
        λ _ b'. Stacked b (suc (length b.stack - popcount x)) b' in
      let left = drop (popcount x) b.stack in
      Safe-if allowed Q (ltb (length b.stack) (popcount x)) _ _
        (λ t. absurd (omega (arith, ltb→lt (length b.stack) (popcount x) t)))
        (λ _.
          Safe-or_panic allowed Q (encode_branch_rlp coding x (reverse (take (popcount x) b.stack)))
            (λ rlp. push_node coding node_sink b location rlp left) (children-IsSome b x h)
            (λ rlp _.
              subst
                (λ n.
                  Safe allowed (λ _ b'. Stacked b (suc n) b')
                    (push_node coding node_sink b location rlp left))
                (length-drop (popcount x) b.stack)
                (push_node-Safe coding node_sink allowed sink_allowed b location rlp left)))

  seal_branch_at-Safe :
      (b : StreamingBuilder S) (current : List ℕ) (at x : ℕ)
      → get_elem? b.state_masks at ≡ some x
      → popcount x ≤ length b.stack
      → Safe allowed
          (λ _ b'. Stacked b (suc (length b.stack - popcount x)) b')
          (seal_branch_at coding node_sink b current at)
  unfolding seal_branch_at
  seal_branch_at-Safe b current at x e h =
      let Q : Unit {0} → StreamingBuilder S → Type 0 =
        λ _ b'. Stacked b (suc (length b.stack - popcount x)) b' in
      subst (λ o. Safe allowed Q (or_panic o (seal_mask coding node_sink b (take at current))))
        (sym e) (seal_mask-Safe b (take at current) x h)

  pub seal-Sealed :
      (b b1 : StreamingBuilder S) (current : List ℕ) (at digit : ℕ)
      → Marked b at digit b1
      → Safe allowed (λ _ b2. Sealed b at b2) (seal_branch_at coding node_sink b1 current at)
  seal-Sealed b b1 current at digit w =
      let (x, e) = set_mask-at b.state_masks at digit in
      let e' : get_elem? b1.state_masks at ≡ some x = rw w.masks e in
      let fits = bits-take b1.state_masks at x e' in
      let h = w.held in
      Safe-weaken allowed (λ _ b2. Stacked b1 (suc (length b1.stack - popcount x)) b2)
        (λ _ b2. Sealed b at b2) (seal_branch_at coding node_sink b1 current at)
        (seal_branch_at-Safe b1 current at x e' (omega (arith, fits, h)))
        (λ _ b2 k. record {
          prev = k.same_prev ∙ w.prev;
          count = k.same_count ∙ w.count;
          held = rw k.same_masks (omega (arith, k.height, fits, h));
        })
