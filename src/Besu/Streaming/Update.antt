-- ===== src/Besu/Streaming/Update.antt =====
-- The loop of `update` ends, with as much fuel as the path has nibbles.
use mathlib.Core.Bool.{true≢false}
use mathlib.Core.Path.{subst}
use state_actor.Ethrex.Nibbles.{common_prefix_len}
use state_actor.Besu.Streaming.{
  Coding, NodeSink, StreamError, StreamingBuilder, Outcome, finished, panicked, and_next, set_mask,
  strip_zeros, push_leaf, push_extension, seal_branch_at, is_nonempty, preceding_len,
  preceding_exists, shorten, end_round, digit_round, longer, round, update_loop,
}
use state_actor.Besu.Streaming.Masks.{
  bits, bits-set_mask, length-set_mask, bits-strip_zeros, length-strip_zeros, length-take,
}
use state_actor.Besu.Streaming.Rounds.{
  Safe, Safe-and_next, Safe-or_panic, Safe-if, Safe-weaken, Stacked, SinkAllowed, push_leaf-Safe,
  push_extension-Safe,
}
use state_actor.Besu.Streaming.Loop.{
  take_exactly, elem-IsSome, common_prefix_len-take, Ready, Ended, Marked, Sealed, seal-Sealed,
}
use state_actor.Prelude.{
  ℕ, zero, suc, ◌+◌, ◌-◌, ◌≤◌, ◌<◌, ◌≡◌, refl, sym, ◌∙◌, arith, Bool, true, false, ◌&&◌, ◌||◌,
  Option, List, [], ◌∷◌, length, get_elem?, take, drop, ltb, leb, ◌==◌, if◌then◌else◌,
}

-- The index of a round is that of the last mask, when the round is not the last one.
longer-preceding :
    (p c : ℕ) (more : Bool)
    → (leb p c && more) ≡ false
    → (more ≡ false → c ≡ 0)
    → (if ltb p c then c else p) ≡ p
longer-preceding p c true h k = ground arith
longer-preceding p c false h k = ground (arith, k refl)

-- The shortened path is still longer than the common prefix.
parts_after :
    (p c : ℕ) (more : Bool)
    → (leb p c && more) ≡ false
    → (more ≡ false → c ≡ 0)
    → (p == 0) ≡ false
    → c < p
parts_after p c true h k z = ground arith
parts_after p c false h k z = ground (arith, k refl)

-- Without a branch there is no mask.
no_mask : (more : Bool) (m : ℕ) → (more || ltb 0 m) ≡ false → m - 1 ≡ 0
no_mask true m h = absurd (true≢false h)
no_mask false m h = ground arith

-- The path of a leaf or an extension starts inside the current one.
from_le : (one : Bool) (at n : ℕ) → at < n → ltb n (if one then at + 1 else at) ≡ false
from_le true at n h = ground arith
from_le false at n h = ground arith

nothing_common :
    (succeeding b : List ℕ) → is_nonempty succeeding ≡ false → common_prefix_len succeeding b ≡ 0
unfolding common_prefix_len
nothing_common [] b h = refl
nothing_common (x ∷ succeeding) b h = absurd (true≢false h)

module _ (coding : Coding) {S : Type 0} (node_sink : NodeSink S) (allowed : StreamError → Type 0)
    (sink_allowed : SinkAllowed coding node_sink allowed) (succeeding : List ℕ)
    (prev : Option (List ℕ)) (count n : ℕ) where
  abbrev pub Done : Unit {0} → StreamingBuilder S → Type 0
  Done _ b = Ended prev count n b

  -- What a round asks of the next one.
  Continues : List ℕ → (StreamingBuilder S → List ℕ → Outcome S (Unit {0})) → Type 0
  Continues current next =
      (b : StreamingBuilder S) (shortened : List ℕ)
      → length shortened < length current
      → b.prev_path ≡ prev
      → b.leaf_count ≡ count
      → Ready succeeding shortened 1 b
      → Safe allowed Done (next b shortened)

  shorten-Safe :
      (b b2 : StreamingBuilder S) (current : List ℕ)
      (next : StreamingBuilder S → List ℕ → Outcome S (Unit {0}))
      → Ready succeeding current 0 b
      → length current ≤ n
      → b.prev_path ≡ prev
      → b.leaf_count ≡ count
      → Continues current next
      → (leb (preceding_len b) (common_prefix_len succeeding current) && is_nonempty succeeding)
        ≡ false
      → Sealed b (preceding_len b) b2
      → Safe allowed Done
          (shorten coding node_sink (preceding_len b) (preceding_len b) current next b2)
  unfolding Continues
  shorten-Safe b b2 current next r fits hp hc k more w =
      let p = preceding_len b in
      let cut = take p b2.state_masks in
      let b' : StreamingBuilder S = record b2 { state_masks = strip_zeros cut } in
      let few = bits-strip_zeros cut in
      let short = length-strip_zeros cut in
      let cut_length = length-take p b2.state_masks in
      let held = w.held in
      let masks_fit = r.masks_fit in
      let parts = r.parts in
      Safe-if allowed Done (p == 0) _ _
        (λ z. record {
          same_prev = w.prev ∙ hp;
          same_count = w.count ∙ hc;
          masks_short = omega (arith, short, cut_length, fits, masks_fit);
          referenced = omega (arith, few, held);
          some_reference = omega (arith, held);
        })
        (λ z.
          let exact = take_exactly p current (omega (arith, masks_fit)) in
          let below =
            parts_after p (common_prefix_len succeeding current) (is_nonempty succeeding) more
              (nothing_common succeeding current) z in
          k b' (take p current) (omega (arith, exact, masks_fit, parts)) (w.prev ∙ hp)
            (w.count ∙ hc)
            (record {
              parts = omega (arith, exact, below, common_prefix_len-take succeeding current p);
              masks_fit = omega (arith, exact, short, cut_length);
              on_stack = omega (arith, few, held);
            }))

  -- The branch of the round, if it has one: without one there is no mask, and nothing is cut.
  seal_round-Safe :
      (b b1 : StreamingBuilder S) (current : List ℕ) (digit : ℕ)
      → Marked b (preceding_len b) digit b1
      → Safe allowed
          (λ _ b2. Sealed b (preceding_len b) b2)
          (if is_nonempty succeeding || preceding_exists b
            then seal_branch_at coding node_sink b1 current (preceding_len b)
            else finished tt b1)
  unfolding bits
  seal_round-Safe b b1 current digit w =
      let top = w.top in
      Safe-if allowed (λ _ b2. Sealed b (preceding_len b) b2)
        (is_nonempty succeeding || preceding_exists b) _ _
        (λ _.
          seal-Sealed coding node_sink allowed sink_allowed b b1 current (preceding_len b) digit w)
        (λ none_before. record {
          prev = w.prev;
          count = w.count;
          held = rw (no_mask (is_nonempty succeeding) (length b.state_masks) none_before) top;
        })

  end_round-Safe :
      (b b1 : StreamingBuilder S) (current : List ℕ) (digit : ℕ)
      (next : StreamingBuilder S → List ℕ → Outcome S (Unit {0}))
      → Ready succeeding current 0 b
      → length current ≤ n
      → b.prev_path ≡ prev
      → b.leaf_count ≡ count
      → Continues current next
      → (let at = longer (preceding_len b) (common_prefix_len succeeding current) in
          Marked b at digit b1
          → Safe allowed Done (end_round coding node_sink b succeeding current at next b1))
  end_round-Safe b b1 current digit next r fits hp hc k w =
      let p = preceding_len b in
      let c = common_prefix_len succeeding current in
      let parts = r.parts in
      let masks_fit = r.masks_fit in
      let inside : longer p c < length current = ground arith in
      let last = leb p c && is_nonempty succeeding in
      Safe-if allowed Done last _ _
        (λ _. record {
          same_prev = w.prev ∙ hp;
          same_count = w.count ∙ hc;
          masks_short = rw w.masks (
              length-set_mask n b.state_masks (longer p c) digit (omega (arith, fits, masks_fit))
                (omega (arith, fits, inside)));
          referenced = w.held;
          some_reference = w.top;
        })
        (λ more.
          let at =
            longer-preceding p c (is_nonempty succeeding) more
              (nothing_common succeeding current) in
          subst
            (λ i. Safe allowed Done (
              and_next
                (if is_nonempty succeeding || preceding_exists b
                  then seal_branch_at coding node_sink b1 current i
                  else finished tt b1)
                (λ _ b2. shorten coding node_sink p i current next b2)))
            (sym at)
            (Safe-and_next allowed (λ _ b2. Sealed b p b2) Done _
              (λ _ b2. shorten coding node_sink p p current next b2)
              (seal_round-Safe b b1 current digit (subst (λ i. Marked b i digit b1) at w))
              (λ _ b2 sealed. shorten-Safe b b2 current next r fits hp hc k more sealed)))

  -- The leaf of the first round, or the extension of a later one.
  push-Marked :
      (b : StreamingBuilder S) (location path : List ℕ) (at digit : ℕ) (build_extensions : Bool)
      → bits b.state_masks + (if build_extensions then 1 else 0) ≤ length b.stack
      → let b' : StreamingBuilder S = record b { state_masks = set_mask b.state_masks at digit } in
        Safe allowed
          (λ _ b1. Marked b at digit b1)
          (if build_extensions
            then push_extension coding node_sink b' location path
            else push_leaf coding node_sink b' location path)
  push-Marked b location path at digit true h =
      let b' : StreamingBuilder S = record b { state_masks = set_mask b.state_masks at digit } in
      let more = bits-set_mask b.state_masks at digit in
      Safe-weaken allowed (λ _ b1. Stacked b' (length b.stack) b1) (λ _ b1. Marked b at digit b1)
        (push_extension coding node_sink b' location path)
        (push_extension-Safe coding node_sink allowed sink_allowed b' location path
          (omega (arith, h)))
        (λ _ b1 k. record {
          masks = k.same_masks;
          prev = k.same_prev;
          count = k.same_count;
          held = rw k.same_masks (omega (arith, k.height, more, h));
          top = omega (arith, k.height, h);
        })
  push-Marked b location path at digit false h =
      let b' : StreamingBuilder S = record b { state_masks = set_mask b.state_masks at digit } in
      let more = bits-set_mask b.state_masks at digit in
      Safe-weaken allowed (λ _ b1. Stacked b' (suc (length b.stack)) b1)
        (λ _ b1. Marked b at digit b1) (push_leaf coding node_sink b' location path)
        (push_leaf-Safe coding node_sink allowed sink_allowed b' location path)
        (λ _ b1 k. record {
          masks = k.same_masks;
          prev = k.same_prev;
          count = k.same_count;
          held = rw k.same_masks (omega (arith, k.height, more, h));
          top = omega (arith, k.height);
        })

  round-Safe :
      (b : StreamingBuilder S) (current : List ℕ) (build_extensions : Bool)
      (next : StreamingBuilder S → List ℕ → Outcome S (Unit {0}))
      → Ready succeeding current (if build_extensions then 1 else 0) b
      → length current ≤ n
      → b.prev_path ≡ prev
      → b.leaf_count ≡ count
      → Continues current next
      → Safe allowed Done (round coding node_sink b succeeding current build_extensions next)
  unfolding round
  round-Safe b current build_extensions next r fits hp hc k =
      let p = preceding_len b in
      let c = common_prefix_len succeeding current in
      let at = longer p c in
      let parts = r.parts in
      let masks_fit = r.masks_fit in
      let stack = r.on_stack in
      let inside : at < length current = ground arith in
      let one = is_nonempty succeeding || preceding_exists b in
      let from = if one then at + 1 else at in
      let r0 : Ready succeeding current 0 b = record {
        parts = r.parts;
        masks_fit = r.masks_fit;
        on_stack = omega (arith, stack);
      } in
      Safe-or_panic allowed Done (get_elem? current at)
        (digit_round coding node_sink b succeeding current build_extensions at next)
        (elem-IsSome current at inside)
        (λ digit _.
          subst
            (λ t. Safe allowed Done (
              if t
              then panicked
              else and_next
                  (if build_extensions
                    then push_extension coding node_sink
                        (record b { state_masks = set_mask b.state_masks at digit })
                        (take from current) (drop from current)
                    else push_leaf coding node_sink
                        (record b { state_masks = set_mask b.state_masks at digit })
                        (take from current) (drop from current))
                  (λ _ b1. end_round coding node_sink b succeeding current at next b1)))
            (sym (from_le one at (length current) inside))
            (Safe-and_next allowed (λ _ b1. Marked b at digit b1) Done _
              (λ _ b1. end_round coding node_sink b succeeding current at next b1)
              (push-Marked b (take from current) (drop from current) at digit build_extensions
                stack)
              (λ _ b1 w. end_round-Safe b b1 current digit next r0 fits hp hc k w)))

  -- With a round for every nibble of the path the loop ends.
  pub update_loop-Safe :
      (fuel : ℕ) (b : StreamingBuilder S) (current : List ℕ) (build_extensions : Bool)
      → Ready succeeding current (if build_extensions then 1 else 0) b
      → length current ≤ fuel
      → length current ≤ n
      → b.prev_path ≡ prev
      → b.leaf_count ≡ count
      → Safe allowed Done (update_loop coding node_sink fuel b succeeding current build_extensions)
  unfolding update_loop Continues
  update_loop-Safe zero b current build_extensions r enough fits hp hc =
      (let parts = r.parts in absurd (omega arith))
  update_loop-Safe (suc fuel) b current build_extensions r enough fits hp hc =
      round-Safe b current build_extensions _ r fits hp hc (λ b' shortened shorter hp' hc' r'.
        update_loop-Safe fuel b' shortened true r' (omega arith) (omega arith) hp' hc')
