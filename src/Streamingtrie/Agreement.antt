-- ===== src/Streamingtrie/Agreement.antt =====
-- The way through the spill store is the way over the sorted slots.
use mathlib.Core.Option.{some-ne-none}
use state_actor.Bytes.{same_bytes}
use state_actor.Bytes.Slices.{slice, take_all}
use state_actor.Streamsort.{
  Pebble, Store, Answer, ok, fail, StoreError, yield_failed, put, new_store, unless_stopped,
}
use state_actor.Streamsort.Keys.{Entry, written, length-written}
use state_actor.Streamsort.Contract.{Documented}
use state_actor.Streamsort.Reads.{
  visit, IsWriting, held, put-Wrote, iterate-writing, new_store-IsWriting, held-new_store,
}
use state_actor.Streamingtrie.{
  HashBuilder, Sink, zeros, to_hash, on_entry, sorted_loop, root_unless, sorted_root, drain,
  after_put, iterate_root, root_after, after_drain, storage_root,
}
use state_actor.Prelude.{
  ℕ, ◌≤◌, ◌≡◌, refl, ap, sym, ◌∙◌, arith, Bool, true, false, Option, none, some, List, [], ◌∷◌,
  ◌++◌, length, take, drop, drop-append, append-nil, inl, inr, Bool-cases, if◌then◌else◌,
}

-- The rows of the slots that are not zero.
unfoldable pub slot_rows : (List ℕ → List ℕ) → List (List ℕ × List ℕ) → List Entry
unfolding same_bytes
slot_rows keccak [] = []
slot_rows keccak ((k, v) ∷ slots) =
    let rest = slot_rows keccak slots in
    if same_bytes v (zeros 32) then rest else (keccak k, k ++ v) ∷ rest

length-slot_rows :
    (keccak : List ℕ → List ℕ) (slots : List (List ℕ × List ℕ))
    → length (slot_rows keccak slots) ≤ length slots
unfolding slot_rows
length-slot_rows keccak [] = omega arith
length-slot_rows keccak ((k, v) ∷ slots) = elim (Bool-cases (same_bytes v (zeros 32))) [
  | inl e ↦ rw e (omega (arith, length-slot_rows keccak slots))
  | inr e ↦ rw e (omega (arith, length-slot_rows keccak slots))
]

-- A row as the hash of its key, the raw key and the value.
abbrev pub decode_row : Entry → List ℕ × List ℕ × List ℕ
decode_row e = (to_hash e.0, slice e.1 0 32, slice e.1 32 64)

abbrev pub decode_rows : List Entry → List (List ℕ × List ℕ × List ℕ)
decode_rows [] = []
decode_rows (e ∷ es) = decode_row e ∷ decode_rows es

second_half : (k v : List ℕ) → length k ≡ 32 → length v ≡ 32 → take 32 (drop 32 (k ++ v)) ≡ v
second_half k v lk lv =
    let cut : drop 32 (k ++ v) ≡ v = rw (sym lk) (drop-append k v) in
    rw cut (ap (take 32) (sym (append-nil v)) ∙ take_all v [] 32 (sym lv))

-- The row of a slot has its key and its value.
pub decode_row-slot :
    (key_hash k v : List ℕ)
    → length key_hash ≡ 32
    → length k ≡ 32
    → length v ≡ 32
    → decode_row (key_hash, k ++ v) ≡ (key_hash, k, v)
unfolding to_hash
decode_row-slot key_hash k v h lk lv =
    rw (take_all key_hash (zeros 32) 32 (sym h), take_all k v 32 (sym lk), second_half k v lk lv)
      refl

module _ {H K : Type 0} (keccak encode : List ℕ → List ℕ) (hb : HashBuilder H) (sink : Sink K)
    {B D I : Type 0} (pebble : Pebble B D I) (pending : B → List Entry) (stored : D → List Entry)
    (entries upcoming : I → List Entry)
    (documented : Documented pebble pending stored entries upcoming) where
  abbrev pub holds : Store B D → List Entry
  holds s = held pebble pending stored entries upcoming documented s

  IsDrained : List Entry → Option StoreError × Store B D → Type 0
  IsDrained es r =
      (r.0 ≡ none)
      × IsWriting pebble pending stored entries upcoming documented r.1
      × (holds r.1 ≡ es)

  -- A slot that is put, and the slots behind it.
  drain_step :
      (es : List Entry) (step : Answer (Unit {0}) × Store B D)
      (rest : Option StoreError × Store B D)
      → step.0 ≡ ok tt
      → IsDrained es rest
      → IsDrained es (after_put keccak encode hb sink pebble step.0 step.1 rest)
  drain_step es step rest h r = rw h r

  drain_slot :
      (s : Store B D) (k v : List ℕ) (slots : List (List ℕ × List ℕ)) (zero_value : Bool)
      → IsWriting pebble pending stored entries upcoming documented s
      → ((t : Store B D)
          → IsWriting pebble pending stored entries upcoming documented t
          → IsDrained
              (written (slot_rows keccak slots) (holds t))
              (drain keccak encode hb sink pebble t slots))
      → (let step : Answer (Unit {0}) × Store B D =
            if zero_value then (ok tt, s) else put pebble s (keccak k) (k ++ v) in
          let rows = slot_rows keccak slots in
          IsDrained (written (if zero_value then rows else (keccak k, k ++ v) ∷ rows) (holds s)) (
            after_put keccak encode hb sink pebble step.0 step.1
              (drain keccak encode hb sink pebble step.1 slots)))
  unfolding IsDrained written
  drain_slot s k v slots true w rest = rest s w
  drain_slot s k v slots false w rest =
      let p = put-Wrote pebble pending stored entries upcoming documented s (keccak k) (k ++ v) w in
      let step = put pebble s (keccak k) (k ++ v) in
      let r = rest step.1 p.writing in
      drain_step _ step (drain keccak encode hb sink pebble step.1 slots) p.done
        (r.0, r.1, r.2 ∙ ap (written (slot_rows keccak slots)) p.holds)

  drain-rows :
      (s : Store B D) (slots : List (List ℕ × List ℕ))
      → IsWriting pebble pending stored entries upcoming documented s
      → IsDrained
          (written (slot_rows keccak slots) (holds s))
          (drain keccak encode hb sink pebble s slots)
  unfolding IsDrained drain slot_rows written
  drain-rows s [] w = (refl, w, refl)
  drain-rows s ((k, v) ∷ slots) w =
      drain_slot s k v slots (same_bytes v (zeros 32)) w (λ t wt. drain-rows t slots wt)

  -- The two loops stop at the same entry.
  stopped_or_not :
      (e : Option ℕ) (y : H × K) (v : Answer (Unit {0}) × (H × K)) (l : Option ℕ × (H × K))
      → root_after keccak encode hb sink pebble (some v)
        ≡ some (root_unless keccak encode hb sink l)
      → root_after keccak encode hb sink pebble
          (some (unless_stopped (λ x. (fail (yield_failed x), y)) v e))
        ≡ some (root_unless keccak encode hb sink (unless_stopped (λ x. (some x, y)) l e))
  stopped_or_not none y v l h = h
  stopped_or_not (some x) y v l h = refl

  visit-sorted_loop :
      (es : List Entry) (y : H × K)
      → root_after keccak encode hb sink pebble (some (visit (on_entry keccak encode hb sink) es y))
        ≡ some (
            root_unless keccak encode hb sink
              (sorted_loop keccak encode hb sink (decode_rows es) y))
  unfolding visit sorted_loop on_entry
  visit-sorted_loop [] y = refl
  visit-sorted_loop ((a, c) ∷ es) y =
      let r = on_entry keccak encode hb sink y a c in
      stopped_or_not r.0 r.1 (visit (on_entry keccak encode hb sink) es r.1)
        (sorted_loop keccak encode hb sink (decode_rows es) r.1) (visit-sorted_loop es r.1)

  after_drain-none :
      (fuel : ℕ) (y : H × K) (r : Option StoreError × Store B D)
      → r.0 ≡ none
      → after_drain keccak encode hb sink pebble fuel y r
        ≡ iterate_root keccak encode hb sink pebble fuel r.1 y
  after_drain-none fuel y (none, s) h = refl
  after_drain-none fuel y (some e, s) h = absurd (some-ne-none e h)

  -- With a database that behaves as Pebble documents and starts empty, and fuel for the slots:
  -- `StorageRoot` on any slots, in whatever order, has the result and the effects of `SortedRoot` on
  -- the sorted map of the slots that are not zero, by the hash of the key.
  pub storage_root-sorted_root :
      (d : D) (slots : List (List ℕ × List ℕ)) (y : H × K) (fuel : ℕ)
      → stored d ≡ []
      → length slots ≤ fuel
      → (storage_root keccak encode hb sink pebble fuel d slots y).0
        ≡ some (
            sorted_root keccak encode hb sink (decode_rows (written (slot_rows keccak slots) [])) y)
  unfolding storage_root iterate_root sorted_root IsDrained
  storage_root-sorted_root d slots y fuel h l =
      let s0 = new_store pebble d in
      let rows = slot_rows keccak slots in
      let q =
        drain-rows s0 slots
          (new_store-IsWriting pebble pending stored entries upcoming documented d) in
      let drained = drain keccak encode hb sink pebble s0 slots in
      let all =
        q.2
        ∙ ap (written rows)
            (held-new_store pebble pending stored entries upcoming documented d h) in
      let few : length (holds drained.1) ≤ fuel =
        rw all (omega (arith, l, length-written rows [], length-slot_rows keccak slots)) in
      ap (λ r. r.0) (after_drain-none fuel y drained q.0)
      ∙ (ap (root_after keccak encode hb sink pebble) (
            iterate-writing pebble pending stored entries upcoming documented
              (on_entry keccak encode hb sink) fuel drained.1 y q.1 few)
          ∙ (visit-sorted_loop (holds drained.1) y
              ∙ ap (λ es. some (sorted_root keccak encode hb sink (decode_rows es) y)) all))
