-- ===== src/Streamsort/Reads.antt =====
-- Reading what was written, wherever the batch was flushed in between.
use mathlib.Core.Path.{subst}
use state_actor.Prelude.{
  ℕ, zero, suc, ◌≤◌, ◌≡◌, refl, ap, sym, ◌∙◌, arith, Bool, true, false, Option, none, some, List,
  [], ◌∷◌, length, leb, Bool-cases, inl, inr, if◌then◌else◌,
}
use state_actor.Streamsort.{
  Pebble, Store, Answer, ok, fail, StoreError, yield_failed, batch_flush_bytes, flush_full, put,
  new_store, finalize_body, finalize_store, auto_finalize, open_reader, unless_err, unless_stopped,
  read_key, get_value, iterate_loop, iterate_with, read_entries, iterate_after_close, iterate,
}
use state_actor.Streamsort.Keys.{
  Entry, written, lookup, newest, lookup-written, written-append, length-written,
}
use state_actor.Streamsort.Contract.{Documented, tail}

-- All the writes of a caller: the answers and the store.
unfoldable pub put_all :
    {B D I : Type 0} → Pebble B D I → Store B D → List Entry → List (Answer (Unit {0})) × Store B D
unfolding put
put_all pebble s [] = ([], s)
put_all pebble s ((k, v) ∷ es) =
    let (a, s1) = put pebble s k v in let (answers, s2) = put_all pebble s1 es in (a ∷ answers, s2)

-- As many successes as writes.
abbrev pub all_done : List Entry → List (Answer (Unit {0}))
all_done [] = []
all_done (e ∷ es) = ok tt ∷ all_done es

-- The yields of a walk over the entries, up to the first error.
unfoldable pub visit :
    {Y : Type 0} → (Y → List ℕ → List ℕ → Option ℕ × Y) → List Entry → Y → Answer (Unit {0}) × Y
visit yield [] y = (ok tt, y)
visit yield ((k, v) ∷ es) y =
    let (e, y') = yield y k v in
    let rest = visit yield es y' in unless_stopped (λ x. (fail (yield_failed x), y')) rest e

past_guards :
    {A : Type 0} {c f d : Bool} (x y z : A) {r : A}
    → c ≡ false
    → f ≡ false
    → d ≡ true
    → (if c then x else if f then y else if d then r else z) ≡ r
past_guards x y z h k l = rw (h, k, l) refl

pub past_gate :
    {A : Type 0} {c : Bool} {o : Option StoreError} (failed : StoreError → A) (x : A) {r : A}
    → c ≡ false
    → o ≡ none
    → (if c then x else unless_err failed r o) ≡ r
past_gate failed x h k = rw (h, k) refl

stop_or_go :
    {Y : Type 0} (y : Y) {rest : Option (Answer (Unit {0}) × Y)} {next : Answer (Unit {0}) × Y}
    (e : Option ℕ)
    → rest ≡ some next
    → unless_stopped (λ x. some (fail (yield_failed x), y)) rest e
      ≡ some (unless_stopped (λ x. (fail (yield_failed x), y)) next e)
stop_or_go y none h = h
stop_or_go y (some x) h = refl

module _ {B D I : Type 0} (pebble : Pebble B D I) (pending : B → List Entry)
    (stored : D → List Entry) (entries upcoming : I → List Entry)
    (documented : Documented pebble pending stored entries upcoming) where
  open documented use {
    new_batch_empty, set_done, set_appends, commit_done, commit_applies, reset_empties, get_finds,
    iter_of, iter_opens, iter_entries, first_rewinds, valid_iff, next_moves, entry_here, no_error,
  }

  -- The entries that a store holds, those of its batch included.
  abbrev pub held : Store B D → List Entry
  held s = written (pending s.batch) (stored s.db)

  pub record IsWriting (s : Store B D) : Type 0 where
    pub open_still : s.closed ≡ false
    pub not_finalized : s.finalized ≡ false
    pub not_once : s.finalize_once ≡ false
    pub no_err : s.finalize_err ≡ none

  -- A database that has taken the writes of a batch, with the batch reset.
  held_committed :
      (b : B) (d : D)
      → written
          (pending (pebble.batch_reset (pebble.batch_commit b d).1))
          (stored (pebble.batch_commit b d).2)
        ≡ written (pending b) (stored d)
  unfolding written
  held_committed b d = rw (reset_empties (pebble.batch_commit b d).1, commit_applies b d) refl

  -- What a writing method does: it succeeds, and what the store holds is `held_now`.
  pub record Wrote (held_now : List Entry) (r : Answer (Unit {0}) × Store B D) : Type 0 where
    pub done : r.0 ≡ ok tt
    pub writing : IsWriting r.1
    pub holds : held r.1 ≡ held_now

  flush_full-Wrote : (s : Store B D) → IsWriting s → Wrote (held s) (flush_full pebble s)
  unfolding flush_full
  flush_full-Wrote s w = elim (Bool-cases (leb batch_flush_bytes (pebble.batch_len s.batch))) [
    | inl e ↦
        rw (e, commit_done s.batch s.db)
          (record {
            done = refl;
            writing = record {
              open_still = w.open_still;
              not_finalized = w.not_finalized;
              not_once = w.not_once;
              no_err = w.no_err;
            };
            holds = held_committed s.batch s.db;
          })
    | inr e ↦ rw e (record { done = refl; writing = w; holds = refl })
  ]

  pub put-Wrote :
      (s : Store B D) (k v : List ℕ)
      → IsWriting s
      → Wrote (written ((k, v) ∷ []) (held s)) (put pebble s k v)
  unfolding put
  put-Wrote s k v w =
      let f =
        flush_full-Wrote (record s { batch = (pebble.batch_set s.batch k v).1 })
          (record {
            open_still = w.open_still;
            not_finalized = w.not_finalized;
            not_once = w.not_once;
            no_err = w.no_err;
          }) in
      subst (Wrote (written ((k, v) ∷ []) (held s)))
        (sym (past_guards _ _ _ w.open_still w.not_finalized (set_done s.batch k v)))
        (record {
          done = f.done;
          writing = f.writing;
          holds =
              f.holds
              ∙ (ap (λ p. written p (stored s.db)) (set_appends s.batch k v)
                  ∙ written-append (pending s.batch) ((k, v) ∷ []) (stored s.db));
        })

  pub put_all-Wrote :
      (s : Store B D) (es : List Entry)
      → IsWriting s
      → ((put_all pebble s es).0 ≡ all_done es)
        × IsWriting (put_all pebble s es).1
        × (held (put_all pebble s es).1 ≡ written es (held s))
  unfolding put_all written
  put_all-Wrote s [] w = (refl, w, refl)
  put_all-Wrote s ((k, v) ∷ es) w =
      let f = put-Wrote s k v w in
      let r = put_all-Wrote (put pebble s k v).1 es f.writing in
      (rw (f.done, r.0) refl, r.1, r.2 ∙ ap (written es) f.holds)

  -- The gate of a reading method flushes the batch.
  pub auto_finalize-writing :
      (s : Store B D)
      → IsWriting s
      → ((auto_finalize pebble s).0 ≡ none) × (stored (auto_finalize pebble s).1.db ≡ held s)
  unfolding auto_finalize finalize_store finalize_body
  auto_finalize-writing s w =
      rw (w.not_finalized, w.open_still, w.not_once, commit_done s.batch s.db)
        (w.no_err, commit_applies s.batch s.db)

  pub open_reader-writing :
      {R : Type 0} (failed : StoreError → R) (refused : StoreError)
      (read : Store B D → R × Store B D) (s : Store B D)
      → IsWriting s
      → open_reader pebble failed refused read s ≡ read (auto_finalize pebble s).1
  unfolding open_reader
  open_reader-writing failed refused read s w =
      past_gate _ _ w.open_still (auto_finalize-writing s w).0

  get_value-writing :
      (s : Store B D) (k : List ℕ) → IsWriting s → (get_value pebble s k).0 ≡ ok (lookup (held s) k)
  unfolding get_value read_key
  get_value-writing s k w =
      ap (λ r. r.0) (open_reader-writing fail _ (read_key pebble k) s w)
      ∙ rw (get_finds (auto_finalize pebble s).1.db k, (auto_finalize-writing s w).1) refl

  iterate_loop-visit :
      {Y : Type 0} (yield : Y → List ℕ → List ℕ → Option ℕ × Y) (fuel : ℕ) (it : I) (y : Y)
      (es : List Entry)
      → upcoming it ≡ es
      → length es ≤ fuel
      → iterate_loop pebble yield fuel it y ≡ some (visit yield es y)
  unfolding iterate_loop visit
  iterate_loop-visit yield zero it y [] h l = rw (valid_iff it, h, no_error it) refl
  iterate_loop-visit yield zero it y (e ∷ es) h l = absurd (omega arith)
  iterate_loop-visit yield (suc fuel) it y [] h l = rw (valid_iff it, h, no_error it) refl
  iterate_loop-visit yield (suc fuel) it y ((k, v) ∷ es) h l =
      let here = entry_here it (k, v) es h in
      rw (valid_iff it, h, ap (λ e. e.0) here, ap (λ e. e.1) here)
        (stop_or_go (yield y k v).1 (yield y k v).0 (
          iterate_loop-visit yield fuel (pebble.iter_next it) (yield y k v).1 es
            (next_moves it ∙ ap tail h) (omega arith)))

  pub iterate-writing :
      {Y : Type 0} (yield : Y → List ℕ → List ℕ → Option ℕ × Y) (fuel : ℕ) (s : Store B D) (y : Y)
      → IsWriting s
      → length (held s) ≤ fuel
      → (iterate pebble yield fuel s y).0 ≡ some (visit yield (held s) y)
  unfolding iterate read_entries
  iterate-writing yield fuel s y w l =
      let d = (auto_finalize pebble s).1.db in
      let opens : iterate_with pebble yield fuel y (pebble.db_new_iter d)
          ≡ iterate_loop pebble yield fuel (pebble.iter_first (iter_of d)) y =
        rw (iter_opens d) refl in
      ap (λ r. r.0)
        (open_reader-writing (λ e. some (fail e, y)) iterate_after_close
          (read_entries pebble yield fuel y) s w)
      ∙ (opens
          ∙ iterate_loop-visit yield fuel (pebble.iter_first (iter_of d)) y (held s)
              (first_rewinds (iter_of d) ∙ (iter_entries d ∙ (auto_finalize-writing s w).1)) l)

  pub new_store-IsWriting : (d : D) → IsWriting (new_store pebble d)
  unfolding new_store
  new_store-IsWriting d = record {
    open_still = refl;
    not_finalized = refl;
    not_once = refl;
    no_err = refl;
  }

  pub held-new_store : (d : D) → stored d ≡ [] → held (new_store pebble d) ≡ []
  unfolding new_store written
  held-new_store d h = rw (new_batch_empty, h) refl

  -- For a database that behaves as Pebble documents and starts empty: every write of a new store
  -- succeeds, wherever its batch is flushed in between, and a read without `Finalize` sees them all.
  -- `Get` returns the value of the last write of its key, or nothing, and `Iterate` yields the sorted
  -- map of the writes entry by entry up to the first error of `yield`, with as much fuel as writes.
  pub reads_after_puts :
      {Y : Type 0} (yield : Y → List ℕ → List ℕ → Option ℕ × Y) (y : Y) (d : D) (es : List Entry)
      (k : List ℕ) (fuel : ℕ)
      → stored d ≡ []
      → length es ≤ fuel
      → let (answers, s) = put_all pebble (new_store pebble d) es in
        (answers ≡ all_done es)
        × ((get_value pebble s k).0 ≡ ok (newest es k none))
        × ((iterate pebble yield fuel s y).0 ≡ some (visit yield (written es []) y))
  unfolding lookup
  reads_after_puts yield y d es k fuel h l =
      let r = put_all-Wrote (new_store pebble d) es (new_store-IsWriting d) in
      let holds = r.2 ∙ ap (written es) (held-new_store d h) in
      let s = (put_all pebble (new_store pebble d) es).1 in
      (
        r.0,
        get_value-writing s k r.1 ∙ ap ok (ap (λ m. lookup m k) holds ∙ lookup-written es [] k),
        iterate-writing yield fuel s y r.1 (rw holds (omega (arith, length-written es [])))
            ∙ ap (λ m. some (visit yield m y)) holds,
      )
