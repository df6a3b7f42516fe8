-- ===== src/Streamsort.antt =====
-- internal/streamsort/streamsort.go: the spill store, one goroutine at a time. Pebble, the file
-- system and the cache are parameters; a failed call of them is `false` or `none`. A method returns
-- what it returns and the store as it leaves it.
pub mod Keys
pub mod Pull
pub mod Contract
pub mod Reads
pub mod Lookup
pub mod Calls
pub mod Kept
pub mod Lifecycle
pub mod Readers
pub mod Options
pub mod Examples
use state_actor.Bytes.{same_bytes}
use state_actor.Prelude.{
  ℕ, zero, suc, ◌+◌, ◌-◌, ◌*◌, ◌^◌, Bool, true, false, ◌&&◌, Option, none, some, List, leb, ◌==◌,
  if◌then◌else◌,
}

-- `pebble.Batch`, `pebble.DB` and `pebble.Iterator`. `db_get` is `none` on an error and `some none`
-- on `ErrNotFound`; `iter_error` is true when an error has been accumulated.
pub record Pebble (B D I : Type 0) : Type 0 where
  pub new_batch : B
  pub batch_set : B → List ℕ → List ℕ → Bool × B
  pub batch_len : B → ℕ
  pub batch_commit : B → D → Bool × B × D
  pub batch_reset : B → B
  pub db_get : D → List ℕ → Option (Option (List ℕ))
  pub db_new_iter : D → Option I
  pub db_close : D → Bool × D
  pub iter_first : I → I
  pub iter_seek_ge : I → List ℕ → I
  pub iter_valid : I → Bool
  pub iter_next : I → I
  pub iter_key : I → List ℕ
  pub iter_value : I → List ℕ
  pub iter_error : I → Bool
  pub iter_close : I → Bool

pub data StoreError : Type 0 where
  put_after_close put_after_finalize finalize_after_close get_after_close iterate_after_close
        new_cursor_after_close new_getter_after_close batch_set_failed batch_commit_failed
        finalize_commit_failed db_get_failed iterate_iter_failed new_cursor_iter_failed
        new_getter_iter_failed iter_failed iter_close_failed final_commit_failed db_close_failed :
      StoreError
  yield_failed : ℕ → StoreError

pub data Answer (A : Type 0) : Type 0 where
  ok : A → Answer A
  fail : StoreError → Answer A

-- 64 << 20
abbrev pub batch_flush_bytes : ℕ
batch_flush_bytes = 64 * 2 ^ 20

-- `finalize_once` is true once `finalizeOnce.Do` has run its function.
pub record Store (B D : Type 0) : Type 0 where
  pub db : D
  pub batch : B
  pub finalized : Bool
  pub finalize_once : Bool
  pub finalize_err : Option StoreError
  pub readers : ℕ
  pub closed : Bool

-- `if err != nil { return … }`
abbrev pub unless_err {ℓ} : {A : Type ℓ} → (StoreError → A) → A → Option StoreError → A
unless_err failed next none = next
unless_err failed next (some e) = failed e

-- The same after `yield`, whose error has a number.
abbrev pub unless_stopped {ℓ} : {A : Type ℓ} → (ℕ → A) → A → Option ℕ → A
unless_stopped stopped next none = next
unless_stopped stopped next (some e) = stopped e

module _ {B D I : Type 0} (pebble : Pebble B D I) where
  unfoldable pub new_store : D → Store B D
  new_store d = record {
    db = d;
    batch = pebble.new_batch;
    finalized = false;
    finalize_once = false;
    finalize_err = none;
    readers = 0;
    closed = false;
  }

  -- The flush of a batch that has reached its size.
  unfoldable pub flush_full : Store B D → Answer (Unit {0}) × Store B D
  flush_full s =
      if leb batch_flush_bytes (pebble.batch_len s.batch)
      then (let (done, b, d) = pebble.batch_commit s.batch s.db in
          if done
          then (ok tt, record s { batch = pebble.batch_reset b; db = d })
          else (fail batch_commit_failed, record s { batch = b; db = d }))
      else (ok tt, s)

  unfoldable pub put : Store B D → List ℕ → List ℕ → Answer (Unit {0}) × Store B D
  unfolding flush_full
  put s key value =
      if s.closed
      then (fail put_after_close, s)
      else if s.finalized
      then (fail put_after_finalize, s)
      else (let (done, b) = pebble.batch_set s.batch key value in
          let s' : Store B D = record s { batch = b } in
          let flushed = flush_full s' in if done then flushed else (fail batch_set_failed, s'))

  -- The function that `finalizeOnce` runs.
  unfoldable pub finalize_body : Store B D → Store B D
  finalize_body s =
      let (done, b, d) = pebble.batch_commit s.batch s.db in
      if done
      then record s { finalize_once = true; batch = pebble.batch_reset b; db = d; finalized = true }
      else record s {
        finalize_once = true;
        batch = b;
        db = d;
        finalize_err = some finalize_commit_failed;
      }

  unfoldable pub finalize_store : Store B D → Option StoreError × Store B D
  unfolding finalize_body
  finalize_store s =
      if s.closed
      then (some finalize_after_close, s)
      else (let s' = if s.finalize_once then s else finalize_body s in (s'.finalize_err, s'))

  -- The gate of the four reading methods: `if !s.finalized.Load()`.
  unfoldable pub auto_finalize : Store B D → Option StoreError × Store B D
  unfolding finalize_store
  auto_finalize s = let f = finalize_store s in if s.finalized then (none, s) else f

  -- A reading method: refused after `Close`, behind the gate, and then what it reads.
  unfoldable pub open_reader :
      {R : Type 0}
      → (StoreError → R)
      → StoreError
      → (Store B D → R × Store B D)
      → Store B D
      → R × Store B D
  unfolding auto_finalize
  open_reader failed refused read s =
      if s.closed
      then (failed refused, s)
      else (let (e, s') = auto_finalize s in unless_err (λ x. (failed x, s')) (read s') e)

  -- `readers.Add(1)` and `readers.Done()`.
  abbrev pub add_reader : Store B D → Store B D
  add_reader s = record s { readers = s.readers + 1 }

  abbrev pub done_reader : Store B D → Store B D
  done_reader s = record s { readers = s.readers - 1 }

  abbrev pub got : Option (Option (List ℕ)) → Answer (Option (List ℕ))
  got none = fail db_get_failed
  got (some v) = ok v

  unfoldable pub read_key : List ℕ → Store B D → Answer (Option (List ℕ)) × Store B D
  read_key key s = let s' = add_reader s in (got (pebble.db_get s'.db key), done_reader s')

  unfoldable pub get_value : Store B D → List ℕ → Answer (Option (List ℕ)) × Store B D
  unfolding open_reader read_key
  get_value s key = open_reader fail get_after_close (read_key key) s

  -- The loop of `Iterate`, for at most `fuel` entries: `none` when they do not suffice. `yield`
  -- changes what its closure holds, and its error has a number.
  unfoldable pub iterate_loop :
      {Y : Type 0}
      → (Y → List ℕ → List ℕ → Option ℕ × Y)
      → ℕ
      → I
      → Y
      → Option (Answer (Unit {0}) × Y)
  iterate_loop yield zero it y =
      if pebble.iter_valid it
      then none
      else some (if pebble.iter_error it then fail iter_failed else ok tt, y)
  iterate_loop yield (suc fuel) it y =
      let (e, y') = yield y (pebble.iter_key it) (pebble.iter_value it) in
      let rest = iterate_loop yield fuel (pebble.iter_next it) y' in
      if pebble.iter_valid it
      then unless_stopped (λ x. some (fail (yield_failed x), y')) rest e
      else some (if pebble.iter_error it then fail iter_failed else ok tt, y)

  abbrev pub iterate_with :
      {Y : Type 0}
      → (Y → List ℕ → List ℕ → Option ℕ × Y)
      → ℕ
      → Y
      → Option I
      → Option (Answer (Unit {0}) × Y)
  iterate_with yield fuel y none = some (fail iterate_iter_failed, y)
  iterate_with yield fuel y (some it) = iterate_loop yield fuel (pebble.iter_first it) y

  unfoldable pub read_entries :
      {Y : Type 0}
      → (Y → List ℕ → List ℕ → Option ℕ × Y)
      → ℕ
      → Y
      → Store B D
      → Option (Answer (Unit {0}) × Y) × Store B D
  unfolding iterate_loop
  read_entries yield fuel y s =
      let s' = add_reader s in
      (iterate_with yield fuel y (pebble.db_new_iter s'.db), done_reader s')

  unfoldable pub iterate :
      {Y : Type 0}
      → (Y → List ℕ → List ℕ → Option ℕ × Y)
      → ℕ
      → Store B D
      → Y
      → Option (Answer (Unit {0}) × Y) × Store B D
  unfolding open_reader read_entries
  iterate yield fuel s y =
      open_reader (λ e. some (fail e, y)) iterate_after_close (read_entries yield fuel y) s

  -- What `Close` flushes.
  unfoldable pub flush_last : Store B D → Option StoreError × Store B D
  flush_last s =
      if s.finalized
      then (none, s)
      else (let (done, b, d) = pebble.batch_commit s.batch s.db in
          (
            if done then none else some final_commit_failed,
            record s { batch = pebble.batch_reset b; db = d },
          ))

  -- The first error: `firstErr`, or that of `db.Close`.
  abbrev pub first_error : Option StoreError → Bool → Answer (Unit {0})
  first_error (some e) done = fail e
  first_error none true = ok tt
  first_error none false = fail db_close_failed

  -- `Close`: while readers are in flight it waits, and does not return.
  unfoldable pub close_store : Store B D → Option (Answer (Unit {0}) × Store B D)
  unfolding flush_last
  close_store s =
      if s.closed
      then some (ok tt, s)
      else (let s1 : Store B D = record s { closed = true } in
          let (e, s') = flush_last s1 in
          let (done, d) = pebble.db_close s'.db in
          if s'.readers == 0 then some (first_error e done, record s' { db = d }) else none)
