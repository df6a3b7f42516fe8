-- ===== src/Streamsort/Readers.antt =====
-- Readers against `Close`, on a store that is finalized: the atomic steps of each goroutine, in any
-- order. A reading method loads `closed`, then counts itself in `readers`, and then works on the
-- database until `readers.Done()`; a cursor or a getter stays in that last part while it is open.
pub mod Safety
pub mod Races
use state_actor.Prelude.{ℕ, ◌+◌, ◌-◌, ◌≡◌, Bool, true, false, List, [], ◌∷◌, ◌++◌, if◌then◌else◌}

pub data Reader : Type 0 where
  at_start checked reading finished : Reader

pub data Closer : Type 0 where
  before_close draining closing closed_db : Closer

pub record Shared : Type 0 where
  pub closed : Bool
  pub readers : ℕ
  pub db_closed : Bool
  pub closer : Closer
  pub threads : List Reader

abbrev pub new_shared : Shared
new_shared = record {
  closed = false;
  readers = 0;
  db_closed = false;
  closer = before_close;
  threads = [];
}

-- `if s.closed.Load() { return … }`, by the thread between `xs` and `ys`
abbrev pub load_closed : Shared → List Reader → List Reader → Shared
load_closed s xs ys = record s { threads = xs ++ ((if s.closed then finished else checked) ∷ ys) }

-- `s.readers.Add(1)`
abbrev pub count_reader : Shared → List Reader → List Reader → Shared
count_reader s xs ys = record s { readers = s.readers + 1; threads = xs ++ (reading ∷ ys) }

-- `s.readers.Done()`
abbrev pub uncount_reader : Shared → List Reader → List Reader → Shared
uncount_reader s xs ys = record s { readers = s.readers - 1; threads = xs ++ (finished ∷ ys) }

-- `s.closed.Swap(true)`
abbrev pub swap_closed : Shared → Shared
swap_closed s = record s { closed = true; closer = draining }

-- `s.readers.Wait()`, which returns when no reader is counted
abbrev pub end_wait : Shared → Shared
end_wait s = record s { closer = closing }

-- `s.db.Close()`
abbrev pub close_db : Shared → Shared
close_db s = record s { db_closed = true; closer = closed_db }

pub data Step (s : Shared) : Shared → Type 0 where
  arrive : Step s (record s { threads = at_start ∷ s.threads })
  load : (xs ys : List Reader) → s.threads ≡ xs ++ (at_start ∷ ys) → Step s (load_closed s xs ys)
  count : (xs ys : List Reader) → s.threads ≡ xs ++ (checked ∷ ys) → Step s (count_reader s xs ys)
  uncount :
      (xs ys : List Reader) → s.threads ≡ xs ++ (reading ∷ ys) → Step s (uncount_reader s xs ys)
  swap : s.closer ≡ before_close → Step s (swap_closed s)
  waited : s.closer ≡ draining → s.readers ≡ 0 → Step s (end_wait s)
  shut_db : s.closer ≡ closing → Step s (close_db s)

pub data Reach (s : Shared) : Shared → Type 0 where
  here : Reach s s
  then_step : {t u : Shared} → Reach s t → Step t u → Reach s u

-- How many threads are at a point.
unfoldable pub number : (Reader → Bool) → List Reader → ℕ
number test [] = 0
number test (r ∷ rs) = let rest = number test rs in if test r then 1 + rest else rest

abbrev pub is_checked : Reader → Bool
is_checked checked = true
is_checked _ = false

abbrev pub is_reading : Reader → Bool
is_reading reading = true
is_reading _ = false
