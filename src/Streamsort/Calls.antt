-- ===== src/Streamsort/Calls.antt =====
-- The calls that a store serves, and sequences of them.
use state_actor.Prelude.{ℕ, Option, none, some, List, [], ◌∷◌}
use state_actor.Streamsort.{
  Pebble, Store, StoreError, put_after_close, finalize_after_close, get_after_close,
  iterate_after_close, new_cursor_after_close, new_getter_after_close, Answer, ok, fail, put,
  finalize_store, get_value, iterate, done_reader,
}
use state_actor.Streamsort.Pull.{new_cursor, new_getter}

-- `done_use` is the `readers.Done()` of a cursor or getter that is closed.
pub data Use : Type 0 where
  put_entry : List ℕ → List ℕ → Use
  finalize_now : Use
  get_key : List ℕ → Use
  walk : (List (List ℕ) → List ℕ → List ℕ → Option ℕ × List (List ℕ)) → ℕ → Use
  open_cursor open_getter done_use : Use

-- The error of a call.
abbrev pub error_of : {A : Type 0} → Answer A → Option StoreError
error_of (ok a) = none
error_of (fail e) = some e

abbrev pub walk_error : {A : Type 0} → Option (Answer (Unit {0}) × A) → Option StoreError
walk_error none = none
walk_error (some r) = error_of r.0

module _ {B D I : Type 0} (pebble : Pebble B D I) where
  unfoldable pub use_store : Store B D → Use → Option StoreError × Store B D
  unfolding put finalize_store get_value iterate new_cursor new_getter
  use_store s (put_entry k v) = let (a, s') = put pebble s k v in (error_of a, s')
  use_store s finalize_now = finalize_store pebble s
  use_store s (get_key k) = let (a, s') = get_value pebble s k in (error_of a, s')
  use_store s (walk yield fuel) = let (a, s') = iterate pebble yield fuel s [] in (walk_error a, s')
  use_store s open_cursor = let (a, s') = new_cursor pebble s in (error_of a, s')
  use_store s open_getter = let (a, s') = new_getter pebble s in (error_of a, s')
  use_store s done_use = (none, done_reader pebble s)

  unfoldable pub use_all : Store B D → List Use → Store B D
  unfolding use_store
  use_all s [] = s
  use_all s (u ∷ us) = use_all (use_store s u).1 us

-- What a closed store answers.
abbrev pub refusal : Use → Option StoreError
refusal (put_entry k v) = some put_after_close
refusal finalize_now = some finalize_after_close
refusal (get_key k) = some get_after_close
refusal (walk yield fuel) = some iterate_after_close
refusal open_cursor = some new_cursor_after_close
refusal open_getter = some new_getter_after_close
refusal done_use = none
