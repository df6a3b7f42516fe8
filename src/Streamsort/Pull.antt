-- ===== src/Streamsort/Pull.antt =====
-- internal/streamsort/streamsort.go: Cursor and Getter, the readers that their caller drives.
use state_actor.Bytes.{same_bytes}
use state_actor.Streamsort.{
  Pebble, Store, new_cursor_after_close, new_getter_after_close, new_cursor_iter_failed,
  new_getter_iter_failed, iter_close_failed, Answer, ok, fail, open_reader, add_reader, done_reader,
}
use state_actor.Prelude.{ℕ, Bool, ◌&&◌, Option, none, some, List, if◌then◌else◌}

-- `Cursor` and `Getter`: an iterator, nil after `Close`.
pub record Cursor (I : Type 0) : Type 0 where
  pub iter : Option I

pub record Getter (I : Type 0) : Type 0 where
  pub iter : Option I

module _ {B D I : Type 0} (pebble : Pebble B D I) where
  -- The reader reference stays with the cursor that is handed out.
  abbrev pub cursor_on : Store B D → Option I → Answer (Cursor I) × Store B D
  cursor_on s none = (fail new_cursor_iter_failed, done_reader pebble s)
  cursor_on s (some it) = (ok (record { iter = some (pebble.iter_first it) }), s)

  unfoldable pub new_cursor : Store B D → Answer (Cursor I) × Store B D
  unfolding open_reader
  new_cursor =
      open_reader pebble fail new_cursor_after_close
        (λ s. let s' = add_reader pebble s in cursor_on s' (pebble.db_new_iter s'.db))

  -- The methods of a cursor; `none` is the panic of a nil iterator.
  unfoldable pub cursor_valid : Cursor I → Option Bool
  cursor_valid c = elim c.iter [ none ↦ none | some it ↦ some (pebble.iter_valid it) ]

  unfoldable pub cursor_next : Cursor I → Option (Bool × Cursor I)
  cursor_next c = elim c.iter [
    | none ↦ none
    | some it ↦
        (let it' = pebble.iter_next it in some (pebble.iter_valid it', record { iter = some it' }))
  ]

  unfoldable pub cursor_entry : Cursor I → Option (List ℕ × List ℕ)
  cursor_entry c = elim c.iter [
    | none ↦ none
    | some it ↦ some (pebble.iter_key it, pebble.iter_value it)
  ]

  unfoldable pub cursor_err : Cursor I → Option Bool
  cursor_err c = elim c.iter [ none ↦ none | some it ↦ some (pebble.iter_error it) ]

  abbrev pub close_iter : I → Answer (Unit {0})
  close_iter it = if pebble.iter_close it then ok tt else fail iter_close_failed

  unfoldable pub cursor_close : Cursor I → Store B D → Answer (Unit {0}) × Cursor I × Store B D
  cursor_close c s = elim c.iter [
    | none ↦ (ok tt, c, s)
    | some it ↦ (close_iter it, record { iter = none }, done_reader pebble s)
  ]

  abbrev pub getter_on : Store B D → Option I → Answer (Getter I) × Store B D
  getter_on s none = (fail new_getter_iter_failed, done_reader pebble s)
  getter_on s (some it) = (ok (record { iter = some it }), s)

  unfoldable pub new_getter : Store B D → Answer (Getter I) × Store B D
  unfolding open_reader
  new_getter =
      open_reader pebble fail new_getter_after_close
        (λ s. let s' = add_reader pebble s in getter_on s' (pebble.db_new_iter s'.db))

  -- The value, whether the iterator has an error, and the getter with its iterator moved.
  unfoldable pub getter_get : Getter I → List ℕ → Option (Option (List ℕ) × Bool × Getter I)
  getter_get g key = elim g.iter [
    | none ↦ none
    | some it ↦
        (let it' = pebble.iter_seek_ge it key in
          let found =
            if pebble.iter_valid it' && same_bytes (pebble.iter_key it') key
            then some (pebble.iter_value it')
            else none in
          some (found, pebble.iter_error it', record { iter = some it' }))
  ]

  unfoldable pub getter_close : Getter I → Store B D → Answer (Unit {0}) × Getter I × Store B D
  getter_close g s = elim g.iter [
    | none ↦ (ok tt, g, s)
    | some it ↦ (close_iter it, record { iter = none }, done_reader pebble s)
  ]
