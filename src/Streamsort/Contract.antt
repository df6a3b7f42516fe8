-- ===== src/Streamsort/Contract.antt =====
-- What the store relies on: the documented behaviour of Pebble, for calls that do not fail. A batch
-- holds its writes in order, a commit applies them to the sorted map of the database, and an
-- iterator walks over that map.
use state_actor.Prelude.{ℕ, ◌≡◌, Bool, true, false, some, List, [], ◌∷◌, ◌++◌}
use state_actor.Streamsort.{Pebble}
use state_actor.Streamsort.Keys.{Entry, written, lookup, from_key}

-- Whether there is an entry, and the entries behind it.
abbrev pub has_entry : List Entry → Bool
has_entry [] = false
has_entry (e ∷ es) = true

abbrev pub tail : List Entry → List Entry
tail [] = []
tail (e ∷ es) = es

-- `pending` are the writes of a batch, `stored` the entries of a database, `entries` those an
-- iterator was opened on and `upcoming` those from its position on.
pub record Documented {B D I : Type 0} (pebble : Pebble B D I) (pending : B → List Entry)
    (stored : D → List Entry) (entries upcoming : I → List Entry) : Type 0 where
  pub new_batch_empty : pending pebble.new_batch ≡ []
  pub set_done : (b : B) (k v : List ℕ) → (pebble.batch_set b k v).0 ≡ true
  pub set_appends :
      (b : B) (k v : List ℕ) → pending (pebble.batch_set b k v).1 ≡ pending b ++ ((k, v) ∷ [])
  pub commit_done : (b : B) (d : D) → (pebble.batch_commit b d).0 ≡ true
  pub commit_applies :
      (b : B) (d : D) → stored (pebble.batch_commit b d).2 ≡ written (pending b) (stored d)
  pub reset_empties : (b : B) → pending (pebble.batch_reset b) ≡ []
  pub get_finds : (d : D) (k : List ℕ) → pebble.db_get d k ≡ some (lookup (stored d) k)
  pub iter_of : D → I
  pub iter_opens : (d : D) → pebble.db_new_iter d ≡ some (iter_of d)
  pub iter_entries : (d : D) → entries (iter_of d) ≡ stored d
  pub first_rewinds : (it : I) → upcoming (pebble.iter_first it) ≡ entries it
  pub seek_finds :
      (it : I) (k : List ℕ) → upcoming (pebble.iter_seek_ge it k) ≡ from_key k (entries it)
  pub seek_keeps : (it : I) (k : List ℕ) → entries (pebble.iter_seek_ge it k) ≡ entries it
  pub valid_iff : (it : I) → pebble.iter_valid it ≡ has_entry (upcoming it)
  pub next_moves : (it : I) → upcoming (pebble.iter_next it) ≡ tail (upcoming it)
  pub entry_here :
      (it : I) (e : Entry) (es : List Entry)
      → upcoming it ≡ e ∷ es
      → (pebble.iter_key it, pebble.iter_value it) ≡ e
  pub no_error : (it : I) → pebble.iter_error it ≡ false
