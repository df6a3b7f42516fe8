-- ===== src/Streamsort/Lookup.antt =====
-- The pull readers: a getter and a cursor on what was written.
use state_actor.Bytes.{same_bytes}
use state_actor.Prelude.{
  ℕ, zero, suc, ◌≤◌, ◌≡◌, refl, ap, ◌∙◌, arith, ◌&&◌, Option, none, some, List, [], ◌∷◌, length,
  and_then, if◌then◌else◌,
}
use state_actor.Streamsort.{
  Pebble, ok, fail, new_getter_after_close, new_cursor_after_close, new_store, auto_finalize,
  add_reader,
}
use state_actor.Streamsort.Pull.{
  Cursor, Getter, new_cursor, cursor_on, cursor_valid, cursor_next, cursor_entry, new_getter,
  getter_on, getter_get,
}
use state_actor.Streamsort.Keys.{
  Entry, written, lookup, newest, from_key, first_value, first_value-from_key, lookup-written,
  written-Ascending, length-written,
}
use state_actor.Streamsort.Contract.{Documented, tail}
use state_actor.Streamsort.Reads.{
  put_all, put_all-Wrote, new_store-IsWriting, held-new_store, auto_finalize-writing,
  open_reader-writing,
}

-- A loop over the entries of a cursor, with fuel.
unfoldable pub cursor_walk : {B D I : Type 0} → Pebble B D I → ℕ → Cursor I → Option (List Entry)
unfolding cursor_valid cursor_next cursor_entry
cursor_walk pebble zero c =
    and_then (cursor_valid pebble c) (λ more. if more then none else some [])
cursor_walk pebble (suc fuel) c = and_then (cursor_valid pebble c) (λ more.
    let rest = and_then (cursor_entry pebble c) (λ e.
      and_then (cursor_next pebble c)
        (λ r. and_then (cursor_walk pebble fuel r.1) (λ es. some (e ∷ es)))) in
    if more then rest else some [])

-- A sequence of lookups on one getter; an iterator error ends it.
unfoldable pub lookups :
    {B D I : Type 0} → Pebble B D I → Getter I → List (List ℕ) → Option (List (Option (List ℕ)))
unfolding getter_get
lookups pebble g [] = some []
lookups pebble g (k ∷ ks) = and_then (getter_get pebble g k) (λ r.
    let rest = and_then (lookups pebble r.2 ks) (λ vs. some (r.0 ∷ vs)) in
    if r.1 then none else rest)

-- The values of the last writes.
unfoldable pub newest_of : List Entry → List (List ℕ) → List (Option (List ℕ))
unfolding newest
newest_of es [] = []
newest_of es (k ∷ ks) = newest es k none ∷ newest_of es ks

module _ {B D I : Type 0} (pebble : Pebble B D I) (pending : B → List Entry)
    (stored : D → List Entry) (entries upcoming : I → List Entry)
    (documented : Documented pebble pending stored entries upcoming) where
  open documented use {
    iter_of, iter_opens, iter_entries, first_rewinds, seek_finds, seek_keeps, valid_iff, next_moves,
    entry_here, no_error,
  }

  found_by :
      (it : I) (k : List ℕ) (es : List Entry)
      → upcoming it ≡ es
      → (if pebble.iter_valid it && same_bytes (pebble.iter_key it) k
          then some (pebble.iter_value it)
          else none)
        ≡ first_value es k
  found_by it k [] h = rw (valid_iff it, h) refl
  found_by it k ((a, b) ∷ es) h =
      let here = entry_here it (a, b) es h in
      rw (valid_iff it, h, ap (λ e. e.0) here, ap (λ e. e.1) here) refl

  lookups-newest_of :
      (it : I) (es : List Entry) (ks : List (List ℕ))
      → entries it ≡ written es []
      → lookups pebble (record { iter = some it }) ks ≡ some (newest_of es ks)
  unfolding lookups getter_get newest_of lookup
  lookups-newest_of it es [] h = refl
  lookups-newest_of it es (k ∷ ks) h =
      let it' = pebble.iter_seek_ge it k in
      let found =
        found_by it' k (from_key k (written es [])) (seek_finds it k ∙ ap (from_key k) h)
        ∙ (first_value-from_key k (written es []) (written-Ascending es [] tt)
            ∙ lookup-written es [] k) in
      rw (found, no_error it', lookups-newest_of it' es ks (seek_keeps it k ∙ h)) refl

  cursor_walk-entries :
      (fuel : ℕ) (it : I) (es : List Entry)
      → upcoming it ≡ es
      → length es ≤ fuel
      → cursor_walk pebble fuel (record { iter = some it }) ≡ some es
  unfolding cursor_walk cursor_valid cursor_next cursor_entry
  cursor_walk-entries zero it [] h l = rw (valid_iff it, h) refl
  cursor_walk-entries zero it (e ∷ es) h l = absurd (omega arith)
  cursor_walk-entries (suc fuel) it [] h l = rw (valid_iff it, h) refl
  cursor_walk-entries (suc fuel) it (e ∷ es) h l =
      let IH =
        cursor_walk-entries fuel (pebble.iter_next it) es (next_moves it ∙ ap tail h)
          (omega arith) in
      rw (valid_iff it, h, IH, entry_here it e es h) refl

  -- For a database that behaves as Pebble documents and starts empty, after any writes to a new
  -- store: a getter opened on it answers any sequence of lookups with the values of the last writes,
  -- and a cursor walks over the sorted map of the writes, with as much fuel as writes. Each of the two
  -- keeps one reader reference.
  pub pull_readers :
      (d : D) (es : List Entry) (ks : List (List ℕ)) (fuel : ℕ)
      → stored d ≡ []
      → length es ≤ fuel
      → let s = (put_all pebble (new_store pebble d) es).1 in
        ((g : Getter I) × (new_getter pebble s
            ≡ (ok g, add_reader pebble (auto_finalize pebble s).1))
          × (lookups pebble g ks ≡ some (newest_of es ks)))
        × ((c : Cursor I) × (new_cursor pebble s
              ≡ (ok c, add_reader pebble (auto_finalize pebble s).1))
            × (cursor_walk pebble fuel c ≡ some (written es [])))
  unfolding new_getter new_cursor
  pull_readers d es ks fuel h l =
      let r =
        put_all-Wrote pebble pending stored entries upcoming documented (new_store pebble d) es
          (new_store-IsWriting pebble pending stored entries upcoming documented d) in
      let s = (put_all pebble (new_store pebble d) es).1 in
      let d' = (auto_finalize pebble s).1.db in
      let holds =
        iter_entries d'
        ∙ ((auto_finalize-writing pebble pending stored entries upcoming documented s r.1).1
            ∙ (r.2
                ∙ ap (written es)
                    (held-new_store pebble pending stored entries upcoming documented d h))) in
      (
        (
          record { iter = some (iter_of d') },
          open_reader-writing pebble pending stored entries upcoming documented fail
                new_getter_after_close
                (λ s1. getter_on pebble (add_reader pebble s1) (pebble.db_new_iter s1.db)) s r.1
              ∙ rw (iter_opens d') refl,
          lookups-newest_of (iter_of d') es ks holds,
        ),
        (
          record { iter = some (pebble.iter_first (iter_of d')) },
          open_reader-writing pebble pending stored entries upcoming documented fail
                new_cursor_after_close
                (λ s1. cursor_on pebble (add_reader pebble s1) (pebble.db_new_iter s1.db)) s r.1
              ∙ rw (iter_opens d') refl,
          cursor_walk-entries fuel (pebble.iter_first (iter_of d')) (written es [])
              (first_rewinds (iter_of d') ∙ holds) (omega (arith, length-written es [])),
        ),
      )
