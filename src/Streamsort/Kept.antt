-- ===== src/Streamsort/Kept.antt =====
-- The induction over calls: what the steps of the methods keep, every sequence of calls keeps.
use mathlib.Core.Bool.{true≢false}
use state_actor.Prelude.{
  ℕ, ◌+◌, ◌-◌, ◌≡◌, refl, sym, ◌∙◌, Bool, true, false, Option, none, some, List, [], ◌∷◌, leb,
  if◌then◌else◌,
}
use state_actor.Streamsort.{
  Pebble, Store, StoreError, Answer, fail, put, flush_full, finalize_store, auto_finalize,
  open_reader, unless_err, get_value, read_key, iterate, read_entries, get_after_close,
  iterate_after_close, new_cursor_after_close, new_getter_after_close, batch_flush_bytes,
  add_reader,
}
use state_actor.Streamsort.Pull.{new_cursor, cursor_on, new_getter, getter_on, Cursor, Getter}
use state_actor.Streamsort.Calls.{
  Use, put_entry, finalize_now, get_key, walk, open_cursor, open_getter, done_use, use_store,
  use_all,
}

-- What holds of both branches holds of the conditional.
pub either :
    {A : Type 0} (P : A → Type 0) {x y : A} (b : Bool)
    → (b ≡ true → P x)
    → (b ≡ false → P y)
    → P (if b then x else y)
either P true h k = h refl
either P false h k = k refl

pub if_true : {A : Type 0} {b : Bool} {x : A} (y : A) → b ≡ true → (if b then x else y) ≡ x
if_true y h = rw h refl

pub if_false : {A : Type 0} {b : Bool} (x : A) {y : A} → b ≡ false → (if b then x else y) ≡ y
if_false x h = rw h refl

pub clash : {A : Type 0} {b : Bool} → b ≡ true → b ≡ false → A
clash h k = absurd (true≢false (sym h ∙ k))

either_err :
    {A : Type 0} (P : A → Type 0) (failed : StoreError → A) {next : A} (e : Option StoreError)
    → ((x : StoreError) → P (failed x))
    → P next
    → P (unless_err failed next e)
either_err P failed none h k = k
either_err P failed (some x) h k = h x

module _ {B D I : Type 0} (pebble : Pebble B D I) where
  -- A property of the store that the steps of the methods keep: a batch and a database that change
  -- before `finalized` is set, reader references, and `Finalize`.
  pub record IsKept (P : Store B D → Type 0) : Type 0 where
    pub writes :
        (s : Store B D) (b : B) (d : D)
        → s.closed ≡ false
        → s.finalized ≡ false
        → P s
        → P (record s { batch = b; db = d })
    pub counts : (s : Store B D) (n : ℕ) → P s → P (record s { readers = n })
    pub finalizes : (s : Store B D) → P s → P (finalize_store pebble s).1

  module _ (P : Store B D → Type 0) (kept : IsKept P) where
    open kept use {writes, counts, finalizes}

    put-keeps : (s : Store B D) (k v : List ℕ) → P s → P (put pebble s k v).1
    unfolding put flush_full
    put-keeps s k v h =
        let Q : Answer (Unit {0}) × Store B D → Type 0 = λ r. P r.1 in
        let (set, b) = pebble.batch_set s.batch k v in
        let (done, b', d) = pebble.batch_commit b s.db in
        either Q s.closed (λ c. h)
          (λ c.
            either Q s.finalized (λ f. h)
              (λ f.
                either Q set
                  (λ e.
                    either Q (leb batch_flush_bytes (pebble.batch_len b))
                      (λ l.
                        either Q done (λ q. writes s (pebble.batch_reset b') d c f h)
                          (λ q. writes s b' d c f h))
                      (λ l. writes s b s.db c f h))
                  (λ e. writes s b s.db c f h)))

    auto_finalize-keeps : (s : Store B D) → P s → P (auto_finalize pebble s).1
    unfolding auto_finalize
    auto_finalize-keeps s h =
        either (λ (r : Option StoreError × Store B D). P r.1) s.finalized (λ f. h)
          (λ f. finalizes s h)

    open_reader-keeps :
        {R : Type 0} (failed : StoreError → R) (refused : StoreError)
        (read : Store B D → R × Store B D) (s : Store B D)
        → ((t : Store B D) → P t → P (read t).1)
        → P s
        → P (open_reader pebble failed refused read s).1
    unfolding open_reader
    open_reader-keeps {R} failed refused read s reads h =
        let Q : R × Store B D → Type 0 = λ r. P r.1 in
        let s' = (auto_finalize pebble s).1 in
        either Q s.closed (λ c. h)
          (λ c.
            either_err Q (λ x. (failed x, s')) (auto_finalize pebble s).0
              (λ x. auto_finalize-keeps s h) (reads s' (auto_finalize-keeps s h)))

    cursor_on-keeps : (s : Store B D) (o : Option I) → P s → P (cursor_on pebble s o).1
    cursor_on-keeps s none h = counts s (s.readers - 1) h
    cursor_on-keeps s (some it) h = h

    getter_on-keeps : (s : Store B D) (o : Option I) → P s → P (getter_on pebble s o).1
    getter_on-keeps s none h = counts s (s.readers - 1) h
    getter_on-keeps s (some it) h = h

    pub use_store-keeps : (s : Store B D) (u : Use) → P s → P (use_store pebble s u).1
    unfolding use_store get_value iterate read_key read_entries new_cursor new_getter
    use_store-keeps s (put_entry k v) h = put-keeps s k v h
    use_store-keeps s finalize_now h = finalizes s h
    use_store-keeps s (get_key k) h =
        open_reader-keeps fail get_after_close (read_key pebble k) s
          (λ t p. counts t (t.readers + 1 - 1) p) h
    use_store-keeps s (walk yield fuel) h =
        open_reader-keeps (λ e. some (fail e, [])) iterate_after_close
          (read_entries pebble yield fuel []) s (λ t p. counts t (t.readers + 1 - 1) p) h
    use_store-keeps s open_cursor h =
        open_reader-keeps {R = Answer (Cursor I)} fail new_cursor_after_close
          (λ t. cursor_on pebble (add_reader pebble t) (pebble.db_new_iter t.db)) s
          (λ t p.
            cursor_on-keeps (add_reader pebble t) (pebble.db_new_iter t.db)
              (counts t (t.readers + 1) p))
          h
    use_store-keeps s open_getter h =
        open_reader-keeps {R = Answer (Getter I)} fail new_getter_after_close
          (λ t. getter_on pebble (add_reader pebble t) (pebble.db_new_iter t.db)) s
          (λ t p.
            getter_on-keeps (add_reader pebble t) (pebble.db_new_iter t.db)
              (counts t (t.readers + 1) p))
          h
    use_store-keeps s done_use h = counts s (s.readers - 1) h

    pub use_all-keeps : (s : Store B D) (us : List Use) → P s → P (use_all pebble s us)
    unfolding use_all
    use_all-keeps s [] h = h
    use_all-keeps s (u ∷ us) h = use_all-keeps (use_store pebble s u).1 us (use_store-keeps s u h)
