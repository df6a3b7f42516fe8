-- ===== src/Streamsort/Examples.antt =====
-- Runs of the spill store over a database of lists, whose batch is full after every write.
use state_actor.Prelude.{
  ℕ, ◌*◌, ◌≤◌, ◌≡◌, refl, ap, arith, ◌↔◌, true, false, Option, none, some, List, [], ◌∷◌, ◌++◌,
  length,
}
use state_actor.Streamsort.{
  Pebble, Store, ok, fail, put_after_finalize, batch_flush_bytes, put, new_store, finalize_store,
  auto_finalize, get_value, iterate, add_reader,
}
use state_actor.Streamsort.Pull.{Cursor, Getter, new_cursor, new_getter}
use state_actor.Streamsort.Keys.{Entry, written, lookup, newest, from_key}
use state_actor.Streamsort.Contract.{Documented, has_entry, tail}
use state_actor.Streamsort.Reads.{put_all, visit, reads_after_puts}
use state_actor.Streamsort.Lookup.{cursor_walk, lookups, newest_of, pull_readers}
use state_actor.Streamsort.Calls.{Use, put_entry, get_key, open_cursor, use_all}
use state_actor.Streamsort.Lifecycle.{finalize_cached, sealed_reads}
use state_actor.Streamsort.Readers.{
  Shared, new_shared, Step, arrive, load, swap, Reach, here, then_step, number, is_checked,
  is_reading, checked, draining, closing,
}
use state_actor.Streamsort.Readers.Races.{closed_under_reader_iff, close_ends}

abbrev pub Rows : Type 0
Rows = List Entry

abbrev pub key_of : Rows → List ℕ
key_of [] = []
key_of (e ∷ es) = e.0

abbrev pub value_of : Rows → List ℕ
value_of [] = []
value_of (e ∷ es) = e.1

unfoldable pub list_pebble : Pebble Rows Rows (Rows × Rows)
unfolding lookup written from_key
list_pebble = record {
  new_batch = [];
  batch_set = λ b k v. (true, b ++ ((k, v) ∷ []));
  batch_len = λ b. length b * batch_flush_bytes;
  batch_commit = λ b d. (true, b, written b d);
  batch_reset = λ b. [];
  db_get = λ d k. some (lookup d k);
  db_new_iter = λ d. some (d, d);
  db_close = λ d. (true, d);
  iter_first = λ it. (it.0, it.0);
  iter_seek_ge = λ it k. (it.0, from_key k it.0);
  iter_valid = λ it. has_entry it.1;
  iter_next = λ it. (it.0, tail it.1);
  iter_key = λ it. key_of it.1;
  iter_value = λ it. value_of it.1;
  iter_error = λ it. false;
  iter_close = λ it. true;
}

pub list_pebble-Documented : Documented list_pebble (λ b. b) (λ d. d) (λ it. it.0) (λ it. it.1)
unfolding list_pebble
list_pebble-Documented = record {
  new_batch_empty = refl;
  set_done = λ b k v. refl;
  set_appends = λ b k v. refl;
  commit_done = λ b d. refl;
  commit_applies = λ b d. refl;
  reset_empties = λ b. refl;
  get_finds = λ d k. refl;
  iter_of = λ d. (d, d);
  iter_opens = λ d. refl;
  iter_entries = λ d. refl;
  first_rewinds = λ it. refl;
  seek_finds = λ it k. refl;
  seek_keeps = λ it k. refl;
  valid_iff = λ it. refl;
  next_moves = λ it. refl;
  entry_here = λ it e es h. ap (λ l. (key_of l, value_of l)) h;
  no_error = λ it. refl;
}

abbrev rows : Rows
rows = (7 ∷ [], 1 ∷ []) ∷ (3 ∷ [], 2 ∷ []) ∷ (7 ∷ [], 3 ∷ []) ∷ []

-- It collects the keys, and stops at a third.
abbrev two_keys : List (List ℕ) → List ℕ → List ℕ → Option ℕ × List (List ℕ)
two_keys [] k v = (none, k ∷ [])
two_keys (a ∷ []) k v = (none, a ∷ k ∷ [])
two_keys (a ∷ b ∷ ks) k v = (some 9, a ∷ b ∷ ks)

abbrev filled : Store Rows Rows
filled = (put_all list_pebble (new_store list_pebble []) rows).1

reads_after_puts_example :
    ((put_all list_pebble (new_store list_pebble []) rows).0 ≡ ok tt ∷ ok tt ∷ ok tt ∷ [])
    × ((get_value list_pebble filled (7 ∷ [])).0 ≡ ok (some (3 ∷ [])))
    × ((iterate list_pebble two_keys 5 filled []).0 ≡ some (ok tt, (3 ∷ []) ∷ (7 ∷ []) ∷ []))
unfolding newest visit written
reads_after_puts_example =
    reads_after_puts list_pebble (λ b. b) (λ d. d) (λ it. it.0) (λ it. it.1) list_pebble-Documented
      two_keys [] [] rows (7 ∷ []) 5 refl (omega arith)

pull_readers_example :
    ((g : Getter (Rows × Rows)) × (new_getter list_pebble filled
        ≡ (ok g, add_reader list_pebble (auto_finalize list_pebble filled).1))
      × (lookups list_pebble g ((4 ∷ []) ∷ (3 ∷ []) ∷ []) ≡ some (none ∷ some (2 ∷ []) ∷ [])))
    × ((c : Cursor (Rows × Rows)) × (new_cursor list_pebble filled
          ≡ (ok c, add_reader list_pebble (auto_finalize list_pebble filled).1))
        × (cursor_walk list_pebble 5 c ≡ some ((3 ∷ [], 2 ∷ []) ∷ (7 ∷ [], 3 ∷ []) ∷ [])))
unfolding newest newest_of written
pull_readers_example =
    pull_readers list_pebble (λ b. b) (λ d. d) (λ it. it.0) (λ it. it.1) list_pebble-Documented []
      rows ((4 ∷ []) ∷ (3 ∷ []) ∷ []) 5 refl (omega arith)

finalize_cached_example :
    let s = use_all list_pebble (finalize_store list_pebble filled).1 (get_key (3 ∷ []) ∷ []) in
    finalize_store list_pebble s ≡ (none, s)
unfolding put_all finalize_store new_store list_pebble
finalize_cached_example = finalize_cached list_pebble filled (get_key (3 ∷ []) ∷ []) refl

-- The store with one write, and what a lookup, a cursor and a write leave.
abbrev one_put : List Use
one_put = put_entry (3 ∷ []) (2 ∷ []) ∷ []

abbrev three_calls : List Use
three_calls = get_key (7 ∷ []) ∷ open_cursor ∷ put_entry (9 ∷ []) [] ∷ []

sealed_reads_example :
    let s =
      (finalize_store list_pebble (use_all list_pebble (new_store list_pebble []) one_put)).1 in
    let t = use_all list_pebble s three_calls in
    (put list_pebble t (3 ∷ []) [] ≡ (fail put_after_finalize, t))
    × ((get_value list_pebble t (3 ∷ [])).0 ≡ (get_value list_pebble s (3 ∷ [])).0)
unfolding use_all finalize_store new_store list_pebble
sealed_reads_example = sealed_reads list_pebble [] one_put three_calls (3 ∷ []) [] refl

abbrev shut_store : Store Rows Rows
shut_store = record {
  db = (3 ∷ [], 2 ∷ []) ∷ [];
  batch = [];
  finalized = false;
  finalize_once = false;
  finalize_err = none;
  readers = 0;
  closed = true;
}

-- One reader has seen an open store when `Close` sets its flag.
abbrev late_reader : Shared
late_reader = record {
  closed = true;
  readers = 0;
  db_closed = false;
  closer = draining;
  threads = checked ∷ [];
}

late_reader-Reach : Reach new_shared late_reader
late_reader-Reach = then_step (then_step (then_step here arrive) (load [] [] refl)) (swap refl)

closed_under_reader_iff_example :
    ((t : Shared) × Reach late_reader t × (t.db_closed ≡ true) × (1 ≤ number is_reading t.threads))
    ↔ (1 ≤ number is_checked late_reader.threads)
closed_under_reader_iff_example = closed_under_reader_iff late_reader late_reader-Reach refl

close_ends_example :
    ((t : Shared)
      → Step late_reader t
      → late_reader.closer ≡ draining
      → t.closer ≡ closing
      → number is_reading late_reader.threads ≡ 0)
    × ((t : Shared) × Reach late_reader t × (t.db_closed ≡ true))
close_ends_example = close_ends late_reader late_reader-Reach
