-- ===== src/Streamsort/Readers/Races.antt =====
-- Which interleavings close the database, and which do so under a reader.
use mathlib.Core.Bool.{false≢true}
use state_actor.Prelude.{
  ℕ, zero, suc, ◌≤◌, ◌≡◌, refl, ap, sym, ◌∙◌, arith, ◌⊎◌, ◌↔◌, inl, inr, Bool, true, false, not,
  List, [], ◌∷◌, ◌++◌, Bool-cases,
}
use state_actor.Streamsort.Readers.{
  Reader, at_start, checked, reading, finished, Closer, before_close, draining, closing, closed_db,
  Shared, new_shared, count, uncount, swap, waited, shut_db, Step, arrive, load, Reach, here,
  then_step, number, is_checked, is_reading, count_reader, uncount_reader, end_wait, close_db,
  swap_closed,
}
use state_actor.Streamsort.Readers.Safety.{
  number-moved, is_before, is_draining, has_closed, IsCounted, Reach-IsCounted,
  new_shared-IsCounted, Reach-IsSafe, IsSafe-unread,
}

-- A thread at a point that is counted.
pub record Standing (test : Reader → Bool) (ts : List Reader) : Type 0 where
  pub before : List Reader
  pub thread : Reader
  pub after : List Reader
  pub splits : ts ≡ before ++ (thread ∷ after)
  pub stands : test thread ≡ true

standing : (test : Reader → Bool) (ts : List Reader) → 1 ≤ number test ts → Standing test ts
unfolding number
standing test [] h = absurd (omega arith)
standing test (r ∷ ts) h = elim (Bool-cases (test r)) [
  | inl e ↦ record { before = []; thread = r; after = ts; splits = refl; stands = e }
  | inr e ↦
      (let st = standing test ts (rw e at h) in
        record {
          before = r ∷ st.before;
          thread = st.thread;
          after = st.after;
          splits = ap (λ l. r ∷ l) st.splits;
          stands = st.stands;
        })
]

only_reading : (r : Reader) → is_reading r ≡ true → r ≡ reading
only_reading at_start h = cc
only_reading checked h = cc
only_reading reading h = refl
only_reading finished h = cc

only_checked : (r : Reader) → is_checked r ≡ true → r ≡ checked
only_checked at_start h = cc
only_checked checked h = refl
only_checked reading h = cc
only_checked finished h = cc

-- A state with nobody left on the database, the other threads where they were.
pub record Drained (s : Shared) : Type 0 where
  pub state : Shared
  pub reach : Reach s state
  pub no_reader : number is_reading state.threads ≡ 0
  pub same_checked : number is_checked state.threads ≡ number is_checked s.threads
  pub same_closer : state.closer ≡ s.closer

Reach-trans : {s t u : Shared} → Reach s t → Reach t u → Reach s u
Reach-trans r here = r
Reach-trans r (then_step q step) = then_step (Reach-trans r q) step

-- Every reader can end its work.
drain : (n : ℕ) (s : Shared) → number is_reading s.threads ≡ n → Drained s
drain zero s h = record {
  state = s;
  reach = here;
  no_reader = h;
  same_checked = refl;
  same_closer = refl;
}
drain (suc n) s h =
    let st = standing is_reading s.threads (omega (arith, h)) in
    let at : s.threads ≡ st.before ++ (reading ∷ st.after) =
      rw (sym (only_reading st.thread st.stands)) st.splits in
    let m = number-moved is_reading s.threads st.before st.after reading finished at in
    let k = number-moved is_checked s.threads st.before st.after reading finished at in
    let d = drain n (uncount_reader s st.before st.after) (omega (arith, m, h)) in
    record {
      state = d.state;
      reach = Reach-trans (then_step here (uncount st.before st.after at)) d.reach;
      no_reader = d.no_reader;
      same_checked = omega (arith, d.same_checked, k);
      same_closer = d.same_closer;
    }

flag_set : (b : Bool) → false ≡ not b → b ≡ true
flag_set true h = refl
flag_set false h = h

zero_or_more : (n : ℕ) → (n ≡ 0) ⊎ (1 ≤ n)
zero_or_more zero = inl refl
zero_or_more (suc n) = inr (omega arith)

-- The drained state lets the wait end.
Drained-Reach :
    (s : Shared) (d : Drained s) → IsCounted s → s.closer ≡ draining → Reach s (end_wait d.state)
Drained-Reach s d c h =
    let w = Reach-IsCounted s d.state c d.reach in
    then_step d.reach (waited (d.same_closer ∙ h) (w.counted ∙ d.no_reader))

-- The thread that is counted too late.
race :
    (s : Shared)
    → IsCounted s
    → s.closer ≡ draining
    → 1 ≤ number is_checked s.threads
    → (t : Shared) × Reach s t × (t.db_closed ≡ true) × (1 ≤ number is_reading t.threads)
race s c h late =
    let d = drain (number is_reading s.threads) s refl in
    let ts = d.state.threads in
    let st = standing is_checked ts (omega (arith, d.same_checked, late)) in
    let at : ts ≡ st.before ++ (checked ∷ st.after) =
      rw (sym (only_checked st.thread st.stands)) st.splits in
    let u = end_wait d.state in
    (
      close_db (count_reader u st.before st.after),
      then_step (then_step (Drained-Reach s d c h) (count st.before st.after at)) (shut_db refl),
      refl,
      omega (arith, number-moved is_reading ts st.before st.after checked reading at),
    )

-- After `Close` has set its flag: the database can be closed while a thread works on it exactly
-- when some thread has loaded `closed` before that and is not yet counted.
pub closed_under_reader_iff :
    (s : Shared)
    → Reach new_shared s
    → s.closer ≡ draining
    → ((t : Shared) × Reach s t × (t.db_closed ≡ true) × (1 ≤ number is_reading t.threads))
      ↔ (1 ≤ number is_checked s.threads)
closed_under_reader_iff s r h =
    let c = Reach-IsCounted new_shared s new_shared-IsCounted r in
    (
      λ (t, run, shut, busy). elim (zero_or_more (number is_checked s.threads)) [
        | inl z ↦
            (let safe =
                Reach-IsSafe s t c
                  (record {
                    flagged = flag_set s.closed (sym (ap is_before h) ∙ c.swapped);
                    none_checked = z;
                    waits = inl (ap is_draining h);
                  })
                  run in
              absurd (omega (arith, busy, IsSafe-unread t (Reach-IsCounted s t c run) safe shut)))
        | inr late ↦ late
      ],
      race s c h,
    )

closing_ends :
    (s : Shared) (at : Closer)
    → IsCounted s
    → s.closer ≡ at
    → (t : Shared) × Reach s t × (t.db_closed ≡ true)
closing_ends s before_close c h =
    let u = swap_closed s in
    let run : Reach s u = then_step here (swap h) in
    let d = drain (number is_reading u.threads) u refl in
    (
      close_db (end_wait d.state),
      then_step (Reach-trans run (Drained-Reach u d (Reach-IsCounted s u c run) refl))
          (shut_db refl),
      refl,
    )
closing_ends s draining c h =
    let d = drain (number is_reading s.threads) s refl in
    (close_db (end_wait d.state), then_step (Drained-Reach s d c h) (shut_db refl), refl)
closing_ends s closing c h = (close_db s, then_step here (shut_db h), refl)
closing_ends s closed_db c h = (s, here, sym c.shut ∙ ap has_closed h)

abbrev is_closing : Closer → Bool
is_closing closing = true
is_closing _ = false

draining_is_not_closing : (at : Closer) → at ≡ draining → at ≡ closing → ⊥
draining_is_not_closing at h k = false≢true (sym (ap is_closing h) ∙ ap is_closing k)

-- Out of the wait leads one step alone.
wait_over :
    (s t : Shared)
    → IsCounted s
    → Step s t
    → s.closer ≡ draining
    → t.closer ≡ closing
    → number is_reading s.threads ≡ 0
wait_over s _ c arrive h k = absurd (draining_is_not_closing s.closer h k)
wait_over s _ c (load xs ys e) h k = absurd (draining_is_not_closing s.closer h k)
wait_over s _ c (count xs ys e) h k = absurd (draining_is_not_closing s.closer h k)
wait_over s _ c (uncount xs ys e) h k = absurd (draining_is_not_closing s.closer h k)
wait_over s _ c (swap e) h k = absurd (draining_is_not_closing draining refl k)
wait_over s _ c (waited e z) h k = sym c.counted ∙ z
wait_over s _ c (shut_db e) h k = absurd (draining_is_not_closing s.closer h e)

-- In every reachable state: a step by which `Close` leaves its wait for readers is possible only
-- when no thread works on the database; and there is a continuation in which the threads that do end
-- their work and the database gets closed. A goroutine that never comes to `readers.Done()` is
-- outside of this second part.
pub close_ends :
    (s : Shared)
    → Reach new_shared s
    → ((t : Shared)
        → Step s t
        → s.closer ≡ draining
        → t.closer ≡ closing
        → number is_reading s.threads ≡ 0)
      × ((t : Shared) × Reach s t × (t.db_closed ≡ true))
close_ends s r =
    let c = Reach-IsCounted new_shared s new_shared-IsCounted r in
    (λ t step. wait_over s t c step, closing_ends s s.closer c refl)
