-- ===== src/Streamsort/Readers/Safety.antt =====
-- What holds in every reachable state, and what `Close` is safe under.
use mathlib.Core.Bool.{true≢false}
use state_actor.Prelude.{
  ◌+◌, ◌≡◌, refl, ap, sym, ◌∙◌, arith, ◌⊎◌, inl, inr, Bool, true, false, not, List, [], ◌∷◌, ◌++◌,
  if◌then◌else◌,
}
use state_actor.Streamsort.Readers.{
  Reader, at_start, checked, reading, finished, Closer, before_close, draining, closing, closed_db,
  Shared, new_shared, Step, arrive, load, count, uncount, swap, waited, shut_db, Reach, here,
  then_step, number, is_checked, is_reading,
}

-- One thread among the others.
pub number-split :
    (test : Reader → Bool) (xs ys : List Reader) (r : Reader)
    → number test (xs ++ (r ∷ ys)) ≡ (if test r then 1 else 0) + number test (xs ++ ys)
unfolding number
number-split test [] ys r = ground arith
number-split test (x ∷ xs) ys r = ground (arith, number-split test xs ys r)

-- The threads before a step that moves one of them, and after it.
module _ (test : Reader → Bool) (ts xs ys : List Reader) (r r' : Reader) where
  pub number-moved :
      ts ≡ xs ++ (r ∷ ys)
      → number test (xs ++ (r' ∷ ys)) + (if test r then 1 else 0)
        ≡ number test ts + (if test r' then 1 else 0)
  number-moved h = rw h (omega (arith, number-split test xs ys r, number-split test xs ys r'))

abbrev pub is_before : Closer → Bool
is_before before_close = true
is_before _ = false

abbrev pub is_draining : Closer → Bool
is_draining draining = true
is_draining _ = false

abbrev pub has_closed : Closer → Bool
has_closed closed_db = true
has_closed _ = false

-- `readers` counts the threads that work on the database, and `Close` leaves its marks.
pub record IsCounted (s : Shared) : Type 0 where
  pub counted : s.readers ≡ number is_reading s.threads
  pub swapped : is_before s.closer ≡ not s.closed
  pub shut : has_closed s.closer ≡ s.db_closed

-- A loaded thread is at neither point that counts.
loaded : (c : Bool) → is_reading (if c then finished else checked) ≡ false
loaded true = refl
loaded false = refl

Step-IsCounted : (s t : Shared) → IsCounted s → Step s t → IsCounted t
unfolding number
Step-IsCounted s _ w arrive = record { counted = w.counted; swapped = w.swapped; shut = w.shut }
Step-IsCounted s _ w (load xs ys h) = record {
  counted =
      let r : Reader = if s.closed then finished else checked in
      let m = number-moved is_reading s.threads xs ys at_start r h in
      let q = loaded s.closed in omega (arith, w.counted, rw q at m);
  swapped = w.swapped;
  shut = w.shut;
}
Step-IsCounted s _ w (count xs ys h) = record {
  counted = omega (arith, w.counted, number-moved is_reading s.threads xs ys checked reading h);
  swapped = w.swapped;
  shut = w.shut;
}
Step-IsCounted s _ w (uncount xs ys h) = record {
  counted = omega (arith, w.counted, number-moved is_reading s.threads xs ys reading finished h);
  swapped = w.swapped;
  shut = w.shut;
}
Step-IsCounted s _ w (swap h) = record {
  counted = w.counted;
  swapped = refl;
  shut = sym (ap has_closed h) ∙ w.shut;
}
Step-IsCounted s _ w (waited h k) = record {
  counted = w.counted;
  swapped = sym (ap is_before h) ∙ w.swapped;
  shut = sym (ap has_closed h) ∙ w.shut;
}
Step-IsCounted s _ w (shut_db h) = record {
  counted = w.counted;
  swapped = sym (ap is_before h) ∙ w.swapped;
  shut = refl;
}

pub Reach-IsCounted : (s t : Shared) → IsCounted s → Reach s t → IsCounted t
Reach-IsCounted s _ w here = w
Reach-IsCounted s _ w (then_step {t} {u} r step) = Step-IsCounted t u (Reach-IsCounted s t w r) step

pub new_shared-IsCounted : IsCounted new_shared
unfolding number
new_shared-IsCounted = record { counted = refl; swapped = refl; shut = refl }

-- `Close` has swapped the flag, no thread is between its check and its count, and once the wait is
-- over no thread is counted.
pub record IsSafe (s : Shared) : Type 0 where
  pub flagged : s.closed ≡ true
  pub none_checked : number is_checked s.threads ≡ 0
  pub waits : (is_draining s.closer ≡ true) ⊎ (s.readers ≡ 0)

Step-IsSafe : (s t : Shared) → IsCounted s → IsSafe s → Step s t → IsSafe t
unfolding number
Step-IsSafe s _ c w arrive = record {
  flagged = w.flagged;
  none_checked = w.none_checked;
  waits = w.waits;
}
Step-IsSafe s _ c w (load xs ys h) = record {
  flagged = w.flagged;
  none_checked =
      let m = number-moved is_checked s.threads xs ys at_start finished h in
      rw w.flagged (omega (arith, w.none_checked, m));
  waits = w.waits;
}
Step-IsSafe s _ c w (count xs ys h) =
    absurd
      (omega (arith, w.none_checked, number-moved is_checked s.threads xs ys checked reading h))
Step-IsSafe s _ c w (uncount xs ys h) = record {
  flagged = w.flagged;
  none_checked =
      omega (arith, w.none_checked, number-moved is_checked s.threads xs ys reading finished h);
  waits = elim w.waits [ inl d ↦ inl d | inr z ↦ inr (omega (arith, z)) ];
}
Step-IsSafe s _ c w (swap h) = record {
  flagged = refl;
  none_checked = w.none_checked;
  waits = inl refl;
}
Step-IsSafe s _ c w (waited h k) = record {
  flagged = w.flagged;
  none_checked = w.none_checked;
  waits = inr k;
}
Step-IsSafe s _ c w (shut_db h) = record {
  flagged = w.flagged;
  none_checked = w.none_checked;
  waits = elim w.waits [ inl d ↦ inl (ap is_draining (sym h) ∙ d) | inr z ↦ inr z ];
}

pub Reach-IsSafe : (s t : Shared) → IsCounted s → IsSafe s → Reach s t → IsSafe t
Reach-IsSafe s _ c w here = w
Reach-IsSafe s _ c w (then_step {t} {u} r step) =
    Step-IsSafe t u (Reach-IsCounted s t c r) (Reach-IsSafe s t c w r) step

open_while_draining : (c : Closer) → is_draining c ≡ true → has_closed c ≡ false
open_while_draining before_close d = refl
open_while_draining draining d = refl
open_while_draining closing d = refl
open_while_draining closed_db d = absurd (true≢false (sym d))

-- A database that is closed is not read.
pub IsSafe-unread :
    (s : Shared) → IsCounted s → IsSafe s → s.db_closed ≡ true → number is_reading s.threads ≡ 0
IsSafe-unread s c w h = elim w.waits [
  | inl d ↦ absurd (true≢false (sym h ∙ (sym c.shut ∙ open_while_draining s.closer d)))
  | inr z ↦ sym c.counted ∙ z
]
