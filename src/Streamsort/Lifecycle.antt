-- ===== src/Streamsort/Lifecycle.antt =====
-- The states of a store: what `Finalize` and `Close` leave behind, over any sequence of calls.
use mathlib.Core.Path.{subst}
use mathlib.Core.Option.{some-ne-none}
use state_actor.Prelude.{ℕ, ◌≡◌, refl, ap, sym, ◌∙◌, Bool, true, false, Option, none, some, List}
use state_actor.Streamsort.{
  Pebble, Store, StoreError, put_after_finalize, Answer, fail, put, finalize_body, finalize_store,
  auto_finalize, open_reader, get_value, read_key, got, new_store,
}
use state_actor.Streamsort.Reads.{past_gate}
use state_actor.Streamsort.Calls.{Use, use_all}
use state_actor.Streamsort.Kept.{either, if_true, if_false, clash, IsKept, use_all-keeps}

module _ {B D I : Type 0} (pebble : Pebble B D I) where
  -- A store whose `Finalize` has run its function, with a result that stays.
  record IsOnce (e : Option StoreError) (s : Store B D) : Type 0 where
    open_still : s.closed ≡ false
    once : s.finalize_once ≡ true
    cached : s.finalize_err ≡ e

  finalize-again :
      (e : Option StoreError) (s : Store B D) → IsOnce e s → finalize_store pebble s ≡ (e, s)
  unfolding finalize_store
  finalize-again e s w =
      if_false _ w.open_still
      ∙ (ap (λ (t : Store B D). (t.finalize_err, t)) (if_true _ w.once)
          ∙ ap (λ (x : Option StoreError). (x, s)) w.cached)

  IsOnce-IsKept : (e : Option StoreError) → IsKept pebble (IsOnce e)
  IsOnce-IsKept e = record {
    writes = λ s b d c f w. record { open_still = w.open_still; once = w.once; cached = w.cached };
    counts = λ s n w. record { open_still = w.open_still; once = w.once; cached = w.cached };
    finalizes = λ s w.
        subst (λ (r : Option StoreError × Store B D). IsOnce e r.1) (sym (finalize-again e s w)) w;
  }

  finalize-IsOnce :
      (s : Store B D)
      → s.closed ≡ false
      → IsOnce (finalize_store pebble s).0 (finalize_store pebble s).1
  unfolding finalize_store finalize_body
  finalize-IsOnce s h =
      subst (λ (r : Option StoreError × Store B D). IsOnce r.0 r.1) (sym (if_false _ h))
        (either (λ (t : Store B D). IsOnce t.finalize_err t) s.finalize_once
          (λ o. record { open_still = h; once = o; cached = refl })
          (λ o.
            either (λ (t : Store B D). IsOnce t.finalize_err t) (pebble.batch_commit s.batch s.db).0
              (λ q. record { open_still = h; once = refl; cached = refl })
              (λ q. record { open_still = h; once = refl; cached = refl })))

  -- On a store that is not closed, and whatever calls but `Close` come after a `Finalize`: the next
  -- `Finalize` returns the result of that one and leaves the store as it is.
  pub finalize_cached :
      (s : Store B D) (us : List Use)
      → s.closed ≡ false
      → let (e, s1) = finalize_store pebble s in
        let t = use_all pebble s1 us in finalize_store pebble t ≡ (e, t)
  finalize_cached s us h =
      let (e, s1) = finalize_store pebble s in
      finalize-again e (use_all pebble s1 us)
        (use_all-keeps pebble (IsOnce e) (IsOnce-IsKept e) s1 us (finalize-IsOnce s h))

  -- A store that is not closed, with `finalized` set once `Finalize` has run without an error.
  record IsLive (s : Store B D) : Type 0 where
    open_still : s.closed ≡ false
    marked : s.finalize_once ≡ true → s.finalize_err ≡ none → s.finalized ≡ true

  finalize_store-IsLive : (s : Store B D) → IsLive s → IsLive (finalize_store pebble s).1
  unfolding finalize_store finalize_body
  finalize_store-IsLive s w =
      either (λ (r : Option StoreError × Store B D). IsLive r.1) s.closed (λ c. w)
        (λ c.
          either IsLive s.finalize_once (λ o. w)
            (λ o.
              either IsLive (pebble.batch_commit s.batch s.db).0
                (λ q. record { open_still = w.open_still; marked = λ x e. refl })
                (λ q. record {
                  open_still = w.open_still;
                  marked = λ x e. absurd (some-ne-none _ e);
                })))

  IsLive-IsKept : IsKept pebble IsLive
  IsLive-IsKept = record {
    writes = λ s b d c f w. record { open_still = w.open_still; marked = w.marked };
    counts = λ s n w. record { open_still = w.open_still; marked = w.marked };
    finalizes = finalize_store-IsLive;
  }

  new_store-IsLive : (d : D) → IsLive (new_store pebble d)
  unfolding new_store
  new_store-IsLive d = record { open_still = refl; marked = λ x e. clash x refl }

  -- A store that reads go straight to: the database stays.
  record IsSealed (d : D) (s : Store B D) : Type 0 where
    once : IsOnce none s
    is_final : s.finalized ≡ true
    same_db : s.db ≡ d

  IsSealed-IsKept : (d : D) → IsKept pebble (IsSealed d)
  IsSealed-IsKept d = record {
    writes = λ s b d' c f w. clash w.is_final f;
    counts = λ s n w. record {
      once = (IsOnce-IsKept none).counts s n w.once;
      is_final = w.is_final;
      same_db = w.same_db;
    };
    finalizes = λ s w.
        subst (λ (r : Option StoreError × Store B D). IsSealed d r.1)
          (sym (finalize-again none s w.once)) w;
  }

  -- A successful `Finalize` seals the store.
  finalize-IsSealed :
      (s : Store B D)
      → IsLive s
      → (finalize_store pebble s).0 ≡ none
      → IsSealed (finalize_store pebble s).1.db (finalize_store pebble s).1
  finalize-IsSealed s m e =
      let w = finalize-IsOnce s m.open_still in
      let live = finalize_store-IsLive s m in
      record {
        once = subst (λ x. IsOnce x (finalize_store pebble s).1) e w;
        is_final = live.marked w.once (w.cached ∙ e);
        same_db = refl;
      }

  get_value-sealed :
      (d : D) (s : Store B D) (k : List ℕ)
      → IsSealed d s
      → (get_value pebble s k).0 ≡ got pebble (pebble.db_get d k)
  unfolding get_value open_reader auto_finalize read_key
  get_value-sealed d s k w =
      let gate : auto_finalize pebble s ≡ (none, s) = if_true _ w.is_final in
      ap (λ (r : Answer (Option (List ℕ)) × Store B D). r.0)
        (past_gate _ _ w.once.open_still (ap (λ (r : Option StoreError × Store B D). r.0) gate))
      ∙ (ap (λ (r : Option StoreError × Store B D). got pebble (pebble.db_get r.1.db k)) gate
          ∙ ap (λ x. got pebble (pebble.db_get x k)) w.same_db)

  put-sealed :
      (d : D) (s : Store B D) (k v : List ℕ)
      → IsSealed d s
      → put pebble s k v ≡ (fail put_after_finalize, s)
  unfolding put
  put-sealed d s k v w = if_false _ w.once.open_still ∙ if_true _ w.is_final

  -- After calls to a new store of which the next, `Finalize`, succeeds, and whatever calls but
  -- `Close` come then: `Put` is refused and changes nothing, and `Get` answers for every key what it
  -- answered right after `Finalize`.
  pub sealed_reads :
      (d : D) (before after : List Use) (k v : List ℕ)
      → (finalize_store pebble (use_all pebble (new_store pebble d) before)).0 ≡ none
      → let s = (finalize_store pebble (use_all pebble (new_store pebble d) before)).1 in
        let t = use_all pebble s after in
        (put pebble t k v ≡ (fail put_after_finalize, t))
        × ((get_value pebble t k).0 ≡ (get_value pebble s k).0)
  sealed_reads d before after k v e =
      let s = (finalize_store pebble (use_all pebble (new_store pebble d) before)).1 in
      let live =
        use_all-keeps pebble IsLive IsLive-IsKept (new_store pebble d) before
          (new_store-IsLive d) in
      let w = finalize-IsSealed (use_all pebble (new_store pebble d) before) live e in
      let t = use_all pebble s after in
      let w' = use_all-keeps pebble (IsSealed s.db) (IsSealed-IsKept s.db) s after w in
      (put-sealed s.db t k v w', get_value-sealed s.db t k w' ∙ sym (get_value-sealed s.db s k w))

  record IsClosed (d : D) (s : Store B D) : Type 0 where
    shut : s.closed ≡ true
    same_db : s.db ≡ d

  abbrev closed_if_done : Option (Answer (Unit {0}) × Store B D) → Bool
  closed_if_done none = true
  closed_if_done (some r) = r.1.closed
