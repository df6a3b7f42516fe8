-- ===== src/Nimbus/SavedState.antt =====
-- internal/nimbus/savedstate.go: the admin record.
use state_actor.Prelude.{
  ◌≢◌, ℕ, ◌≡◌, ◌⊎◌, refl, ap, arith, true, false, not, ◌&&◌, Option, none, some, List, [], ◌∷◌,
  ◌++◌, length, take, drop, get_elem?, ◌==◌, if◌then◌else◌,
}
use state_actor.Nimbus.Sbe.{IsU64, be_loop}
use state_actor.Nimbus.Sbe.RoundTrip.{be_bytes, be_value-be_bytes}

abbrev pub saved_state_magic : ℕ
saved_state_magic = 0x7e

abbrev pub saved_state_legacy_magic : ℕ
saved_state_legacy_magic = 0x7f

abbrev pub saved_state_len : ℕ
saved_state_len = 17

pub record SavedState : Type 0 where
  pub v_top : ℕ
  pub serial : ℕ

-- `PutUint64` writes the eight bytes of a number, the highest first.
unfoldable pub encode_saved_state : SavedState → List ℕ
unfolding be_bytes
encode_saved_state s = be_bytes 8 s.v_top ++ (be_bytes 8 s.serial ++ (saved_state_magic ∷ []))

-- `b[16]` and the two numbers.
abbrev pub state_of : List ℕ → Option ℕ → Option SavedState
state_of b none = none
state_of b (some trailer) =
    if not (trailer == saved_state_magic) && not (trailer == saved_state_legacy_magic)
    then none
    else some (record { v_top = be_loop 0 (take 8 b); serial = be_loop 0 (take 8 (drop 8 b)) })

unfoldable pub decode_saved_state : List ℕ → Option SavedState
unfolding be_loop
decode_saved_state b =
    if not (length b == saved_state_len) then none else state_of b (get_elem? b 16)

-- A record with any trailer.
abbrev pub record_with : SavedState → ℕ → List ℕ
record_with s trailer = be_bytes 8 s.v_top ++ (be_bytes 8 s.serial ++ (trailer ∷ []))

-- For a SavedState of two uint64s, written with any trailer: DecodeSavedState returns it exactly when
-- the trailer is the magic, which is the one that EncodeSavedState writes, or the legacy magic, and
-- otherwise returns an error.
pub decode_saved_state-encode_saved_state :
    (s : SavedState) (trailer : ℕ)
    → IsU64 s.v_top
    → IsU64 s.serial
    → (encode_saved_state s ≡ record_with s saved_state_magic)
      × ((trailer ≡ saved_state_magic) ⊎ (trailer ≡ saved_state_legacy_magic)
          → decode_saved_state (record_with s trailer) ≡ some s)
      × (trailer ≢ saved_state_magic
          → trailer ≢ saved_state_legacy_magic
          → decode_saved_state (record_with s trailer) ≡ none)
unfolding decode_saved_state encode_saved_state be_bytes
decode_saved_state-encode_saved_state s trailer h k =
    let top = be_value-be_bytes 8 s.v_top h (omega arith) (omega arith) in
    let serial = be_value-be_bytes 8 s.serial k (omega arith) (omega arith) in
    (
      refl,
      λ e. rw (accepted trailer e) (ap some (both top serial)),
      λ n m. rw (refused trailer n m) refl,
    )
  where
    accepted :
        (t : ℕ)
        → (t ≡ saved_state_magic) ⊎ (t ≡ saved_state_legacy_magic)
        → (not (t == saved_state_magic) && not (t == saved_state_legacy_magic)) ≡ false
    accepted t h = ground arith

    refused :
        (t : ℕ)
        → t ≢ saved_state_magic
        → t ≢ saved_state_legacy_magic
        → (not (t == saved_state_magic) && not (t == saved_state_legacy_magic)) ≡ true
    refused t n m = ground arith

    both :
        {a b c d : ℕ}
        → a ≡ c
        → b ≡ d
        → ◌≡◌ {A = SavedState} (record { v_top = a; serial = b }) (record { v_top = c; serial = d })
    both p q = rw (p, q) refl
