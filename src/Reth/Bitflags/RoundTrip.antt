-- ===== src/Reth/Bitflags/RoundTrip.antt =====
-- The fields that were put, closed into a header, are read back in the same order.
use native.Mathlib.Nat.{
  pow-le-pow_right, one-le-pow, div-div-eq-div-mul, add-mul-div_left, add-mul-mod_self_left,
  mod-eq_of_lt, div-eq_of_lt,
}
use state_actor.Prelude.{
  ℕ, zero, suc, ◌+◌, ◌-◌, ◌*◌, ◌/◌, ◌%◌, ◌^◌, ◌≤◌, ◌<◌, ◌≡◌, refl, sym, ap, ◌∙◌, arith, true, false,
  none, some, List, [], ◌∷◌, length, ltb, leb, leb→le, ◌==◌, if◌then◌else◌, bit_and, bit_or,
  ==_refl, Bool-cases, inl, inr,
}
use state_actor.Prelude.Bits.{bit_or_above, bit_and_mask}
use state_actor.Nimbus.Sbe.{u64_mod}
use state_actor.Reth.Bitflags.{
  BitflagBuilder, new_builder, finalize, BitflagReader, gather, reader_at, init, mask, get,
}
use state_actor.Reth.Bitflags.Fields.{
  Field, total, Fit, put_all, get_all, values, packed, pow_add, same_builder, put_all-eq, packed-lt,
}

mask-eq : (w : ℕ) → w ≤ 63 → mask w ≡ 2 ^ w - 1
mask-eq w l =
    below (2 ^ w) (pow-le-pow_right {n = 2} (omega arith) {i = w} {j = 63} l)
      (one-le-pow w 2 (omega arith))
  where
    below : (p : ℕ) → p ≤ 2 ^ 63 → 1 ≤ p → (p % u64_mod + (u64_mod - 1)) % u64_mod ≡ p - 1
    below p l h = omega arith

first_field : (v w q : ℕ) → v < 2 ^ w → (v + 2 ^ w * q) % 2 ^ w ≡ v
first_field v w q h = add-mul-mod_self_left v (2 ^ w) q ∙ mod-eq_of_lt h

other_fields : (v w q : ℕ) → v < 2 ^ w → (v + 2 ^ w * q) / 2 ^ w ≡ q
other_fields v w q h =
    add-mul-div_left v q (one-le-pow w 2 (omega arith))
    ∙ ap (λ (t : ℕ). t + q) (div-eq_of_lt h)
    ∙ zero_add q
  where
    zero_add : (q : ℕ) → 0 + q ≡ q
    zero_add q = omega arith

within : (l c : ℕ) → c ≤ l → ltb l c ≡ false
within l c h = ground arith

-- A reader at the fields that are left.
get-eq :
    (r : BitflagReader) (v w : ℕ) (fields : List Field)
    → v < 2 ^ w
    → w ≤ 63
    → r.consumed + w ≤ r.limit
    → r.bits / 2 ^ r.consumed ≡ packed ((v, w) ∷ fields)
    → get r w ≡ some (v, record { bits = r.bits; consumed = r.consumed + w; limit = r.limit })
unfolding get packed
get-eq r v w fields h l m e =
    ap (λ t. if t then none else some (bit_and (r.bits / 2 ^ r.consumed) (mask w), next))
      (within r.limit (r.consumed + w) m)
    ∙ ap (λ t. some (t, next))
        (ap (bit_and (r.bits / 2 ^ r.consumed)) (mask-eq w l)
          ∙ bit_and_mask w (r.bits / 2 ^ r.consumed)
          ∙ ap (λ (t : ℕ). t % 2 ^ w) e
          ∙ first_field v w (packed fields) h)
  where
    next : BitflagReader
    next = record { bits = r.bits; consumed = r.consumed + w; limit = r.limit }

get_all-eq :
    (fields : List Field) (r : BitflagReader)
    → Fit fields
    → r.consumed + total fields ≤ r.limit
    → r.limit ≤ 16
    → r.bits / 2 ^ r.consumed ≡ packed fields
    → get_all r fields ≡ some (values fields)
unfolding get_all packed
get_all-eq [] r f m k e = refl
get_all-eq ((v, w) ∷ fields) r (h, f) m k e =
    let next : BitflagReader = record {
      bits = r.bits;
      consumed = r.consumed + w;
      limit = r.limit;
    } in
    rw
      (
        get-eq r v w fields h (omega arith) (omega arith) e,
        get_all-eq fields next f (omega arith) k (
            ap (λ (t : ℕ). r.bits / t) (pow_add r.consumed w)
            ∙ sym (div-div-eq-div-mul r.bits (2 ^ r.consumed) (2 ^ w))
            ∙ ap (λ (t : ℕ). t / 2 ^ w) e
            ∙ other_fields v w (packed fields) h),
      )
      refl

read_none : (n : ℕ) → n ≡ 0 → gather [] 0 0 ≡ some n
unfolding gather
read_none n e = ap some (sym e)

read_one : (n : ℕ) → n < 256 → gather ((n % 256) ∷ []) 0 0 ≡ some n
unfolding gather
read_one n h =
    let same : n % 256 * 1 % u64_mod ≡ n * 2 ^ 0 = omega arith in
    ap some (ap (bit_or 0) same ∙ bit_or_above 0 n 0 (omega arith) ∙ plain n)
  where
    plain : (n : ℕ) → 0 + n * 2 ^ 0 ≡ n
    plain n = omega arith

read_two : (n : ℕ) → n < 65536 → gather ((n % 256) ∷ (n / 2 ^ 8 % 256) ∷ []) 0 0 ≡ some n
unfolding gather
read_two n h =
    let low : n % 256 * 1 % u64_mod ≡ n % 256 * 2 ^ 0 = omega arith in
    let high : n / 2 ^ 8 % 256 * 256 % u64_mod ≡ n / 2 ^ 8 % 256 * 2 ^ 8 = omega arith in
    ap some (
      ap (λ (t : ℕ). bit_or t (n / 2 ^ 8 % 256 * 256 % u64_mod))
        (ap (bit_or 0) low ∙ bit_or_above 0 (n % 256) 0 (omega arith) ∙ plain (n % 256))
      ∙ ap (bit_or (n % 256)) high
      ∙ bit_or_above 8 (n / 2 ^ 8 % 256) (n % 256) (omega arith)
      ∙ whole n h)
  where
    plain : (n : ℕ) → 0 + n * 2 ^ 0 ≡ n
    plain n = omega arith

    whole : (n : ℕ) → n < 65536 → n % 256 + n / 2 ^ 8 % 256 * 2 ^ 8 ≡ n
    whole n h = omega arith

-- The header of a builder, and the number that a reader gathers from it.
record Closed (b : BitflagBuilder) (t : ℕ) : Type 0 where
  header : List ℕ
  finalized : finalize b t ≡ some header
  short : length header ≤ 2
  gathered : gather header 0 0 ≡ some b.bits

power_bound : (t k : ℕ) → t ≤ k → 2 ^ t ≤ 2 ^ k
power_bound t k l = pow-le-pow_right {n = 2} (omega arith) {i = t} {j = k} l

closed : (n t : ℕ) → n < 2 ^ t → t ≤ 16 → Closed (record { bits = n; used_bits = t }) t
unfolding finalize
closed n zero h l = record {
  header = [];
  finalized = refl;
  short = omega arith;
  gathered = read_none n (omega arith);
}
closed n (suc t) h l = elim (Bool-cases (leb (suc t) 8)) [
  | inl e ↦ record {
    header = (n % 256) ∷ [];
    finalized = rw (==_refl (suc t), positive t, e) refl;
    short = omega arith;
    gathered = read_one n (omega (arith, power_bound (suc t) 8 (leb→le (suc t) 8 e)));
  }
  | inr e ↦ record {
    header = (n % 256) ∷ (n / 2 ^ 8 % 256) ∷ [];
    finalized = rw (==_refl (suc t), positive t, e, at_most (suc t) l) refl;
    short = omega arith;
    gathered = read_two n (omega (arith, power_bound (suc t) 16 l));
  }
]
  where
    positive : (t : ℕ) → (suc t == 0) ≡ false
    positive t = ground arith

    at_most : (t : ℕ) → t ≤ 16 → leb t 16 ≡ true
    at_most t l = ground arith

-- For any fields of at most 16 bits in all, each value fitting its width: putting them one after
-- another and closing the header does not panic, the header has at most two bytes, and a reader of it
-- gets exactly the values in the same order.
pub get_all-put_all :
    (fields : List Field)
    → Fit fields
    → total fields ≤ 16
    → (b : BitflagBuilder) × (header : List ℕ) × (r : BitflagReader) × (put_all new_builder fields
        ≡ some b)
      × (finalize b (total fields) ≡ some header)
      × (length header ≤ 2)
      × (init header (total fields) ≡ some r)
      × (get_all r fields ≡ some (values fields))
unfolding init
get_all-put_all fields f l =
    let n = 0 + 2 ^ 0 * packed fields in
    let t = 0 + total fields in
    let same : t ≡ total fields = omega arith in
    let c = closed n (total fields) (omega (arith, packed-lt fields f)) l in
    let r : BitflagReader = record { bits = n; consumed = 0; limit = total fields } in
    (
      record { bits = n; used_bits = total fields },
      c.header,
      r,
      put_all-eq fields new_builder f (omega arith) (omega arith) ∙ same_builder refl (omega arith),
      c.finalized,
      c.short,
      ap (reader_at (total fields)) c.gathered,
      get_all-eq fields r f (omega arith) l (start (packed fields)),
    )
  where
    start : (q : ℕ) → (0 + 2 ^ 0 * q) / 2 ^ 0 ≡ q
    start q = omega arith
