-- ===== src/Reth/Bitflags/Fields.antt =====
-- The fields of a struct as one number, and what putting them one after another makes of it.
use native.Mathlib.Nat.{pow-suc, pow-le-pow_right, one-le-pow, mul-le-mul_right, mul-le-mul_left}
use state_actor.Prelude.{
  ℕ, zero, suc, ◌+◌, ◌*◌, ◌%◌, ◌^◌, ◌≤◌, ◌<◌, ◌≡◌, refl, sym, ap, ◌∙◌, arith, true, false, Option,
  none, some, List, [], ◌∷◌, ltb, leb, ◌&&◌, and_then, Bool-cases, inl, inr,
}
use state_actor.Prelude.Bits.{bit_or_above}
use state_actor.Nimbus.Sbe.{u64_mod}
use state_actor.Reth.Bitflags.{BitflagBuilder, put, BitflagReader, get}

-- A field: its value and its width.
abbrev pub Field : Type 0
Field = ℕ × ℕ

abbrev pub total : List Field → ℕ
total [] = 0
total ((v, w) ∷ fields) = w + total fields

abbrev pub Fit : List Field → Type 0
Fit [] = Unit
Fit ((v, w) ∷ fields) = (v < 2 ^ w) × Fit fields

-- The encoder of a struct, and its decoder.
unfoldable pub put_all : BitflagBuilder → List Field → Option BitflagBuilder
put_all b [] = some b
put_all b ((v, w) ∷ fields) = and_then (put b v w) (λ b'. put_all b' fields)

abbrev pub first_of : ℕ → Option (List ℕ) → Option (List ℕ)
first_of v none = none
first_of v (some vs) = some (v ∷ vs)

unfoldable pub get_all : BitflagReader → List Field → Option (List ℕ)
get_all r [] = some []
get_all r ((v, w) ∷ fields) = and_then (get r w) (λ p. first_of p.0 (get_all p.1 fields))

abbrev pub values : List Field → List ℕ
values [] = []
values ((v, w) ∷ fields) = v ∷ values fields

-- The number that the fields make.
unfoldable pub packed : List Field → ℕ
packed [] = 0
packed ((v, w) ∷ fields) = v + 2 ^ w * packed fields

pub pow_add : (a b : ℕ) → 2 ^ (a + b) ≡ 2 ^ a * 2 ^ b
pow_add a zero = let e : a + 0 ≡ a = omega arith in rw e (omega arith)
pow_add a (suc b) =
    let e : a + suc b ≡ suc (a + b) = omega arith in
    ap (λ (t : ℕ). 2 ^ t) e
    ∙ pow-suc 2 (a + b)
    ∙ ap (λ (t : ℕ). t * 2) (pow_add a b)
    ∙ sym (times (2 ^ a) (2 ^ b))
    ∙ ap (λ (t : ℕ). 2 ^ a * t) (sym (pow-suc 2 b))
  where
    times : (x y : ℕ) → x * (y * 2) ≡ x * y * 2
    times x y = grind arith

-- A field above those that were put, below 2 ^ 64.
field_below : (u v w : ℕ) → v < 2 ^ w → v * 2 ^ u + 2 ^ u ≤ 2 ^ (u + w)
field_below u v w l = omega (
  arith,
  pow_add u w,
  mul-le-mul_right {m = suc v} {n = 2 ^ w} (2 ^ u) (l),
  times v (2 ^ u) (2 ^ w),
)
  where
    times : (v p q : ℕ) → (suc v * p ≡ v * p + p) × (q * p ≡ p * q)
    times v p q = grind arith

width_allowed : (v w : ℕ) → v < 2 ^ w → w ≤ 64 → (ltb w 64 && leb (2 ^ w % u64_mod) v) ≡ false
width_allowed v w h l = elim (Bool-cases (ltb w 64)) [
  | inl e ↦
      (let small : 2 ^ w ≤ 2 ^ 63 =
          pow-le-pow_right {n = 2} (omega arith) {i = w} {j = 63} (narrow w e) in
        rw e (above (2 ^ w) v small h))
  | inr e ↦ rw e refl
]
  where
    narrow : (w : ℕ) → ltb w 64 ≡ true → w ≤ 63
    narrow w e = ground arith

    above : (p v : ℕ) → p ≤ 2 ^ 63 → v < p → leb (p % u64_mod) v ≡ false
    above p v l h = ground arith

not_wider : (w : ℕ) → w ≤ 64 → ltb 64 w ≡ false
not_wider w l = ground arith

put-eq :
    (b : BitflagBuilder) (v w : ℕ)
    → v < 2 ^ w
    → b.bits < 2 ^ b.used_bits
    → b.used_bits + w ≤ 64
    → put b v w ≡ some (record { bits = b.bits + v * 2 ^ b.used_bits; used_bits = b.used_bits + w })
unfolding put
put-eq b v w h l m =
    let shifted = field_below b.used_bits v w h in
    let small : 2 ^ (b.used_bits + w) ≤ 2 ^ 64 =
      pow-le-pow_right {n = 2} (omega arith) {i = b.used_bits + w} {j = 64} m in
    let some_bit : 1 ≤ 2 ^ b.used_bits = one-le-pow b.used_bits 2 (omega arith) in
    let kept : v * 2 ^ b.used_bits % u64_mod ≡ v * 2 ^ b.used_bits = omega arith in
    simp
      (
        not_wider w (omega arith),
        width_allowed v w h (omega arith),
        kept,
        bit_or_above b.used_bits v b.bits l,
      )
      refl

pub same_builder :
    {m m' n n' : ℕ}
    → m ≡ m'
    → n ≡ n'
    → ◌≡◌ {A = Option BitflagBuilder}
        (some (record { bits = m; used_bits = n }))
        (some (record { bits = m'; used_bits = n' }))
same_builder e f = cc

regroup : (b v p w q : ℕ) → b + v * p + p * w * q ≡ b + p * (v + w * q)
regroup b v p w q = grind arith

-- What was put: the bits below, and the fields above them.
pub put_all-eq :
    (fields : List Field) (b : BitflagBuilder)
    → Fit fields
    → b.bits < 2 ^ b.used_bits
    → b.used_bits + total fields ≤ 64
    → put_all b fields
      ≡ some (record {
        bits = b.bits + 2 ^ b.used_bits * packed fields;
        used_bits = b.used_bits + total fields;
      })
unfolding put_all packed
put_all-eq [] b f l m = same_builder (omega arith) (omega arith)
put_all-eq ((v, w) ∷ fields) b (h, f) l m =
    let b' : BitflagBuilder = record {
      bits = b.bits + v * 2 ^ b.used_bits;
      used_bits = b.used_bits + w;
    } in
    let shifted = field_below b.used_bits v w h in
    rw (put-eq b v w h l (omega arith)) (
      put_all-eq fields b' f (omega arith) (omega arith)
      ∙ same_builder
          (ap (λ (t : ℕ). b.bits + v * 2 ^ b.used_bits + t * packed fields) (pow_add b.used_bits w)
            ∙ regroup b.bits v (2 ^ b.used_bits) (2 ^ w) (packed fields))
          (omega arith))

pub packed-lt : (fields : List Field) → Fit fields → packed fields < 2 ^ total fields
unfolding packed
packed-lt [] f = omega arith
packed-lt ((v, w) ∷ fields) (h, f) = omega (
  arith,
  pow_add w (total fields),
  mul-le-mul_left {m = suc (packed fields)} {n = 2 ^ total fields} (2 ^ w) (packed-lt fields f),
  times (2 ^ w) (packed fields),
)
  where
    times : (p q : ℕ) → p * suc q ≡ p * q + p
    times p q = grind arith
