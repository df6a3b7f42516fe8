-- ===== src/Nimbus/Vid/Distinct.antt =====
-- Static IDs of different positions differ.
use state_actor.Prelude.{
  ℕ, zero, suc, ◌+◌, ◌-◌, ◌*◌, ◌^◌, ◌≤◌, ◌<◌, ◌≡◌, refl, sym, ap, ◌∙◌, arith, some, List, [], ◌∷◌,
  length, take, true,
}
use native.Mathlib.Decide.{dec_lt}
use state_actor.Bytes.{Nibbles}
use state_actor.Nimbus.Vid.{static_vid, is_static}
use state_actor.Nimbus.Vid.Static.{
  nibble_value, levels, nibble_value-lt, offset, offset-in_table, static_vid-eq,
}

-- A level's IDs end where the next level's begin.
levels-snoc : (i n : ℕ) → levels i (suc n) ≡ levels i n + 16 ^ (i + n)
unfolding levels
levels-snoc i zero = omega (arith, ap (λ (t : ℕ). 16 ^ t) (plus_zero i))
  where
    plus_zero : (i : ℕ) → i + 0 ≡ i
    plus_zero i = omega arith
levels-snoc i (suc n) = omega (arith, levels-snoc (i + 1) n, ap (λ (t : ℕ). 16 ^ t) (carry i n))
  where
    carry : (i n : ℕ) → i + 1 + n ≡ i + suc n
    carry i n = omega arith

offset-suc : (l : ℕ) → offset (suc l) ≡ offset l + 16 ^ l
unfolding offset
offset-suc l = omega (arith, levels-snoc 0 l, ap (λ (t : ℕ). 16 ^ t) (zero_plus l))
  where
    zero_plus : (k : ℕ) → 0 + k ≡ k
    zero_plus k = omega arith

offset_grows : (l k : ℕ) → offset l ≤ offset (k + l)
offset_grows l zero = omega (arith, ap offset (zero_plus l))
  where
    zero_plus : (k : ℕ) → 0 + k ≡ k
    zero_plus k = omega arith
offset_grows l (suc k) = omega (arith, offset_grows l k, offset-suc (k + l), ap offset (shift k l))
  where
    shift : (k l : ℕ) → suc k + l ≡ suc (k + l)
    shift k l = omega arith

offset_mono : (l m : ℕ) → l ≤ m → offset l ≤ offset m
offset_mono l m h = omega (arith, offset_grows l (m - l), ap offset (regain l m h))
  where
    regain : (l m : ℕ) → l ≤ m → m - l + l ≡ m
    regain l m h = omega arith

-- Two IDs of different levels differ.
levels_apart : (l m x y : ℕ) → l < m → x < 16 ^ l → offset l + x ≡ offset m + y → ⊥
levels_apart l m x y h b e = omega (arith, offset-suc l, offset_mono (suc l) m h)

next_digit : (p q t : ℕ) → p < q → p * t + t ≤ q * t
next_digit p q t h = grind arith

same_digits : (p q t x y : ℕ) → x < t → y < t → p * t + x ≡ q * t + y → (p ≡ q) × (x ≡ y)
same_digits p q t x y a b e = elim (dec_lt p q) [
  | yes h ↦ absurd (omega (arith, next_digit p q t h))
  | no h ↦ elim (dec_lt q p) [
    | yes k ↦ absurd (omega (arith, next_digit q p t k))
    | no k ↦ (omega arith, omega (arith, ap (λ (u : ℕ). u * t) (equal h k)))
  ]
]
  where
    equal : ¬ (p < q) → ¬ (q < p) → p ≡ q
    equal h k = omega arith

nibble_value_injective :
    (n : ℕ) (p q : List ℕ)
    → Nibbles p
    → Nibbles q
    → n ≤ length p
    → n ≤ length q
    → nibble_value n p ≡ nibble_value n q
    → take n p ≡ take n q
unfolding nibble_value
nibble_value_injective zero p q vp vq hp hq e = refl
nibble_value_injective (suc n) [] q vp vq hp hq e = absurd (omega arith)
nibble_value_injective (suc n) (x ∷ p) [] vp vq hp hq e = absurd (omega arith)
nibble_value_injective (suc n) (x ∷ p) (y ∷ q) vp vq hp hq e =
    let (first, rest) =
      same_digits x y (16 ^ n) (nibble_value n p) (nibble_value n q)
        (nibble_value-lt n p vp.1 (omega arith)) (nibble_value-lt n q vq.1 (omega arith)) e in
    cc (first, nibble_value_injective n p q vp.1 vq.1 (omega arith) (omega arith) rest)

same_id : (l m x y : ℕ) → x < 16 ^ l → y < 16 ^ m → offset l + x ≡ offset m + y → l ≡ m
same_id l m x y a b e = elim (dec_lt l m) [
  | yes h ↦ absurd (levels_apart l m x y h a e)
  | no h ↦ elim (dec_lt m l) [
    | yes k ↦ absurd (levels_apart m l y x k b (sym e))
    | no k ↦ omega arith
  ]
]

-- Static IDs tell positions apart: if two paths of nibbles have the same static ID, at levels up to
-- 8 that lie inside them, the levels are equal and so are the nibbles that were consumed.
pub static_vid_injective :
    (p q : List ℕ) (l m id : ℕ)
    → Nibbles p
    → Nibbles q
    → l ≤ 8
    → m ≤ 8
    → l ≤ length p
    → m ≤ length q
    → static_vid p l ≡ some id
    → static_vid q m ≡ some id
    → (l ≡ m) × (take l p ≡ take m q)
static_vid_injective p q l m id vp vq hl hm lp lq ep eq =
    let x = nibble_value l p in
    let y = nibble_value m q in
    let sums : offset l + x ≡ offset m + y =
      some_eq (sym (static_vid-eq p l vp hl lp) ∙ ep ∙ sym eq ∙ static_vid-eq q m vq hm lq) in
    let level : l ≡ m =
      same_id l m x y (nibble_value-lt l p vp lp) (nibble_value-lt m q vq lq) sums in
    let values : x ≡ nibble_value l q =
      omega (arith, sums, ap offset level, ap (λ (t : ℕ). nibble_value t q) level) in
    (
      level,
      nibble_value_injective l p q vp vq lp (omega (arith, level)) values
          ∙ ap (λ (t : ℕ). take t q) level,
    )
  where
    some_eq : {a b : ℕ} → some a ≡ some b → a ≡ b
    some_eq e = cc

-- The ID of a path of nibbles at a level up to 8 inside it exists and lies in the static range, so
-- below every ID of the allocator.
pub static_vid-is_static :
    (path : List ℕ) (level : ℕ)
    → Nibbles path
    → level ≤ 8
    → level ≤ length path
    → (id : ℕ) × (static_vid path level ≡ some id) × (is_static id ≡ true)
static_vid-is_static path level v l h =
    let id = offset level + nibble_value level path in
    let bound : nibble_value level path < 16 ^ level = nibble_value-lt level path v h in
    let top = (offset-in_table level l).1 in
    (id, static_vid-eq path level v l h, unfold is_static offset in ground (arith, bound, top))
