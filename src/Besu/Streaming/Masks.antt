-- ===== src/Besu/Streaming/Masks.antt =====
-- The occupancy masks of the spine: how many bits they have, and the children of a branch.
use state_actor.Besu.Streaming.{
  popcount_loop, popcount, shifted_one, set_mask, before_mask, strip_zeros, branch_items,
}
use state_actor.Prelude.{
  ℕ, zero, suc, ◌+◌, ◌/◌, ◌%◌, ◌^◌, ◌≤◌, ◌<◌, ◌≡◌, refl, ap, sym, arith, false, some, List, [], ◌∷◌,
  length, get_elem?, take, ltb, leb, leb→le, ltb→lt, ◌==◌, bit_and, bit_or, inl, inr, Bool-cases,
}
use state_actor.Prelude.Bits.{bit_or_low, bit_and_low, bit_and_mask}
use state_actor.Prelude.Tables.{holds_below, holds_at}
use mathlib.Core.Option.{some-ne-none}
use native.Mathlib.Nat.{pow-suc}

popcount_loop-bit_or :
    (n a b : ℕ) → popcount_loop n (bit_or a b) ≤ popcount_loop n a + popcount_loop n b
unfolding popcount_loop
popcount_loop-bit_or zero a b = omega arith
popcount_loop-bit_or (suc n) a b =
    let low = bit_or_low a b in
    let half : bit_or a b / 2 ≡ bit_or (a / 2) (b / 2) = omega (arith, low) in
    omega (arith, low, ap (popcount_loop n) half, popcount_loop-bit_or n (a / 2) (b / 2))

popcount-shifted_one : (d : ℕ) → popcount (shifted_one d) ≤ 1
unfolding popcount popcount_loop holds_below
popcount-shifted_one d = elim (Bool-cases (ltb d 16)) [
  | inl e ↦
      leb→le (popcount (shifted_one d)) 1
        (holds_at 16 (λ d. leb (popcount (shifted_one d)) 1) d refl (ltb→lt d 16 e))
  | inr e ↦ rw e (omega arith)
]

popcount-set : (x d : ℕ) → popcount (bit_or x (shifted_one d)) ≤ popcount x + 1
unfolding popcount
popcount-set x d = omega (arith, popcount_loop-bit_or 16 x (shifted_one d), popcount-shifted_one d)

-- All the bits of the masks.
unfoldable pub bits : List ℕ → ℕ
bits [] = 0
bits (x ∷ masks) = popcount x + bits masks

popcount-zero : popcount 0 ≡ 0
unfolding popcount popcount_loop
popcount-zero = refl

pub bits-set_mask : (masks : List ℕ) (i d : ℕ) → bits (set_mask masks i d) ≤ bits masks + 1
unfolding bits set_mask
bits-set_mask [] zero d = omega (arith, popcount-set 0 d, popcount-zero)
bits-set_mask [] (suc i) d = omega (arith, bits-set_mask [] i d, popcount-zero)
bits-set_mask (x ∷ masks) zero d = omega (arith, popcount-set x d)
bits-set_mask (x ∷ masks) (suc i) d = omega (arith, bits-set_mask masks i d)

pub length-set_mask :
    (n : ℕ) (masks : List ℕ) (i d : ℕ) → length masks ≤ n → i < n → length (set_mask masks i d) ≤ n
unfolding set_mask
length-set_mask zero masks i d h k = absurd (omega arith)
length-set_mask (suc n) [] zero d h k = omega arith
length-set_mask (suc n) [] (suc i) d h k = omega (arith, length-set_mask n [] i d)
length-set_mask (suc n) (x ∷ masks) zero d h k = omega arith
length-set_mask (suc n) (x ∷ masks) (suc i) d h k = omega (arith, length-set_mask n masks i d)

-- The mask that is set, and the bits beside it.
pub set_mask-at : (masks : List ℕ) (i d : ℕ) → (x : ℕ) × (get_elem? (set_mask masks i d) i ≡ some x)
unfolding set_mask
set_mask-at [] zero d = (_, refl)
set_mask-at [] (suc i) d = set_mask-at [] i d
set_mask-at (x ∷ masks) zero d = (_, refl)
set_mask-at (x ∷ masks) (suc i) d = set_mask-at masks i d

some_eq : {x y : ℕ} → some x ≡ some y → popcount x ≡ popcount y
some_eq h = cc

pub bits-take :
    (masks : List ℕ) (i x : ℕ)
    → get_elem? masks i ≡ some x
    → bits (take i masks) + popcount x ≤ bits masks
unfolding bits
bits-take [] i x h = absurd (some-ne-none x (sym h))
bits-take (y ∷ masks) zero x h = omega (arith, some_eq h)
bits-take (y ∷ masks) (suc i) x h = omega (arith, bits-take masks i x h)

bits-before_mask : (x : ℕ) (masks : List ℕ) → bits (before_mask x masks) ≤ popcount x + bits masks
unfolding bits
bits-before_mask x [] = elim (Bool-cases (x == 0)) [
  | inl e ↦ rw e (omega arith)
  | inr e ↦ rw e (omega arith)
]
bits-before_mask x (y ∷ masks) = omega arith

pub bits-strip_zeros : (masks : List ℕ) → bits (strip_zeros masks) ≤ bits masks
unfolding bits strip_zeros
bits-strip_zeros [] = omega arith
bits-strip_zeros (x ∷ masks) =
    omega (arith, bits-before_mask x (strip_zeros masks), bits-strip_zeros masks)

length-before_mask : (x : ℕ) (masks : List ℕ) → length (before_mask x masks) ≤ suc (length masks)
length-before_mask x [] = elim (Bool-cases (x == 0)) [
  | inl e ↦ rw e (omega arith)
  | inr e ↦ rw e (omega arith)
]
length-before_mask x (y ∷ masks) = omega arith

pub length-strip_zeros : (masks : List ℕ) → length (strip_zeros masks) ≤ length masks
unfolding strip_zeros
length-strip_zeros [] = omega arith
length-strip_zeros (x ∷ masks) =
    omega (arith, length-before_mask x (strip_zeros masks), length-strip_zeros masks)

pub length-take : (n : ℕ) (xs : List ℕ) → length (take n xs) ≤ n
length-take zero xs = omega arith
length-take (suc n) [] = omega arith
length-take (suc n) (x ∷ xs) = omega (arith, length-take n xs)

-- A mask shifted down.
unfoldable pub halved : ℕ → ℕ → ℕ
halved zero m = m
halved (suc k) m = halved k (m / 2)

untaken : (k m : ℕ) → halved k m % 2 ≡ 0 → bit_and m (2 ^ k) ≡ 0
unfolding halved
untaken zero m h = omega (arith, bit_and_low m 1, bit_and_mask 0 (m / 2))
untaken (suc k) m h =
    let double = pow-suc 2 k in
    let half : 2 ^ suc k / 2 ≡ 2 ^ k = omega (arith, double) in
    omega (arith, bit_and_low m (2 ^ suc k), ap (bit_and (m / 2)) half, untaken k (m / 2) h, double)

halved-half : (k m : ℕ) → halved (suc k) m ≡ halved k m / 2
unfolding halved
halved-half zero m = refl
halved-half (suc k) m = halved-half k (m / 2)

taken : (k m : ℕ) → (bit_and m (2 ^ k) == 0) ≡ false → halved k m % 2 ≡ 1
taken k m h = ground (arith, untaken k m)

-- A branch takes as many children as its mask has bits.
pub branch_items-some :
    (left slot mask : ℕ) (children : List (List ℕ))
    → popcount_loop left (halved slot mask) ≤ length children
    → (items : List (List ℕ)) × (branch_items left slot mask children ≡ some items)
unfolding branch_items popcount_loop
branch_items-some zero slot mask children h = (_, refl)
branch_items-some (suc left) slot mask [] h =
    let next = ap (popcount_loop left) (halved-half slot mask) in
    let rest = branch_items-some left (suc slot) mask [] (omega (arith, h, next)) in
    rw (untaken slot mask (omega (arith, h)), rest.1) (_, refl)
branch_items-some (suc left) slot mask (c ∷ children) h =
    let next = ap (popcount_loop left) (halved-half slot mask) in
    elim (Bool-cases (bit_and mask (2 ^ slot) == 0)) [
      | inl e ↦
          (let rest =
              branch_items-some left (suc slot) mask (c ∷ children) (omega (arith, h, next)) in
            rw (e, rest.1) (_, refl))
      | inr e ↦
          (let one = taken slot mask e in
            let rest =
              branch_items-some left (suc slot) mask children (omega (arith, h, next, one)) in
            rw (e, rest.1) (_, refl))
    ]
