-- ===== src/Neth/FlatKeys/Nodes.antt =====
-- The nibble path that a node key spells: the bytes of the packed path, and its length.
use state_actor.Prelude.{
  ℕ, zero, suc, ◌+◌, ◌*◌, ◌/◌, ◌%◌, ◌≤◌, ◌<◌, ◌≡◌, refl, ap, ◌∙◌, arith, List, [], ◌∷◌, length,
  take, bit_and, bit_or, ◌==◌, ==_iff, true,
}
use state_actor.Prelude.Bits.{bit_or_disjoint, bit_and_mask}
use state_actor.Prelude.Tables.{holds_below, holds_at}
use state_actor.Bytes.{Nibbles, Bytes, high, low, low-eq-mod}
use state_actor.Bytes.Slices.{last_byte, last_byte-cons}
use state_actor.HexPrefix.Loops.{spread}
use state_actor.Neth.TrieBuilder.{pack_loop}
use state_actor.Neth.FlatKeys.{set_last}

-- The last byte with the length in its low nibble.
high_nibble_kept : (x : ℕ) → x < 256 → bit_and x 0xf0 ≡ x / 16 * 16
unfolding holds_below
high_nibble_kept x h = (==_iff (bit_and x 0xf0) (x / 16 * 16)).0 (kept x h)
  where
    kept : (x : ℕ) → x < 256 → (bit_and x 0xf0 == x / 16 * 16) ≡ true
    kept x h = holds_at 256 (λ y. bit_and y 0xf0 == y / 16 * 16) x refl h

pub with_length-eq :
    (x path_len : ℕ)
    → x < 256
    → bit_or (bit_and x 0xf0) (bit_and path_len 0x0f) ≡ x / 16 * 16 + path_len % 16
with_length-eq x path_len h =
    let masked : bit_and path_len 0x0f ≡ path_len % 16 = bit_and_mask 4 path_len in
    rw (high_nibble_kept x h, masked) (bit_or_disjoint 4 (x / 16) (path_len % 16) (omega arith))

pub length-set_last : (path_len : ℕ) (out : List ℕ) → length (set_last path_len out) ≡ length out
unfolding set_last
length-set_last path_len [] = refl
length-set_last path_len (x ∷ []) = refl
length-set_last path_len (x ∷ y ∷ out) = ap suc (length-set_last path_len (y ∷ out))

pub last_byte-set_last :
    (path_len x : ℕ) (out : List ℕ)
    → Bytes (x ∷ out)
    → last_byte (set_last path_len (x ∷ out)) % 16 ≡ path_len % 16
unfolding set_last
last_byte-set_last path_len x [] h = omega (arith, with_length-eq x path_len h.0)
last_byte-set_last path_len x (y ∷ out) h =
    ap (λ t. t % 16)
      (last_byte-cons x (set_last path_len (y ∷ out))
        (omega (arith, length-set_last path_len (y ∷ out))))
    ∙ last_byte-set_last path_len y out h.1

-- The length does not touch the nibbles before the last.
pub spread-set_last :
    (n path_len : ℕ) (out : List ℕ)
    → Bytes out
    → n < 2 * length out
    → take n (spread (set_last path_len out)) ≡ take n (spread out)
unfolding spread set_last high
spread-set_last n path_len [] h l = refl
spread-set_last zero path_len (x ∷ []) h l = refl
spread-set_last (suc zero) path_len (x ∷ []) h l =
    let e : (x / 16 * 16 + path_len % 16) / 16 ≡ x / 16 = omega arith in
    ap (λ t. t ∷ []) (ap (λ t. t / 16) (with_length-eq x path_len h.0) ∙ e)
spread-set_last (suc (suc n)) path_len (x ∷ []) h l = absurd (omega arith)
spread-set_last zero path_len (x ∷ y ∷ out) h l = refl
spread-set_last (suc zero) path_len (x ∷ y ∷ out) h l = refl
spread-set_last (suc (suc n)) path_len (x ∷ y ∷ out) h l =
    ap (λ t. high x ∷ low x ∷ t) (spread-set_last n path_len (y ∷ out) h.1 (omega arith))

pub take-spread-take :
    (n m : ℕ) (b : List ℕ) → n ≤ 2 * m → take n (spread (take m b)) ≡ take n (spread b)
unfolding spread
take-spread-take zero m b h = refl
take-spread-take (suc n) zero b h = absurd (omega arith)
take-spread-take (suc n) (suc m) [] h = refl
take-spread-take (suc zero) (suc m) (x ∷ b) h = refl
take-spread-take (suc (suc n)) (suc m) (x ∷ b) h =
    ap (λ t. high x ∷ low x ∷ t) (take-spread-take n m b (omega arith))

packed_byte : (a b : ℕ) → a < 16 → b < 16 → bit_or (a * 16 % 256) (bit_and b 0x0f) ≡ a * 16 + b
packed_byte a b h k =
    let shifted : a * 16 % 256 ≡ a * 16 = omega arith in
    let masked : bit_and b 0x0f ≡ b = omega (arith, bit_and_mask 4 b) in
    rw (shifted, masked) (bit_or_disjoint 4 a b k)

pub take-spread-pack_loop :
    (room : ℕ) (p : List ℕ)
    → Nibbles p
    → length p ≤ 2 * room
    → take (length p) (spread (pack_loop room p)) ≡ p
unfolding spread pack_loop high
take-spread-pack_loop zero [] h l = refl
take-spread-pack_loop zero (a ∷ p) h l = absurd (omega arith)
take-spread-pack_loop (suc room) [] h l = refl
take-spread-pack_loop (suc room) (a ∷ []) h l =
    let first : a * 16 % 256 / 16 ≡ a = omega (arith, h.0) in ap (λ t. t ∷ []) first
take-spread-pack_loop (suc room) (a ∷ b ∷ p) h l =
    let first : (a * 16 + b) / 16 ≡ a = omega (arith, h.1.0) in
    let second : low (a * 16 + b) ≡ b = low-eq-mod (a * 16 + b) ∙ omega (arith, h.1.0) in
    rw (packed_byte a b h.0 h.1.0, first, second, take-spread-pack_loop room p h.1.1 (omega arith))
      refl

pub pack_loop-Bytes : (room : ℕ) (p : List ℕ) → Nibbles p → Bytes (pack_loop room p)
unfolding pack_loop
pack_loop-Bytes zero p h = tt
pack_loop-Bytes (suc room) [] h = (omega arith, pack_loop-Bytes room [] tt)
pack_loop-Bytes (suc room) (a ∷ []) h = (omega arith, pack_loop-Bytes room [] tt)
pack_loop-Bytes (suc room) (a ∷ b ∷ p) h =
    (omega (arith, packed_byte a b h.0 h.1.0, h.0, h.1.0), pack_loop-Bytes room p h.1.1)

pub length-pack_loop : (room : ℕ) (p : List ℕ) → length (pack_loop room p) ≡ room
unfolding pack_loop
length-pack_loop zero p = refl
length-pack_loop (suc room) [] = ap suc (length-pack_loop room [])
length-pack_loop (suc room) (a ∷ []) = ap suc (length-pack_loop room [])
length-pack_loop (suc room) (a ∷ b ∷ p) = ap suc (length-pack_loop room p)
