-- ===== src/Bytes/Slices.antt =====
-- Slices of byte slices, and their last byte.
use state_actor.Prelude.{
  ℕ, ◌+◌, ◌-◌, ◌≤◌, ◌≡◌, refl, arith, List, [], ◌∷◌, ◌++◌, length, take, drop, take-append,
  drop-append,
}

-- `b[from:to]`
abbrev pub slice : List ℕ → ℕ → ℕ → List ℕ
slice b from to = take (to - from) (drop from b)

-- The last byte.
abbrev pub last_byte : List ℕ → ℕ
last_byte [] = 0
last_byte (x ∷ []) = x
last_byte (x ∷ y ∷ b) = last_byte (y ∷ b)

pub last_byte-append : (b : List ℕ) (x : ℕ) → last_byte (b ++ (x ∷ [])) ≡ x
last_byte-append [] x = refl
last_byte-append (y ∷ []) x = refl
last_byte-append (y ∷ z ∷ b) x = last_byte-append (z ∷ b) x

-- A slice between two appended parts.
pub slice-append :
    (a b c : List ℕ) (from to : ℕ)
    → from ≡ length a
    → to ≡ length a + length b
    → slice (a ++ (b ++ c)) from to ≡ b
slice-append a b c from to h k =
    let n : to - from ≡ length b = omega (arith, h, k) in
    rw (n, h, drop-append a (b ++ c), take-append b c) refl

pub take_all : (b c : List ℕ) (n : ℕ) → n ≡ length b → take n (b ++ c) ≡ b
take_all b c n h = rw h (take-append b c)

pub last_byte-cons : (x : ℕ) (b : List ℕ) → 1 ≤ length b → last_byte (x ∷ b) ≡ last_byte b
last_byte-cons x [] h = absurd (omega arith)
last_byte-cons x (y ∷ b) h = refl
