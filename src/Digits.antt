-- ===== src/Digits.antt =====
-- Integers given by a fixed number of bytes: the tests' instance of the uint256 package.
use state_actor.Prelude.{
  ℕ, zero, suc, ◌+◌, ◌-◌, ◌≤◌, ◌≡◌, refl, sym, ap, ◌∙◌, arith, true, false, List, [], ◌∷◌, length,
  ◌==◌,
}
use state_actor.Nimbus.Sbe.{trim_zeros}
use state_actor.Nimbus.Sbe.Trim.{zeros, length-trim_zeros, zeros-trim_zeros}
use state_actor.Nimbus.Vertex.{Uint256}
use state_actor.Nimbus.Vertex.Leaf.{Pads}
use state_actor.Nimbus.Vertex.Account.{IsUint256}

abbrev pub Digits : ℕ → Type 0
Digits zero = Unit
Digits (suc n) = ℕ × Digits n

abbrev pub write_digits : (n : ℕ) → Digits n → List ℕ
write_digits zero d = []
write_digits (suc n) (x, d) = x ∷ write_digits n d

abbrev pub set_digits : (n : ℕ) → List ℕ → Digits n
set_digits zero xs = tt
set_digits (suc n) [] = (0, set_digits n [])
set_digits (suc n) (x ∷ xs) = (x, set_digits n xs)

pub length-write_digits : (n : ℕ) (d : Digits n) → length (write_digits n d) ≡ n
length-write_digits zero d = refl
length-write_digits (suc n) (x, d) = ap suc (length-write_digits n d)

pub set_digits-write_digits : (n : ℕ) (d : Digits n) → set_digits n (write_digits n d) ≡ d
set_digits-write_digits zero tt = refl
set_digits-write_digits (suc n) (x, d) = ap (λ (q : Digits n). (x, q)) (set_digits-write_digits n d)

write_digits-set_digits : (n : ℕ) (b : List ℕ) → length b ≡ n → write_digits n (set_digits n b) ≡ b
write_digits-set_digits zero [] h = refl
write_digits-set_digits zero (x ∷ b) h = ground arith
write_digits-set_digits (suc n) [] h = ground arith
write_digits-set_digits (suc n) (x ∷ b) h =
    ap (λ l. x ∷ l) (write_digits-set_digits n b (omega arith))

length-zeros : (n : ℕ) (b : List ℕ) → length (zeros n b) ≡ n + length b
length-zeros zero b = omega arith
length-zeros (suc n) b = omega (arith, length-zeros n b)

abbrev pub words : Uint256 (Digits 32)
words = record {
  zero_int = set_digits 32 (zeros 32 []);
  is_zero = λ v. length (trim_zeros 32 (write_digits 32 v)) == 0;
  bytes = λ v. trim_zeros 32 (write_digits 32 v);
  set_bytes = λ b. set_digits 32 (zeros (32 - length b) b);
  bytes32 = write_digits 32;
}

-- A word without its leading zeros, filled up again.
refilled :
    (v : Digits 32)
    → let b = trim_zeros 32 (write_digits 32 v) in set_digits 32 (zeros (32 - length b) b) ≡ v
refilled v =
    let b = write_digits 32 v in
    ap (λ (n : ℕ). set_digits 32 (zeros (n - length (trim_zeros 32 b)) (trim_zeros 32 b)))
      (sym (length-write_digits 32 v))
    ∙ ap (set_digits 32) (zeros-trim_zeros 32 b)
    ∙ set_digits-write_digits 32 v

nothing_left : (b : List ℕ) → (length b == 0) ≡ true → b ≡ []
nothing_left [] h = refl
nothing_left (x ∷ b) h = ground arith

pub words-IsUint256 : IsUint256 words
words-IsUint256 = record {
  zero_eq = λ v h.
      sym (refilled v)
      ∙ ap (λ b. set_digits 32 (zeros (32 - length b) b)) (nothing_left (words.bytes v) h);
  short = λ v. omega (arith, length-trim_zeros 32 (write_digits 32 v), length-write_digits 32 v);
  some_bytes = λ v h. some_left (words.bytes v) h;
  set_bytes-bytes = λ v h. refilled v;
}
  where
    some_left : (b : List ℕ) → (length b == 0) ≡ false → 1 ≤ length b
    some_left b h = ground arith

pub words-Pads : Pads words
words-Pads b h =
    write_digits-set_digits 32 (zeros (32 - length b) b)
      (omega (arith, length-zeros (32 - length b) b))
