-- ===== src/Nimbus/Sbe/Trim.antt =====
-- Leading zero bytes: what is left without them, and putting them back.
use state_actor.Prelude.{
  ℕ, zero, suc, ◌+◌, ◌-◌, ◌≤◌, ◌≡◌, refl, sym, ap, ◌∙◌, arith, List, [], ◌∷◌, length, ◌==◌,
  Bool-cases, inl, inr, ==_iff,
}
use state_actor.Nimbus.Sbe.{trim_zeros}

-- `n` zero bytes before others.
abbrev pub zeros : ℕ → List ℕ → List ℕ
zeros zero b = b
zeros (suc n) b = 0 ∷ zeros n b

pub length-trim_zeros : (k : ℕ) (b : List ℕ) → length (trim_zeros k b) ≤ length b
unfolding trim_zeros
length-trim_zeros zero b = omega arith
length-trim_zeros (suc k) [] = omega arith
length-trim_zeros (suc k) (x ∷ b) = ground (arith, length-trim_zeros k b)

pub zeros-trim_zeros :
    (k : ℕ) (b : List ℕ) → zeros (length b - length (trim_zeros k b)) (trim_zeros k b) ≡ b
unfolding trim_zeros
zeros-trim_zeros zero b = let e : length b - length b ≡ 0 = omega arith in rw e refl
zeros-trim_zeros (suc k) [] = refl
zeros-trim_zeros (suc k) (x ∷ b) = elim (Bool-cases (x == 0)) [
  | inl e ↦
      (let zero_first : 0 ≡ x = sym ((==_iff x 0).0 e) in
        let one_more : suc (length b) - length (trim_zeros k b)
            ≡ suc (length b - length (trim_zeros k b)) =
          omega (arith, length-trim_zeros k b) in
        rw (e, one_more) (ap (λ l. 0 ∷ l) (zeros-trim_zeros k b) ∙ ap (λ t. t ∷ b) zero_first))
  | inr e ↦
      (let nothing : suc (length b) - suc (length b) ≡ 0 = omega arith in rw (e, nothing) refl)
]

-- At most `k` are dropped.
pub trim_zeros_kept : (k : ℕ) (b : List ℕ) → length b ≤ length (trim_zeros k b) + k
unfolding trim_zeros
trim_zeros_kept zero b = omega arith
trim_zeros_kept (suc k) [] = omega arith
trim_zeros_kept (suc k) (x ∷ b) = ground (arith, trim_zeros_kept k b)
