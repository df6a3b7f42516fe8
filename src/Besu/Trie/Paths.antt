-- ===== src/Besu/Trie/Paths.antt =====
-- Paths: a number of nibbles and the terminator; how two paths part.
use state_actor.Prelude.{
  ℕ, zero, suc, ◌+◌, ◌<◌, ◌≡◌, ◌≢◌, refl, sym, ◌∙◌, arith, ◌↔◌, inl, inr, Bool, true, false, List,
  [], ◌∷◌, ◌++◌, length, ◌==◌, Option, none, if◌then◌else◌, Bool-cases,
}
use state_actor.Bytes.{Nibbles}
use state_actor.Ethrex.Nibbles.{common_prefix_len}
use state_actor.Besu.Trie.{equal_nibbles, leaf_terminator}

-- `n` nibbles and then the terminator.
abbrev pub IsPath : ℕ → List ℕ → Type 0
IsPath n [] = ⊥
IsPath zero (x ∷ p) = (x ≡ leaf_terminator) × (p ≡ [])
IsPath (suc n) (x ∷ p) = (x < 16) × IsPath n p

pub equal_nibbles_iff : (p q : List ℕ) → (equal_nibbles p q ≡ true) ↔ (p ≡ q)
unfolding equal_nibbles
equal_nibbles_iff [] [] = (λ _. refl, λ _. refl)
equal_nibbles_iff [] (y ∷ q) = (λ e. cc, λ e. cc)
equal_nibbles_iff (x ∷ p) [] = (λ e. cc, λ e. cc)
equal_nibbles_iff (x ∷ p) (y ∷ q) = let (to, from) = equal_nibbles_iff p q in ground arith

pub equal_nibbles_refl : (p : List ℕ) → equal_nibbles p p ≡ true
equal_nibbles_refl p = (equal_nibbles_iff p p).1 refl

-- What two paths share, and where `common_prefix_len` stops.
pub data Split (p q : List ℕ) : Type 0 where
  covers : (r : List ℕ) → q ≡ p ++ r → common_prefix_len p q ≡ length p → Split p q
  within : (x : ℕ) (r : List ℕ) → p ≡ q ++ (x ∷ r) → common_prefix_len p q ≡ length q → Split p q
  diverges :
      (c : List ℕ) (a b : ℕ) (r s : List ℕ)
      → a ≢ b
      → p ≡ c ++ (a ∷ r)
      → q ≡ c ++ (b ∷ s)
      → common_prefix_len p q ≡ length c
      → Split p q

Split-cons : (x y : ℕ) (p q : List ℕ) → x ≡ y → Split p q → Split (x ∷ p) (y ∷ q)
unfolding common_prefix_len
Split-cons x y p q h (covers r e l) = covers r (cc) (ground arith)
Split-cons x y p q h (within z r e l) = within z r (cc) (ground arith)
Split-cons x y p q h (diverges c a b r s n e f l) =
    diverges (x ∷ c) a b r s n (cc) (cc) (ground arith)

pub split : (p q : List ℕ) → Split p q
unfolding common_prefix_len
split [] q = covers q refl refl
split (x ∷ p) [] = within x p refl refl
split (x ∷ p) (y ∷ q) = elim (Bool-cases (x == y)) [
  | inl e ↦ Split-cons x y p q (ground arith) (split p q)
  | inr e ↦ diverges [] x y p q (ground arith) refl refl (rw e)
]

-- Two paths of the same number of nibbles part at a nibble.
pub record Parting (n : ℕ) (c : List ℕ) (a b : ℕ) (r s : List ℕ) : Type 0 where
  pub left : ℕ
  pub size : n ≡ length c + suc left
  pub shared : Nibbles c
  pub old_nibble : a < 16
  pub new_nibble : b < 16
  pub old_rest : IsPath left r
  pub new_rest : IsPath left s

pub parting :
    (n : ℕ) (c : List ℕ) (a b : ℕ) (r s : List ℕ)
    → a ≢ b
    → IsPath n (c ++ (a ∷ r))
    → IsPath n (c ++ (b ∷ s))
    → Parting n c a b r s
parting zero [] a b r s ne h k = absurd (ne (h.0 ∙ sym k.0))
parting zero (x ∷ []) a b r s ne h k = cc (h.1)
parting zero (x ∷ y ∷ c) a b r s ne h k = cc (h.1)
parting (suc n) [] a b r s ne h k = record {
  left = n;
  size = omega arith;
  shared = tt;
  old_nibble = h.0;
  new_nibble = k.0;
  old_rest = h.1;
  new_rest = k.1;
}
parting (suc n) (x ∷ c) a b r s ne h k =
    let p = parting n c a b r s ne h.1 k.1 in
    record {
      left = p.left;
      size = omega (arith, p.size);
      shared = (h.0, p.shared);
      old_nibble = p.old_nibble;
      new_nibble = p.new_nibble;
      old_rest = p.old_rest;
      new_rest = p.new_rest;
    }

-- No path goes on behind another of the same number of nibbles.
pub IsPath-ends :
    (n : ℕ) (q : List ℕ) (x : ℕ) (r : List ℕ) → IsPath n (q ++ (x ∷ r)) → IsPath n q → ⊥
IsPath-ends zero [] x r h k = k
IsPath-ends zero (y ∷ []) x r h k = cc (h.1)
IsPath-ends zero (y ∷ z ∷ q) x r h k = cc (h.1)
IsPath-ends (suc n) [] x r h k = k
IsPath-ends (suc n) (y ∷ q) x r h k = IsPath-ends n q x r h.1 k.1

-- A function of what follows `c`, with a default for the lists that do not begin with `c`.
module _ {ℓ} {X : Type ℓ} where
  unfoldable pub along : List ℕ → X → (List ℕ → X) → List ℕ → X
  along [] d f q = f q
  along (x ∷ c) d f [] = d
  along (x ∷ c) d f (y ∷ q) = let rest = along c d f q in if x == y then rest else d

  pub along-append :
      (c e : List ℕ) (d : X) (f : List ℕ → X) (q : List ℕ)
      → along (c ++ e) d f q ≡ along c d (along e d f) q
  unfolding along
  along-append [] e d f q = refl
  along-append (x ∷ c) e d f [] = refl
  along-append (x ∷ c) e d f (y ∷ q) = rw (along-append c e d f q)

pub along-if :
    (c : List ℕ) (test : List ℕ → Bool) (v : Option (List ℕ)) (f : List ℕ → Option (List ℕ))
    (q : List ℕ)
    → (if along c false test q then v else along c none f q)
      ≡ along c none (λ r. if test r then v else f r) q
unfolding along
along-if [] test v f q = refl
along-if (x ∷ c) test v f [] = refl
along-if (x ∷ c) test v f (y ∷ q) = ground (arith, along-if c test v f q)

pub equal_nibbles-append :
    (c p q : List ℕ) → equal_nibbles (c ++ p) q ≡ along c false (equal_nibbles p) q
unfolding equal_nibbles along
equal_nibbles-append [] p q = refl
equal_nibbles-append (x ∷ c) p [] = refl
equal_nibbles-append (x ∷ c) p (y ∷ q) = rw (equal_nibbles-append c p q)
