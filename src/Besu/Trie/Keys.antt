-- ===== src/Besu/Trie/Keys.antt =====
-- The path of a 32-byte hash: 64 nibbles and the terminator, one path for each hash.
use state_actor.Prelude.{
  ℕ, zero, suc, ◌≡◌, refl, sym, ap, ◌∙◌, arith, Bool, true, false, List, [], ◌∷◌, ◌++◌, length,
}
use state_actor.Bytes.{Bytes, Nibbles}
use state_actor.HexPrefix.Loops.{
  spread, packed, append_nibbles-eq-spread, packed-spread, length-spread, spread-Nibbles,
}
use state_actor.Besu.Trie.{key_path, equal_nibbles, leaf_terminator}
use state_actor.Besu.Trie.Paths.{IsPath, equal_nibbles_iff}

abbrev pub IsHash : List ℕ → Type 0
IsHash key = (length key ≡ 32) × Bytes key

pub key_path-eq : (key : List ℕ) → key_path key ≡ spread key ++ (leaf_terminator ∷ [])
unfolding key_path
key_path-eq key = ap (λ l. l ++ (leaf_terminator ∷ [])) (append_nibbles-eq-spread [] key)

terminated :
    (n : ℕ) (ns : List ℕ) → length ns ≡ n → Nibbles ns → IsPath n (ns ++ (leaf_terminator ∷ []))
terminated zero [] e v = (refl, refl)
terminated (suc n) [] e v = absurd (omega arith)
terminated zero (x ∷ ns) e v = absurd (omega arith)
terminated (suc n) (x ∷ ns) e v = (v.0, terminated n ns (omega arith) v.1)

pub key_path-IsPath : (key : List ℕ) → IsHash key → IsPath 64 (key_path key)
key_path-IsPath key h =
    rw (key_path-eq key)
      (terminated 64 (spread key) (omega (arith, length-spread key, h.0)) (spread-Nibbles key h.1))

same_front :
    (xs ys : List ℕ) (z : ℕ) → length xs ≡ length ys → xs ++ (z ∷ []) ≡ ys ++ (z ∷ []) → xs ≡ ys
same_front [] [] z l e = refl
same_front [] (y ∷ ys) z l e = absurd (omega arith)
same_front (x ∷ xs) [] z l e = absurd (omega arith)
same_front (x ∷ xs) (y ∷ ys) z l e = cc (same_front xs ys z (omega arith) (cc))

pub key_path_injective : (a b : List ℕ) → IsHash a → IsHash b → key_path a ≡ key_path b → a ≡ b
key_path_injective a b h k e =
    let same : spread a ≡ spread b =
      same_front (spread a) (spread b) leaf_terminator
        (omega (arith, length-spread a, length-spread b, h.0, k.0))
        (sym (key_path-eq a) ∙ e ∙ key_path-eq b) in
    sym (packed-spread a h.1) ∙ ap packed same ∙ packed-spread b k.1

Bool_eq : (a b : Bool) → (a ≡ true → b ≡ true) → (b ≡ true → a ≡ true) → a ≡ b
Bool_eq true b f g = sym (f refl)
Bool_eq false true f g = g refl
Bool_eq false false f g = refl

-- Comparing paths is comparing hashes.
pub equal_nibbles-key_path :
    (a b : List ℕ)
    → IsHash a
    → IsHash b
    → equal_nibbles (key_path a) (key_path b) ≡ equal_nibbles a b
equal_nibbles-key_path a b h k =
    Bool_eq (equal_nibbles (key_path a) (key_path b)) (equal_nibbles a b)
      (λ e.
        (equal_nibbles_iff a b).1
          (key_path_injective a b h k ((equal_nibbles_iff (key_path a) (key_path b)).0 e)))
      (λ e.
        (equal_nibbles_iff (key_path a) (key_path b)).1 (ap key_path ((equal_nibbles_iff a b).0 e)))
