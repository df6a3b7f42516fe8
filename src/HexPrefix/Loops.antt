-- ===== src/HexPrefix/Loops.antt =====
-- The loops over nibble pairs, which append to a slice, as plain recursions.
use state_actor.Prelude.{
  ℕ, ◌+◌, ◌/◌, ◌%◌, ◌≡◌, refl, sym, ◌∙◌, arith, List, [], ◌∷◌, ◌++◌, append-nil, append_assoc,
  length, some,
}
use state_actor.Bytes.{
  high, low, join, Bytes, Nibbles, high-join, low-join, join-high-low, high-lt, low-lt, join-lt,
}
use state_actor.Ethrex.Nibbles.{append_nibbles, pack_pairs}
use state_actor.Besu.Compact.{fill_pairs}

unfoldable pub spread : List ℕ → List ℕ
spread [] = []
spread (b ∷ bs) = high b ∷ low b ∷ spread bs

unfoldable pub packed : List ℕ → List ℕ
packed [] = []
packed (a ∷ []) = []
packed (a ∷ b ∷ rest) = join a b ∷ packed rest

pub append_nibbles-eq-spread : (dst bs : List ℕ) → append_nibbles dst bs ≡ dst ++ spread bs
unfolding append_nibbles spread
append_nibbles-eq-spread dst [] = sym (append-nil dst)
append_nibbles-eq-spread dst (b ∷ bs) =
    append_nibbles-eq-spread (dst ++ (high b ∷ low b ∷ [])) bs
    ∙ append_assoc dst (high b ∷ low b ∷ []) (spread bs)

pub pack_pairs-eq-packed : (dst ns : List ℕ) → pack_pairs dst ns ≡ dst ++ packed ns
unfolding pack_pairs packed
pack_pairs-eq-packed dst [] = sym (append-nil dst)
pack_pairs-eq-packed dst (a ∷ []) = sym (append-nil dst)
pack_pairs-eq-packed dst (a ∷ b ∷ rest) =
    pack_pairs-eq-packed (dst ++ (join a b ∷ [])) rest
    ∙ append_assoc dst (join a b ∷ []) (packed rest)

-- On a path of even length the reading loop of Besu stays in range.
pub fill_pairs-eq-packed : (ns : List ℕ) → length ns % 2 ≡ 0 → fill_pairs ns ≡ some (packed ns)
unfolding fill_pairs packed
fill_pairs-eq-packed [] h = refl
fill_pairs-eq-packed (a ∷ []) h = absurd (omega arith)
fill_pairs-eq-packed (a ∷ b ∷ rest) h = rw (fill_pairs-eq-packed rest (omega arith), fill_pairs)

pub spread-packed : (ns : List ℕ) → length ns % 2 ≡ 0 → Nibbles ns → spread (packed ns) ≡ ns
unfolding spread packed
spread-packed [] h v = refl
spread-packed (a ∷ []) h v = absurd (omega arith)
spread-packed (a ∷ b ∷ rest) h v =
    cc (high-join a b v.0 v.1.0, low-join a b v.0 v.1.0, spread-packed rest (omega arith) v.1.1)

pub packed-spread : (bs : List ℕ) → Bytes bs → packed (spread bs) ≡ bs
unfolding spread packed
packed-spread [] v = refl
packed-spread (b ∷ bs) v = cc (join-high-low b v.0, packed-spread bs v.1)

pub length-spread : (bs : List ℕ) → length (spread bs) ≡ length bs + length bs
unfolding spread
length-spread [] = omega arith
length-spread (b ∷ bs) = omega (arith, length-spread bs)

pub length-packed : (ns : List ℕ) → length (packed ns) ≡ length ns / 2
unfolding packed
length-packed [] = omega arith
length-packed (a ∷ []) = omega arith
length-packed (a ∷ b ∷ rest) = omega (arith, length-packed rest)

pub spread-Nibbles : (bs : List ℕ) → Bytes bs → Nibbles (spread bs)
unfolding spread
spread-Nibbles [] v = tt
spread-Nibbles (b ∷ bs) v = (high-lt b v.0, (low-lt b, spread-Nibbles bs v.1))

pub packed-Bytes : (ns : List ℕ) → Nibbles ns → Bytes (packed ns)
unfolding packed
packed-Bytes [] v = tt
packed-Bytes (a ∷ []) v = tt
packed-Bytes (a ∷ b ∷ rest) v = (join-lt a b v.0 v.1.0, packed-Bytes rest v.1.1)
