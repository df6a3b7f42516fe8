-- ===== src/Ethrex/Builder/Cuts.antt =====
-- A key cut at the depths of the spine: its nibble at a depth, and the piece between two depths.
use state_actor.Prelude.{
  ℕ, zero, suc, ◌≤◌, ◌<◌, ◌≡◌, ◌≢◌, refl, ap, arith, List, [], ◌∷◌, ◌++◌, length, take, drop, some,
  get_elem?,
}
use state_actor.Bytes.{Nibbles}
use state_actor.Ethrex.Nibbles.{common_prefix_len}

unfoldable pub at : List ℕ → ℕ → ℕ
at [] d = 0
at (x ∷ k) zero = x
at (x ∷ k) (suc d) = at k d

abbrev pub piece : ℕ → ℕ → List ℕ → List ℕ
piece from d k = drop from (take d k)

pub at-lt : (k : List ℕ) (d : ℕ) → Nibbles k → d < length k → at k d < 16
unfolding at
at-lt [] d h l = absurd (omega arith)
at-lt (x ∷ k) zero h l = h.0
at-lt (x ∷ k) (suc d) h l = at-lt k d h.1 (omega arith)

pub get_elem?-at : (k : List ℕ) (d : ℕ) → d < length k → get_elem? k d ≡ some (at k d)
unfolding at
get_elem?-at [] d l = absurd (omega arith)
get_elem?-at (x ∷ k) zero l = refl
get_elem?-at (x ∷ k) (suc d) l = get_elem?-at k d (omega arith)

pub at-append : (p y : List ℕ) (d : ℕ) → d < length p → at (p ++ y) d ≡ at p d
unfolding at
at-append [] y d l = absurd (omega arith)
at-append (x ∷ p) y zero l = refl
at-append (x ∷ p) y (suc d) l = at-append p y d (omega arith)

pub at-behind : (p : List ℕ) (a : ℕ) (y : List ℕ) → at (p ++ (a ∷ y)) (length p) ≡ a
unfolding at
at-behind [] a y = refl
at-behind (x ∷ p) a y = at-behind p a y

pub take_within : (p y : List ℕ) (d : ℕ) → d ≤ length p → take d (p ++ y) ≡ take d p
take_within p y zero l = refl
take_within [] y (suc d) l = absurd (omega arith)
take_within (x ∷ p) y (suc d) l = ap (λ k. x ∷ k) (take_within p y d (omega arith))

pub length-take : (d : ℕ) (k : List ℕ) → d ≤ length k → length (take d k) ≡ d
length-take zero k l = refl
length-take (suc d) [] l = absurd (omega arith)
length-take (suc d) (x ∷ k) l = ap suc (length-take d k (omega arith))

-- What follows a position, up to a deeper one, there, and behind.
pub cut :
    (p y : List ℕ) (from d : ℕ)
    → from ≤ d
    → d < length p
    → drop from (p ++ y) ≡ piece from d p ++ (at p d ∷ drop (suc d) (p ++ y))
unfolding at
cut [] y from d h l = absurd (omega arith)
cut (x ∷ p) y zero zero h l = refl
cut (x ∷ p) y zero (suc d) h l = ap (λ k. x ∷ k) (cut p y zero d (omega arith) (omega arith))
cut (x ∷ p) y (suc from) zero h l = absurd (omega arith)
cut (x ∷ p) y (suc from) (suc d) h l = cut p y from d (omega arith) (omega arith)

pub drop_within :
    (p y : List ℕ) (from : ℕ) → from ≤ length p → drop from (p ++ y) ≡ drop from p ++ y
drop_within p y zero l = refl
drop_within [] y (suc from) l = absurd (omega arith)
drop_within (x ∷ p) y (suc from) l = drop_within p y from (omega arith)

-- The piece across a fork: up to it, there, and behind.
pub piece_across :
    (p : List ℕ) (a : ℕ) (x : List ℕ) (from d : ℕ)
    → from ≤ length p
    → length p < d
    → piece from d (p ++ (a ∷ x)) ≡ drop from p ++ (a ∷ piece (suc (length p)) d (p ++ (a ∷ x)))
piece_across p a x from zero h l = absurd (omega arith)
piece_across [] a x zero (suc d) h l = refl
piece_across [] a x (suc from) (suc d) h l = absurd (omega arith)
piece_across (z ∷ p) a x zero (suc d) h l =
    ap (λ k. z ∷ k) (piece_across p a x zero d (omega arith) (omega arith))
piece_across (z ∷ p) a x (suc from) (suc d) h l =
    piece_across p a x from d (omega arith) (omega arith)

pub common_prefix_len-append : (s q : List ℕ) → common_prefix_len s (s ++ q) ≡ length s
unfolding common_prefix_len
common_prefix_len-append [] q = refl
common_prefix_len-append (x ∷ s) q = ground (arith, common_prefix_len-append s q)

pub common_prefix_len-fork :
    (s : List ℕ) (a b : ℕ) (x y : List ℕ)
    → a ≢ b
    → common_prefix_len (s ++ (a ∷ x)) (s ++ (b ∷ y)) ≡ length s
unfolding common_prefix_len
common_prefix_len-fork [] a b x y ne = ground arith
common_prefix_len-fork (z ∷ s) a b x y ne = ground (arith, common_prefix_len-fork s a b x y ne)

pub drop-behind : (p : List ℕ) (b : ℕ) (y : List ℕ) → drop (suc (length p)) (p ++ (b ∷ y)) ≡ y
drop-behind [] b y = refl
drop-behind (x ∷ p) b y = drop-behind p b y
