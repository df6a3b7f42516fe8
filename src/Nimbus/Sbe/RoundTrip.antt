-- ===== src/Nimbus/Sbe/RoundTrip.antt =====
-- SBE encodings decode to the value that they encode, and are the shortest that do.
use state_actor.Prelude.{
  ℕ, zero, suc, ◌+◌, ◌*◌, ◌/◌, ◌%◌, ◌^◌, ◌≤◌, ◌<◌, ◌≡◌, refl, sym, ap, ◌∙◌, arith, some, List, [],
  ◌∷◌, ◌++◌, append-nil, append_assoc, length, bit_or,
}
use mathlib.Core.WellFounded.{Acc}
use mathlib.Core.Logic.{◌⊎◌, ◌↔◌, inl, inr, dif_pos}
use native.Mathlib.Decide.{dec_lt}
use native.Mathlib.Nat.{le_refl, pow-suc, pow-le-pow_right, div-le_self, div-div-eq-div-mul}
use native.Mathlib.Bridge.{le_prop}
use native.Mathlib.Numerals.{towards_suc}
use state_actor.Prelude.Bits.{bit_or_disjoint}
use state_actor.Prelude.Order.{lt_wf}
use state_actor.Bytes.{Bytes}
use state_actor.Nimbus.Sbe.{
  u64_mod, IsU64, sbe_len_loop, sbe_len, append_be, append_sbe, be_loop, decode_sbe, shift_falls,
}

-- The low n bytes of `v`, the highest first.
unfoldable pub be_bytes : ℕ → ℕ → List ℕ
be_bytes zero v = []
be_bytes (suc i) v = (v / 2 ^ (8 * i) % 256) ∷ be_bytes i v

pub append_be-eq : (dst : List ℕ) (n v : ℕ) → append_be dst n v ≡ dst ++ be_bytes n v
unfolding append_be be_bytes
append_be-eq dst zero v = sym (append-nil dst)
append_be-eq dst (suc i) v =
    append_be-eq (dst ++ ((v / 2 ^ (8 * i) % 256) ∷ [])) i v
    ∙ append_assoc dst ((v / 2 ^ (8 * i) % 256) ∷ []) (be_bytes i v)

pub length-be_bytes : (n v : ℕ) → length (be_bytes n v) ≡ n
unfolding be_bytes
length-be_bytes zero v = refl
length-be_bytes (suc i) v = ap suc (length-be_bytes i v)

pub be_bytes-Bytes : (n v : ℕ) → Bytes (be_bytes n v)
unfolding be_bytes
be_bytes-Bytes zero v = tt
be_bytes-Bytes (suc i) v = (omega arith, be_bytes-Bytes i v)

-- The loop adds one byte at a time below 2 ^ 64.
push_byte : (v c : ℕ) → v < 2 ^ 56 → c < 256 → bit_or (v * 256 % u64_mod) c ≡ v * 256 + c
push_byte v c h l = ground (arith, bit_or_disjoint 8 v c)

-- The bytes of `v` above bit 8 n, then the n low ones, make the bytes of `v`.
bits_of_suc : (n : ℕ) → 8 * n + 8 ≡ 8 * suc n
bits_of_suc n = omega arith

pow_eight : (k : ℕ) → 2 ^ (k + 8) ≡ 2 ^ k * 256
pow_eight k = simp towards_suc (omega (arith, pow-suc 2 k))

byte_shift : (n : ℕ) → 2 ^ (8 * n) * 256 ≡ 2 ^ (8 * suc n)
byte_shift n = sym (pow_eight (8 * n)) ∙ ap (λ (t : ℕ). 2 ^ t) (bits_of_suc n)

top_byte : (n v : ℕ) → v / 2 ^ (8 * suc n) * 256 + v / 2 ^ (8 * n) % 256 ≡ v / 2 ^ (8 * n)
top_byte n v =
    omega (arith, div-div-eq-div-mul v (2 ^ (8 * n)) 256, ap (λ (t : ℕ). v / t) (byte_shift n))

be_loop-be_bytes : (n v : ℕ) → v < 2 ^ 64 → n ≤ 8 → be_loop (v / 2 ^ (8 * n)) (be_bytes n v) ≡ v
unfolding be_loop be_bytes
be_loop-be_bytes zero v h l = omega arith
be_loop-be_bytes (suc i) v h l =
    let top = v / 2 ^ (8 * suc i) in
    let next = v / 2 ^ (8 * i) in
    let small : top < 2 ^ 56 = omega (arith, top_byte i v, div-le_self v (2 ^ (8 * i))) in
    ap (λ (t : ℕ). be_loop t (be_bytes i v))
      (push_byte top (next % 256) small (omega arith) ∙ top_byte i v)
    ∙ be_loop-be_bytes i v h (omega arith)

-- The loop counts the rounds: `j` of them, and the value takes `j` more bytes than one.
sbe_len_loop_rounds :
    (k v n : ℕ) (w : Acc ◌<◌ v)
    → v < 256 ^ suc k
    → (j : ℕ) × (sbe_len_loop v n w ≡ n + j)
      × (j ≤ k)
      × (v < 256 ^ suc j)
      × ((j ≡ 0) ⊎ (256 ^ j ≤ v))
unfolding sbe_len_loop
sbe_len_loop_rounds zero v n (Acc.intro _ below) h =
    (0, ground arith, omega arith, omega arith, inl refl)
sbe_len_loop_rounds (suc k) v n (Acc.intro _ below) h = elim (dec_lt 255 v) [
  | no p ↦ (0, ground arith, omega arith, omega arith, inl refl)
  | yes p ↦
      (let (j, e, bound, high, least) =
          sbe_len_loop_rounds k (v / 256) (n + 1) (below _ (shift_falls v p))
            (omega (arith, pow-suc 256 (suc k))) in
        (
          suc j,
          rw (dif_pos _ le_prop p) (omega (arith, e)),
          omega (arith, bound),
          omega (arith, pow-suc 256 (suc j), high),
          inr (scaled j p least),
        ))
]
  where
    scaled : (j : ℕ) → 255 < v → (j ≡ 0) ⊎ (256 ^ j ≤ v / 256) → 256 ^ suc j ≤ v
    scaled j p (inl z) = rw z p
    scaled j p (inr l) = omega (arith, pow-suc 256 j)

pub sbe_len_rounds :
    (v : ℕ)
    → IsU64 v
    → (j : ℕ) × (sbe_len v ≡ 1 + j) × (j ≤ 7) × (v < 256 ^ suc j) × ((j ≡ 0) ⊎ (256 ^ j ≤ v))
unfolding sbe_len
sbe_len_rounds v h = sbe_len_loop_rounds 7 v 1 (lt_wf.apply v) (omega arith)

pub append_sbe-eq : (dst : List ℕ) (v : ℕ) → append_sbe dst v ≡ dst ++ be_bytes (sbe_len v) v
unfolding append_sbe
append_sbe-eq dst v = append_be-eq dst (sbe_len v) v

below_powers : (n j v : ℕ) → 256 ^ j ≤ v → v < 256 ^ n → j < n
below_powers n j v h l = elim (dec_lt j n) [
  | yes p ↦ p
  | no p ↦
      absurd (omega (arith, pow-le-pow_right {n = 256} (omega arith) {i = n} {j = j} (omega arith)))
]

-- For a uint64 and n ≥ 1: the value fits n bytes exactly when `SBELen` is at most n. So the encoding
-- is the shortest big-endian one of at least a byte.
pub sbe_len_least : (v n : ℕ) → IsU64 v → 1 ≤ n → (v < 256 ^ n) ↔ (sbe_len v ≤ n)
sbe_len_least v n h one =
    let (j, e, bound, high, least) = sbe_len_rounds v h in
    (
      λ fits. fewer j e least fits,
      λ l. omega (
        arith,
        high,
        pow-le-pow_right {n = 256} (omega arith) {i = suc j} {j = n} (omega (arith, e)),
      ),
    )
  where
    fewer : (j : ℕ) → sbe_len v ≡ 1 + j → (j ≡ 0) ⊎ (256 ^ j ≤ v) → v < 256 ^ n → sbe_len v ≤ n
    fewer j e (inl z) fits = omega arith
    fewer j e (inr l) fits = omega (arith, below_powers n j v l fits)

pub sbe_len_range : (v : ℕ) → IsU64 v → (1 ≤ sbe_len v) × (sbe_len v ≤ 8)
sbe_len_range v h = let (j, e, bound, high, least) = sbe_len_rounds v h in omega (arith, e, bound)

pow_bytes : (n : ℕ) → 256 ^ n ≡ 2 ^ (8 * n)
pow_bytes zero = refl
pow_bytes (suc n) = omega (arith, pow-suc 256 n, byte_shift n, pow_bytes n)

div-eq-zero : (v m : ℕ) → v < m → v / m ≡ 0
div-eq-zero v m h = grind arith

-- Reading n bytes gives the value back, where it fits them.
pub be_value-be_bytes : (n v : ℕ) → IsU64 v → n ≤ 8 → v < 256 ^ n → be_loop 0 (be_bytes n v) ≡ v
be_value-be_bytes n v h l fits =
    ap (λ (t : ℕ). be_loop t (be_bytes n v))
      (sym (div-eq-zero v (2 ^ (8 * n)) (omega (arith, pow_bytes n))))
    ∙ be_loop-be_bytes n v h l

pub be_loop-append_sbe : (v : ℕ) → IsU64 v → be_loop 0 (be_bytes (sbe_len v) v) ≡ v
be_loop-append_sbe v h =
    let (one, eight) = sbe_len_range v h in
    be_value-be_bytes (sbe_len v) v h eight ((sbe_len_least v (sbe_len v) h one).1 (le_refl _))

-- `DecodeSBE` of what `AppendSBE` appends for a uint64 is that value.
pub decode_sbe-append_sbe : (v : ℕ) → IsU64 v → decode_sbe (append_sbe [] v) ≡ some v
unfolding decode_sbe
decode_sbe-append_sbe v h = ground (
  arith,
  append_sbe-eq [] v,
  length-be_bytes (sbe_len v) v,
  sbe_len_range v h,
  be_loop-append_sbe v h,
)
