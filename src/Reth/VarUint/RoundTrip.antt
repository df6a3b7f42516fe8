-- ===== src/Reth/VarUint/RoundTrip.antt =====
-- A length is read back, and exactly the bytes that were written for it are consumed.
use mathlib.Core.Logic.{dif_pos, dif_neg}
use mathlib.Core.WellFounded.{Acc}
use native.Mathlib.Bridge.{le_prop}
use native.Mathlib.Decide.{dec_lt}
use native.Mathlib.Nat.{pow-le-pow_right}
use native.Mathlib.Numerals.{towards_suc}
use state_actor.Prelude.{
  ℕ, zero, suc, ◌+◌, ◌*◌, ◌/◌, ◌%◌, ◌^◌, ◌≤◌, ◌<◌, ◌≡◌, refl, ap, ◌∙◌, arith, Bool, true, false,
  not, ◌&&◌, Option, some, List, [], ◌∷◌, ◌++◌, append_assoc, length, leb, ◌==◌, bit_and, bit_or,
}
use state_actor.Prelude.Bits.{bit_or_above}
use state_actor.Prelude.Order.{lt_wf}
use state_actor.Prelude.Tables.{holds_below, holds_at}
use state_actor.Nimbus.Sbe.{u64_mod, IsU64}
use state_actor.Reth.VarUint.{
  encode_var_uint_loop, encode_var_uint, decode_var_uint_loop, decode_var_uint, shift_falls,
}

-- What the flag of a byte and its low bits say.
abbrev continues : ℕ → Bool
continues x = not (bit_and (bit_or x 0x80) 0x80 == 0) && (bit_and (bit_or x 0x80) 0x7f == x % 128)

continues_at : (x : ℕ) → x < 256 → continues x ≡ true
unfolding holds_below
continues_at x h = holds_at 256 continues x refl h

abbrev ends : ℕ → Bool
ends x = (bit_and x 0x80 == 0) && (bit_and x 0x7f == x)

continues_flag : (x : ℕ) → x < 256 → (bit_and (bit_or x 0x80) 0x80 == 0) ≡ false
continues_flag x h = ground (arith, continues_at x h)

continues_bits : (x : ℕ) → x < 256 → bit_and (bit_or x 0x80) 0x7f ≡ x % 128
continues_bits x h = ground (arith, continues_at x h)

early : (i : ℕ) → i < 10 → leb 10 i ≡ false
early i h = ground arith

ends_at : (x : ℕ) → x < 128 → ends x ≡ true
unfolding holds_below
ends_at x h = holds_at 128 ends x refl h

step_power : (s : ℕ) → 2 ^ (s + 7) ≡ 128 * 2 ^ s
step_power s = simp towards_suc (omega arith)

-- The bits of the next byte lie above those read, and below 2 ^ 64.
add_bits :
    (a x s : ℕ)
    → a < 2 ^ s
    → x * 2 ^ s + a < 2 ^ 64
    → bit_or a (x * 2 ^ s % u64_mod) ≡ x * 2 ^ s + a
add_bits a x s h l = ground (arith, bit_or_above s x a h)

split_value : (v s : ℕ) → v / 128 * (128 * 2 ^ s) + v % 128 * 2 ^ s ≡ v * 2 ^ s
split_value v s =
    let e : v / 128 * 128 + v % 128 ≡ v = omega arith in omega (arith, ap (λ (t : ℕ). t * 2 ^ s) e)

power_times : (v p q : ℕ) → 1 ≤ v → q ≤ p → q ≤ v * p
power_times zero p q h l = elim h [ ]
power_times (suc v) p q h l = omega (arith, times v p)
  where
    times : (v p : ℕ) → suc v * p ≡ v * p + p
    times v p = grind arith

-- At most ten bytes are written, since the value has bits left.
round_bound : (v a i s : ℕ) → 1 ≤ v → s ≡ 7 * i → v * 2 ^ s + a < 2 ^ 64 → i < 10
round_bound v a i s h e l = elim (dec_lt i 10) [
  | yes p ↦ p
  | no p ↦
      (let high : 2 ^ 70 ≤ 2 ^ s =
          pow-le-pow_right {n = 2} (omega arith) {i = 70} {j = s} (omega arith) in
        absurd (omega (arith, power_times v (2 ^ s) (2 ^ 70) h high)))
]

-- What the encoder writes for `v`: the bytes, and how the decoder reads them after `i` rounds.
record Written (v : ℕ) (w : Acc ◌<◌ v) : Type 0 where
  bytes : List ℕ
  appended : (buf : List ℕ) → encode_var_uint_loop buf v w ≡ buf ++ bytes
  read :
      (a i s : ℕ) (rest : List ℕ)
      → s ≡ 7 * i
      → a < 2 ^ s
      → v * 2 ^ s + a < 2 ^ 64
      → i < 10
      → decode_var_uint_loop (bytes ++ rest) i a s ≡ some (v * 2 ^ s + a, i + length bytes)

read_last :
    (v a i s : ℕ) (rest : List ℕ)
    → v < 128
    → a < 2 ^ s
    → v * 2 ^ s + a < 2 ^ 64
    → i < 10
    → decode_var_uint_loop ((v % 256) ∷ rest) i a s ≡ some (v * 2 ^ s + a, i + 1)
unfolding decode_var_uint_loop
read_last v a i s rest h l m n =
    let same : v % 256 ≡ v = omega arith in
    rw same (ground (arith, ends_at v h, add_bits a v s l m))

read_more :
    (v a i s : ℕ) (rest : List ℕ)
    → a < 2 ^ s
    → v * 2 ^ s + a < 2 ^ 64
    → i < 10
    → decode_var_uint_loop (bit_or (v % 256) 0x80 ∷ rest) i a s
      ≡ decode_var_uint_loop rest (i + 1) (v % 128 * 2 ^ s + a) (s + 7)
unfolding decode_var_uint_loop
read_more v a i s rest l m n =
    let same : v % 256 % 128 ≡ v % 128 = omega arith in
    let part : v % 128 * 2 ^ s + a < 2 ^ 64 = omega (arith, split_value v s) in
    rw
      (
        early i n,
        continues_flag (v % 256) (omega arith),
        continues_bits (v % 256) (omega arith),
        same,
        add_bits a (v % 128) s l part,
      )
      refl

below_next : (x a s : ℕ) → x < 128 → a < 2 ^ s → x * 2 ^ s + a < 2 ^ (s + 7)
below_next x a s h l = omega (arith, step_power s, times_le x 127 (2 ^ s) (omega arith))
  where
    times_le : (x y p : ℕ) → x ≤ y → x * p ≤ y * p
    times_le x y p h = grind arith

whole : (v a s : ℕ) → v / 128 * 2 ^ (s + 7) + (v % 128 * 2 ^ s + a) ≡ v * 2 ^ s + a
whole v a s = omega (arith, split_value v s, ap (λ (t : ℕ). v / 128 * t) (step_power s))

more_rounds : (v a i s : ℕ) → 127 < v → s ≡ 7 * i → v * 2 ^ s + a < 2 ^ 64 → i + 1 < 10
more_rounds v a i s h e l =
    round_bound (v / 128) (v % 128 * 2 ^ s + a) (i + 1) (s + 7) (omega arith) (omega arith)
      (omega (arith, whole v a s))

result : {v v' n n' : ℕ} → v ≡ v' → n ≡ n' → ◌≡◌ {A = Option (ℕ × ℕ)} (some (v, n)) (some (v', n'))
result e f = cc

written : (v : ℕ) (w : Acc ◌<◌ v) → Written v w
unfolding encode_var_uint_loop
written v (Acc.intro _ below) = elim (dec_lt 127 v) [
  | no p ↦ record {
    bytes = (v % 256) ∷ [];
    appended = λ buf. rw (dif_neg _ p) refl;
    read = λ a i s rest e l m n. read_last v a i s rest (omega arith) l m n;
  }
  | yes p ↦
      (let q = written (v / 128) (below _ (shift_falls v p)) in
        record {
          bytes = bit_or (v % 256) 0x80 ∷ q.bytes;
          appended = λ buf. rw (dif_pos _ le_prop p) (
              q.appended (buf ++ (bit_or (v % 256) 0x80 ∷ []))
              ∙ append_assoc buf (bit_or (v % 256) 0x80 ∷ []) q.bytes);
          read = λ a i s rest e l m n.
              read_more v a i s (q.bytes ++ rest) l m n
              ∙ q.read (v % 128 * 2 ^ s + a) (i + 1) (s + 7) rest (omega arith)
                  (below_next (v % 128) a s (omega arith) l) (omega (arith, whole v a s))
                  (more_rounds v a i s p e m)
              ∙ result (whole v a s) (omega arith);
        })
]

-- For a uint64, the decoder reads what the encoder writes for it, whatever follows: it returns the
-- value and the number of the bytes written, and does not panic.
pub decode_var_uint-encode_var_uint :
    (v : ℕ) (rest : List ℕ)
    → IsU64 v
    → decode_var_uint (encode_var_uint [] v ++ rest) ≡ some (v, length (encode_var_uint [] v))
unfolding decode_var_uint encode_var_uint
decode_var_uint-encode_var_uint v rest h =
    let q = written v (lt_wf.apply v) in
    rw (q.appended []) (
      q.read 0 0 0 rest refl (omega arith) (omega arith) (omega arith)
      ∙ result (omega arith) (omega arith))
