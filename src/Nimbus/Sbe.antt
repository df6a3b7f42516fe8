-- ===== src/Nimbus/Sbe.antt =====
-- internal/nimbus/sbe.go: short big-endian integers. A uint64 is a number below 2 ^ 64.
pub mod RoundTrip
pub mod Trim
use mathlib.Core.Logic.{dite}
use mathlib.Core.WellFounded.{Acc}
use native.Mathlib.Decide.{dec_lt}
use state_actor.Prelude.{
  ℕ, zero, suc, ◌+◌, ◌-◌, ◌*◌, ◌/◌, ◌%◌, ◌^◌, ◌<◌, arith, Option, none, some, List, [], ◌∷◌, ◌++◌,
  length, ltb, ◌==◌, if◌then◌else◌, bit_or, ◌||◌,
}
use state_actor.Prelude.Order.{lt_wf}

abbrev pub u64_mod : ℕ
u64_mod = 2 ^ 64

abbrev pub IsU64 : ℕ → Type 0
IsU64 v = v < 2 ^ 64

pub shift_falls : (v : ℕ) → 255 < v → v / 256 < v
shift_falls v h = omega arith

-- `for v >= 1<<8 { v >>= 8; n++ }`
pub sbe_len_loop : (v n : ℕ) → Acc ◌<◌ v → ℕ
sbe_len_loop v n (Acc.intro _ below) =
    dite (dec_lt 255 v) (λ h. sbe_len_loop (v / 256) (n + 1) (below _ (shift_falls v h))) (λ _. n)

unfoldable pub sbe_len : ℕ → ℕ
unfolding sbe_len_loop lt_wf dec_lt
sbe_len v = sbe_len_loop v 1 (lt_wf.apply v)

-- `for i := n - 1; i >= 0; i--`: the second argument is i + 1, and `byte` keeps eight bits.
unfoldable pub append_be : List ℕ → ℕ → ℕ → List ℕ
append_be dst zero v = dst
append_be dst (suc i) v = append_be (dst ++ ((v / 2 ^ (8 * i) % 256) ∷ [])) i v

unfoldable pub append_sbe : List ℕ → ℕ → List ℕ
unfolding append_be sbe_len
append_sbe dst v = append_be dst (sbe_len v) v

-- `for i < 31 && v[i] == 0 { i++ }` on the bytes from `i` on.
unfoldable pub trim_zeros : ℕ → List ℕ → List ℕ
trim_zeros zero v = v
trim_zeros (suc k) [] = []
trim_zeros (suc k) (x ∷ xs) = let rest = trim_zeros k xs in if x == 0 then rest else x ∷ xs

-- The value is an array of 32 bytes.
unfoldable pub append_sbe_bytes32 : List ℕ → List ℕ → List ℕ
unfolding trim_zeros
append_sbe_bytes32 dst v = dst ++ trim_zeros 31 v

-- `v = v<<8 | uint64(c)`
unfoldable pub be_loop : ℕ → List ℕ → ℕ
be_loop v [] = v
be_loop v (c ∷ cs) = be_loop (bit_or (v * 256 % u64_mod) c) cs

-- `none` is `errSBELen`.
unfoldable pub decode_sbe : List ℕ → Option ℕ
unfolding be_loop
decode_sbe b = if ltb (length b) 1 || ltb 8 (length b) then none else some (be_loop 0 b)
