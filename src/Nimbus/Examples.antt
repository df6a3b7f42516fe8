-- ===== src/Nimbus/Examples.antt =====
-- Runs of the nimbus codecs, and their theorems at concrete values.
use state_actor.Prelude.{ℕ, ◌+◌, ◌-◌, ◌≡◌, refl, arith, true, false, List, [], ◌∷◌, All, take, some}
use state_actor.Nimbus.Sbe.{append_sbe, decode_sbe}
use state_actor.Nimbus.Sbe.RoundTrip.{decode_sbe-append_sbe}
use state_actor.Nimbus.Vid.{
  RootedVertexId, first_dynamic_vid, static_vid, is_static, append_key, parse_key,
  new_vid_allocator, vtop,
}
use state_actor.Nimbus.Vid.Distinct.{static_vid_injective, static_vid-is_static}
use state_actor.Nimbus.Vid.Keys.{parse_key-append_key}
use state_actor.Nimbus.Vid.Alloc.{allocs, Consecutive, allocs-new_vid_allocator}

sbe_run : append_sbe [] 0x010203 ≡ 1 ∷ 2 ∷ 3 ∷ []
unfolding append_sbe
sbe_run = refl

sbe_zero_run : append_sbe [] 0 ≡ 0 ∷ []
unfolding append_sbe
sbe_zero_run = refl

decode_sbe-append_sbe_example : decode_sbe (append_sbe [] 0xdead_beef) ≡ some 0xdead_beef
decode_sbe-append_sbe_example = decode_sbe-append_sbe 0xdead_beef (omega arith)

abbrev path : List ℕ
path = 0xa ∷ 0x3 ∷ 0x0 ∷ 0xf ∷ []

-- 1 + 1 + 16, then 0xa3
level_two_run : static_vid path 2 ≡ some (18 + 0xa3)
unfolding static_vid
level_two_run = refl

static_vid_injective_example : (◌≡◌ {A = ℕ} 2 2) × (take 2 path ≡ take 2 (0xa ∷ 0x3 ∷ []))
unfolding static_vid
static_vid_injective_example =
    static_vid_injective path (0xa ∷ 0x3 ∷ []) 2 2 (18 + 0xa3) (omega arith) (omega arith)
      (omega arith) (omega arith) (omega arith) (omega arith) refl refl

static_vid-is_static_example : (id : ℕ) × (static_vid path 4 ≡ some id) × (is_static id ≡ true)
static_vid-is_static_example = static_vid-is_static path 4 (omega arith) (omega arith) (omega arith)

abbrev row : RootedVertexId
row = record { root = 0x1_1111_1115; vid = 18 }

parse_key-append_key_example : parse_key (append_key [] row) ≡ some row
parse_key-append_key_example = parse_key-append_key row (omega arith) (omega arith)

allocs_example :
    Consecutive first_dynamic_vid
      (first_dynamic_vid - 1 + 33)
      (allocs (16 ∷ 1 ∷ 16 ∷ []) new_vid_allocator).0
    × All (λ b. is_static b.0 ≡ false) (allocs (16 ∷ 1 ∷ 16 ∷ []) new_vid_allocator).0
    × (vtop (allocs (16 ∷ 1 ∷ 16 ∷ []) new_vid_allocator).1 ≡ first_dynamic_vid - 1 + 33)
allocs_example = allocs-new_vid_allocator (16 ∷ 1 ∷ 16 ∷ []) (omega arith)
