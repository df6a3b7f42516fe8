-- ===== src/Nimbus/Vid.antt =====
-- internal/nimbus/vid.go and constants.go: vertex IDs, their row keys and their allocator.
pub mod Static
pub mod Distinct
pub mod Keys
pub mod Alloc
use state_actor.Prelude.{
  ℕ, zero, suc, ◌+◌, ◌-◌, ◌*◌, ◌%◌, ◌^◌, ◌<◌, Option, none, some, List, [], ◌∷◌, ◌++◌, length, take,
  drop, get_elem?, ltb, leb, ◌==◌, if◌then◌else◌, ◌||◌, ◌&&◌, Bool, true, false, not,
}
use state_actor.Nimbus.Sbe.{u64_mod, sbe_len, append_sbe, decode_sbe}

pub record RootedVertexId : Type 0 where
  pub root : ℕ
  pub vid : ℕ

abbrev pub first_static_vid : ℕ
first_static_vid = 1

abbrev pub static_vid_levels : ℕ
static_vid_levels = 8

abbrev pub first_dynamic_vid : ℕ
first_dynamic_vid = 0x1_1111_1112

abbrev pub static_offset : List ℕ
static_offset = 1 ∷ 2 ∷ 18 ∷ 274 ∷ 4370 ∷ 69906 ∷ 1118482 ∷ 17895698 ∷ 286331154 ∷ 4581298450 ∷ []

-- Additions and shifts of a uint64 wrap.
abbrev pub add64 : ℕ → ℕ → ℕ
add64 a b = (a + b) % u64_mod

abbrev pub shl64 : ℕ → ℕ → ℕ
shl64 a k = a * 2 ^ k % u64_mod

-- The loop over `path[i]` with `left` = level - i rounds to go; `none` is an index past the path.
unfoldable pub static_vid_loop : List ℕ → ℕ → ℕ → ℕ → Option ℕ
static_vid_loop path zero i v = some v
static_vid_loop [] (suc left) i v = none
static_vid_loop (p ∷ path) (suc left) i v =
    static_vid_loop path left (i + 1) (add64 (add64 v (shl64 1 (4 * i))) (shl64 p (4 * left)))

unfoldable pub static_vid : List ℕ → ℕ → Option ℕ
unfolding static_vid_loop
static_vid path level =
    if level == 0 then some first_static_vid else static_vid_loop path level 0 first_static_vid

-- The loop with `left` = childPos - 1 - i rounds to go.
unfoldable pub static_start_loop : List ℕ → ℕ → ℕ → Option ℕ
static_start_loop path zero v = some v
static_start_loop [] (suc left) v = none
static_start_loop (p ∷ path) (suc left) v =
    static_start_loop path left (add64 v (shl64 p (4 * suc left)))

-- A `childPos` of 0 runs no round: `childPos-1` is negative there.
unfoldable pub static_start_vid : List ℕ → ℕ → Option ℕ
unfolding static_start_loop
static_start_vid path child_pos = elim (get_elem? static_offset child_pos) [
  | none ↦ none
  | some v ↦ static_start_loop path (child_pos - 1) v
]

unfoldable pub is_static : ℕ → Bool
is_static v = leb first_static_vid v && ltb v first_dynamic_vid

unfoldable pub append_key : List ℕ → RootedVertexId → List ℕ
append_key dst r =
    let with_root = append_sbe (dst ++ ((sbe_len r.root % 256) ∷ [])) r.root in
    if not (r.vid == r.root) then append_sbe with_root r.vid else with_root

-- The rest of the key behind the root; `none` is an error.
unfoldable pub parse_vid : ℕ → List ℕ → Option RootedVertexId
parse_vid root [] = some (record { root = root; vid = root })
parse_vid root (c ∷ cs) = elim (decode_sbe (c ∷ cs)) [
  | none ↦ none
  | some vid ↦ if vid == root then none else some (record { root = root; vid = vid })
]

unfoldable pub parse_key : List ℕ → Option RootedVertexId
unfolding parse_vid
parse_key [] = none
parse_key (rlen ∷ rest) =
    if ltb (length (rlen ∷ rest)) 2
    then none
    else if ltb rlen 1 || (ltb 8 rlen || ltb (length (rlen ∷ rest)) (rlen + 1))
    then none
    else elim (decode_sbe (take rlen rest)) [
      | none ↦ none
      | some root ↦ parse_vid root (drop rlen rest)
    ]

pub record VidAllocator : Type 0 where
  pub top : ℕ
  pub touched : Bool

abbrev pub new_vid_allocator : VidAllocator
new_vid_allocator = record { top = first_dynamic_vid - 1; touched = false }

-- The atomic addition returns the new top; `- n + 1` wraps as well.
unfoldable pub alloc : ℕ → VidAllocator → ℕ × VidAllocator
alloc n a =
    let top = add64 a.top n in
    ((top + (u64_mod - n) + 1) % u64_mod, record { top = top; touched = true })

unfoldable pub vtop : VidAllocator → ℕ
vtop a = if a.touched then a.top else 0
