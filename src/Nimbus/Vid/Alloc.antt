-- ===== src/Nimbus/Vid/Alloc.antt =====
-- The allocator, called any number of times. Each call is one atomic addition, so the calls of
-- several goroutines are the calls of one list, in the order in which the additions happen.
use state_actor.Prelude.{
  ℕ, ◌+◌, ◌-◌, ◌^◌, ◌≤◌, ◌<◌, ◌≡◌, refl, arith, List, [], ◌∷◌, All, true, false, if◌then◌else◌,
  Bool,
}
use state_actor.Nimbus.Vid.{
  VidAllocator, new_vid_allocator, alloc, vtop, is_static, first_dynamic_vid,
}

abbrev pub is_nil : List ℕ → Bool
is_nil [] = true
is_nil (n ∷ ns) = false

-- A block of IDs: its first and its size.
abbrev pub Block : Type 0
Block = ℕ × ℕ

abbrev pub allocs : List ℕ → VidAllocator → List Block × VidAllocator
allocs [] a = ([], a)
allocs (n ∷ ns) a =
    let (first, a') = alloc n a in let (blocks, a'') = allocs ns a' in ((first, n) ∷ blocks, a'')

abbrev pub total : List ℕ → ℕ
total [] = 0
total (n ∷ ns) = n + total ns

-- Each block starts right behind the one before, and the last ends at `last`.
abbrev pub Consecutive : ℕ → ℕ → List Block → Type 0
Consecutive start last [] = start ≡ last + 1
Consecutive start last ((first, n) ∷ blocks) = (first ≡ start) × Consecutive (start + n) last blocks

after_alloc : (n : ℕ) (a : VidAllocator) → a.top + n < 2 ^ 64 → (alloc n a).1.top ≡ a.top + n
unfolding alloc
after_alloc n a h = omega arith

first_of_alloc : (n : ℕ) (a : VidAllocator) → a.top + n + 1 < 2 ^ 64 → (alloc n a).0 ≡ a.top + 1
unfolding alloc
first_of_alloc n a h = omega arith

allocs-Consecutive :
    (ns : List ℕ) (a : VidAllocator) (start : ℕ)
    → start ≡ a.top + 1
    → a.top + total ns + 1 < 2 ^ 64
    → ((allocs ns a).1.top ≡ a.top + total ns)
      × Consecutive start (a.top + total ns) (allocs ns a).0
allocs-Consecutive [] a start e h = (omega arith, omega arith)
allocs-Consecutive (n ∷ ns) a start e h =
    let top = after_alloc n a (omega arith) in
    let (last, rest) =
      allocs-Consecutive ns (alloc n a).1 (start + n) (omega (arith, top)) (omega (arith, top)) in
    let same : (alloc n a).1.top + total ns ≡ a.top + total (n ∷ ns) = omega (arith, top) in
    (omega (arith, last, same), (omega (arith, first_of_alloc n a (omega arith)), rw (← same) rest))

Consecutive-above :
    (blocks : List Block) (low start last : ℕ)
    → low ≤ start
    → Consecutive start last blocks
    → All (λ b. low ≤ b.0) blocks
Consecutive-above [] low start last h c = tt
Consecutive-above ((first, n) ∷ blocks) low start last h c =
    (omega arith, Consecutive-above blocks low (start + n) last (omega arith) c.1)

touched-allocs :
    (ns : List ℕ) (a : VidAllocator) → a.touched ≡ true → (allocs ns a).1.touched ≡ true
unfolding alloc
touched-allocs [] a h = h
touched-allocs (n ∷ ns) a h = touched-allocs ns (alloc n a).1 refl

not_static :
    (blocks : List Block)
    → All (λ b. first_dynamic_vid ≤ b.0) blocks
    → All (λ b. is_static b.0 ≡ false) blocks
unfolding is_static
not_static [] h = tt
not_static (b ∷ blocks) h = (ground (arith, h.0), not_static blocks h.1)

vtop_of :
    (ns : List ℕ)
    → (allocs ns new_vid_allocator).1.top ≡ new_vid_allocator.top + total ns
    → vtop (allocs ns new_vid_allocator).1
      ≡ (if is_nil ns then 0 else first_dynamic_vid - 1 + total ns)
unfolding vtop
vtop_of [] h = refl
vtop_of (n ∷ ns) h =
    rw (touched-allocs ns (alloc n new_vid_allocator).1 (unfold alloc in refl)) (omega (arith, h))

-- Any sequence of allocations from a new allocator, where the IDs fit 64 bits, hands out blocks of
-- the asked sizes that follow one another without gap or overlap from `FirstDynamicVID` on, so none
-- starts in the static range. After at least one call, even if none asked for an ID, `VTop` is the ID
-- before the next block, which is the highest ID handed out if there is one; without a call it is 0.
pub allocs-new_vid_allocator :
    (ns : List ℕ)
    → first_dynamic_vid + total ns < 2 ^ 64
    → Consecutive first_dynamic_vid
        (first_dynamic_vid - 1 + total ns)
        (allocs ns new_vid_allocator).0
      × All (λ b. is_static b.0 ≡ false) (allocs ns new_vid_allocator).0
      × (vtop (allocs ns new_vid_allocator).1
          ≡ (if is_nil ns then 0 else first_dynamic_vid - 1 + total ns))
allocs-new_vid_allocator ns h =
    let (last, blocks) =
      allocs-Consecutive ns new_vid_allocator first_dynamic_vid (omega arith) (omega arith) in
    (
      blocks,
      not_static (allocs ns new_vid_allocator).0 (
          Consecutive-above (allocs ns new_vid_allocator).0 first_dynamic_vid first_dynamic_vid _
            (omega arith) blocks),
      vtop_of ns last,
    )
