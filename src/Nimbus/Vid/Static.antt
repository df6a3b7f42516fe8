-- ===== src/Nimbus/Vid/Static.antt =====
-- The static vertex IDs: level by level, the nibble paths in numerical order.
use state_actor.Prelude.{
  ℕ, zero, suc, ◌+◌, ◌-◌, ◌*◌, ◌^◌, ◌≤◌, ◌<◌, ◌≡◌, refl, ap, ◌∙◌, arith, some, List, [], ◌∷◌,
  length, get_elem?, false, ◌==◌,
}
use native.Mathlib.Nat.{pow-suc, one-le-pow}
use native.Mathlib.Numerals.{towards_suc}
use state_actor.Bytes.{Nibbles}
use state_actor.Nimbus.Vid.{
  add64, shl64, static_offset, static_vid_loop, static_vid, static_start_loop, static_start_vid,
  first_dynamic_vid,
}

-- The first `n` nibbles of a path as a number, the highest first.
unfoldable pub nibble_value : ℕ → List ℕ → ℕ
nibble_value zero path = 0
nibble_value (suc n) [] = 0
nibble_value (suc n) (p ∷ path) = p * 16 ^ n + nibble_value n path

-- 16 ^ i and the n - 1 powers after it: the sizes of n levels.
unfoldable pub levels : ℕ → ℕ → ℕ
levels i zero = 0
levels i (suc n) = 16 ^ i + levels (i + 1) n

pow_nibbles : (n : ℕ) → 2 ^ (4 * n) ≡ 16 ^ n
pow_nibbles zero = refl
pow_nibbles (suc n) =
    ap (λ (t : ℕ). 2 ^ t) (four_more n)
    ∙ omega (arith, pow_four (4 * n), pow_nibbles n, pow-suc 16 n)
  where
    four_more : (n : ℕ) → 4 * suc n ≡ 4 * n + 4
    four_more n = omega arith

    pow_four : (k : ℕ) → 2 ^ (k + 4) ≡ 2 ^ k * 16
    pow_four k = simp towards_suc (omega (arith, pow-suc 2 k))

pow-pos : (n : ℕ) → 0 < 16 ^ n
pow-pos n = one-le-pow n 16 (omega arith)

digit-lt : (p t : ℕ) → p < 16 → p * t + t ≤ 16 * t
digit-lt p t h = grind arith

pub nibble_value-lt :
    (n : ℕ) (path : List ℕ) → Nibbles path → n ≤ length path → nibble_value n path < 16 ^ n
unfolding nibble_value
nibble_value-lt zero path v h = omega arith
nibble_value-lt (suc n) [] v h = absurd (omega arith)
nibble_value-lt (suc n) (p ∷ path) v h =
    omega (arith, pow-suc 16 n, digit-lt p (16 ^ n) v.0, nibble_value-lt n path v.1 (omega arith))

-- Below 2 ^ 64 nothing wraps.
shl64-eq : (p n : ℕ) → p * 16 ^ n < 2 ^ 64 → shl64 p (4 * n) ≡ p * 16 ^ n
shl64-eq p n h = omega (arith, ap (λ (t : ℕ). p * t) (pow_nibbles n))

add64-eq : (a b : ℕ) → a + b < 2 ^ 64 → add64 a b ≡ a + b
add64-eq a b h = omega arith

one_round :
    (p left i v : ℕ)
    → v + 16 ^ i + p * 16 ^ left < 2 ^ 64
    → add64 (add64 v (shl64 1 (4 * i))) (shl64 p (4 * left)) ≡ v + 16 ^ i + p * 16 ^ left
one_round p left i v h = omega (arith, shl64-eq 1 i (omega arith), shl64-eq p left (omega arith))

static_vid_loop-eq :
    (path : List ℕ) (left i v : ℕ)
    → Nibbles path
    → left ≤ length path
    → v + levels i left + 16 ^ left ≤ 2 ^ 64
    → static_vid_loop path left i v ≡ some (v + levels i left + nibble_value left path)
unfolding static_vid_loop levels nibble_value
static_vid_loop-eq path zero i v n h fits = ap some (omega arith)
static_vid_loop-eq [] (suc left) i v n h fits = absurd (omega arith)
static_vid_loop-eq (p ∷ path) (suc left) i v n h fits =
    let room : 16 ^ suc left ≡ 16 ^ left * 16 = pow-suc 16 left in
    let digit : p * 16 ^ left + 16 ^ left ≤ 16 * 16 ^ left = digit-lt p (16 ^ left) n.0 in
    ap (static_vid_loop path left (i + 1)) (one_round p left i v (omega (arith, pow-pos left)))
    ∙ static_vid_loop-eq path left (i + 1) (v + 16 ^ i + p * 16 ^ left) n.1 (omega arith)
        (omega arith)
    ∙ ap some (omega arith)

static_start_loop-eq :
    (path : List ℕ) (left v : ℕ)
    → Nibbles path
    → left ≤ length path
    → v + 16 * 16 ^ left ≤ 2 ^ 64
    → static_start_loop path left v ≡ some (v + 16 * nibble_value left path)
unfolding static_start_loop nibble_value
static_start_loop-eq path zero v n h fits = ap some (omega arith)
static_start_loop-eq [] (suc left) v n h fits = absurd (omega arith)
static_start_loop-eq (p ∷ path) (suc left) v n h fits =
    let room : 16 ^ suc left ≡ 16 ^ left * 16 = pow-suc 16 left in
    let digit : p * 16 ^ left + 16 ^ left ≤ 16 * 16 ^ left = digit-lt p (16 ^ left) n.0 in
    let whole : p * 16 ^ suc left ≡ p * 16 ^ left * 16 =
      omega (arith, ap (λ (t : ℕ). p * t) room) in
    ap (static_start_loop path left)
      (omega (arith, shl64-eq p (suc left) (omega (arith, pow-pos left)), pow-pos left))
    ∙ static_start_loop-eq path left (v + p * 16 ^ suc left) n.1 (omega arith) (omega arith)
    ∙ ap some (omega arith)

-- The first ID of a level, and the table of the source.
unfoldable pub offset : ℕ → ℕ
offset level = 1 + levels 0 level

pub offset-in_table :
    (level : ℕ)
    → level ≤ 8
    → (get_elem? static_offset level ≡ some (offset level))
      × (offset level + 16 ^ level ≤ first_dynamic_vid)
unfolding offset levels
offset-in_table zero h = (refl, omega arith)
offset-in_table (suc zero) h = (refl, omega arith)
offset-in_table (suc (suc zero)) h = (refl, omega arith)
offset-in_table (suc (suc (suc zero))) h = (refl, omega arith)
offset-in_table (suc (suc (suc (suc zero)))) h = (refl, omega arith)
offset-in_table (suc (suc (suc (suc (suc zero))))) h = (refl, omega arith)
offset-in_table (suc (suc (suc (suc (suc (suc zero)))))) h = (refl, omega arith)
offset-in_table (suc (suc (suc (suc (suc (suc (suc zero))))))) h = (refl, omega arith)
offset-in_table (suc (suc (suc (suc (suc (suc (suc (suc zero)))))))) h = (refl, omega arith)
offset-in_table (suc (suc (suc (suc (suc (suc (suc (suc (suc n))))))))) h = absurd (omega arith)

-- On a path of nibbles, the ID at a level up to 8 is the level's offset plus the number that the
-- first `level` nibbles spell.
pub static_vid-eq :
    (path : List ℕ) (level : ℕ)
    → Nibbles path
    → level ≤ 8
    → level ≤ length path
    → static_vid path level ≡ some (offset level + nibble_value level path)
unfolding static_vid offset
static_vid-eq path zero n l h = unfold levels nibble_value in refl
static_vid-eq path (suc level) n l h =
    rw (suc_ne_zero level) (
      static_vid_loop-eq path (suc level) 0 1 n h
        (omega (arith, (offset-in_table (suc level) l).1)))
  where
    suc_ne_zero : (k : ℕ) → (suc k == 0) ≡ false
    suc_ne_zero k = ground arith

static_start_vid-eq :
    (path : List ℕ) (level : ℕ)
    → Nibbles path
    → level ≤ 7
    → level ≤ length path
    → static_start_vid path (suc level) ≡ some (offset (suc level) + 16 * nibble_value level path)
unfolding static_start_vid
static_start_vid-eq path level n l h =
    let (table, room) = offset-in_table (suc level) (omega arith) in
    rw table (
      rw (pred_of_suc level) (
        static_start_loop-eq path level (offset (suc level)) n h
          (omega (arith, room, pow-suc 16 level))))
  where
    pred_of_suc : (k : ℕ) → suc k - 1 ≡ k
    pred_of_suc k = omega arith

nibble_at :
    (path : List ℕ) (k : ℕ) {d : ℕ}
    → get_elem? path k ≡ some d
    → (k < length path) × (nibble_value (suc k) path ≡ 16 * nibble_value k path + d)
unfolding nibble_value
nibble_at [] k e = cc
nibble_at (p ∷ path) zero e = ground arith
nibble_at (p ∷ path) (suc k) {d} e =
    let (inside, eq) = nibble_at path k e in
    let power : p * 16 ^ suc k ≡ 16 * (p * 16 ^ k) =
      omega (arith, ap (λ (t : ℕ). p * t) (pow-suc 16 k)) in
    (omega (arith, inside), omega (arith, eq, power))

-- For a path of nibbles and a child position k + 1 of 1 to 8 inside it, `StaticStartVid` and
-- `StaticVid` succeed, and the ID at the position is the branch's start plus the nibble there.
pub static_vid-static_start_vid :
    (path : List ℕ) (k d : ℕ)
    → Nibbles path
    → k < 8
    → get_elem? path k ≡ some d
    → (start : ℕ) × (static_start_vid path (suc k) ≡ some start)
      × (static_vid path (suc k) ≡ some (start + d))
static_vid-static_start_vid path k d n h e =
    let (inside, eq) = nibble_at path k e in
    (
      offset (suc k) + 16 * nibble_value k path,
      static_start_vid-eq path k n (omega arith) (omega (arith, inside)),
      static_vid-eq path (suc k) n h inside ∙ ap some (omega (arith, eq)),
    )
