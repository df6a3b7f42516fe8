-- ===== src/Ethrex/NodeRlp/Reader.antt =====
-- A reader of RLP items, to say what the encoders write: the kind of an item and its payload, and
-- what follows it. As RLP demands, it takes the shortest form of each item and no other: a byte below
-- 0x80 stands for itself, a header with a length is for more than 55 bytes, and the length has no
-- leading zero.
use state_actor.Prelude.{
  ℕ, zero, suc, ◌+◌, ◌-◌, ◌*◌, ◌/◌, ◌%◌, ◌^◌, ◌≤◌, ◌<◌, ◌≡◌, refl, sym, ap, ◌∙◌, arith, Option,
  none, some, List, [], ◌∷◌, ◌++◌, length, length-append, take, drop, take-append, drop-append, ltb,
  leb, ◌==◌, Bool, true, false, ◌&&◌, ◌||◌, if◌then◌else◌, Bool-cases, inl, inr,
}
use native.Mathlib.Nat.{pow-suc}
use state_actor.Ethrex.NodeRlp.{min_be_loop, min_be_bytes}

pub data Item : Type 0 where
  text : List ℕ → Item
  sequence : List ℕ → Item

-- The number that bytes spell behind `v`, the highest byte first.
unfoldable pub spelled : ℕ → List ℕ → ℕ
spelled v [] = v
spelled v (c ∷ cs) = spelled (v * 256 + c) cs

unfoldable pub payload_of : (List ℕ → Item) → ℕ → List ℕ → Option (Item × List ℕ)
payload_of kind n r = if leb n (length r) then some (kind (take n r), drop n r) else none

-- `n` bytes of a string; a single byte below 0x80 wants no header.
abbrev single_below : ℕ → List ℕ → Bool
single_below n [] = false
single_below n (x ∷ r) = n == 1 && ltb x 0x80

unfoldable pub short_payload : ℕ → List ℕ → Option (Item × List ℕ)
unfolding payload_of
short_payload n r = if single_below n r then none else payload_of text n r

abbrev starts_zero : List ℕ → Bool
starts_zero [] = true
starts_zero (x ∷ r) = x == 0

-- `k` bytes of a length, and the payload.
unfoldable pub long_payload : (List ℕ → Item) → ℕ → List ℕ → Option (Item × List ℕ)
unfolding payload_of
long_payload kind k r =
    let n = spelled 0 (take k r) in
    if starts_zero r || leb n 55 then none else payload_of kind n (drop k r)

unfoldable pub read_item : List ℕ → Option (Item × List ℕ)
unfolding payload_of short_payload long_payload
read_item [] = none
read_item (f ∷ r) =
    if ltb f 0x80
    then some (text (f ∷ []), r)
    else if ltb f 0xb8
    then short_payload (f - 0x80) r
    else if ltb f 0xc0
    then long_payload text (f - 0xb7) r
    else if ltb f 0xf8
    then payload_of sequence (f - 0xc0) r
    else long_payload sequence (f - 0xf7) r

pub payload_of-append :
    (kind : List ℕ → Item) (b rest : List ℕ)
    → payload_of kind (length b) (b ++ rest) ≡ some (kind b, rest)
unfolding payload_of
payload_of-append kind b rest = rw (fits b rest, take-append b rest, drop-append b rest) refl
  where
    fits : (b rest : List ℕ) → leb (length b) (length (b ++ rest)) ≡ true
    fits b rest = ground (arith, length-append b rest)

spelled-min_be_loop :
    (room n : ℕ) (buf : List ℕ)
    → n < 256 ^ room
    → spelled 0 (min_be_loop room n buf) ≡ spelled n buf
unfolding min_be_loop spelled
spelled-min_be_loop zero n buf l = ap (λ (v : ℕ). spelled v buf) (sym (only_zero n l))
  where
    only_zero : (n : ℕ) → n < 256 ^ 0 → n ≡ 0
    only_zero n l = omega arith
spelled-min_be_loop (suc room) n buf l = elim (Bool-cases (n == 0)) [
  | inl e ↦ rw e (ap (λ (v : ℕ). spelled v buf) (sym (is_zero n e)))
  | inr e ↦ rw e (
      spelled-min_be_loop room (n / 256) ((n % 256) ∷ buf) (omega (arith, pow-suc 256 room))
      ∙ ap (λ (v : ℕ). spelled v buf) (rebuilt n))
]
  where
    is_zero : (n : ℕ) → (n == 0) ≡ true → n ≡ 0
    is_zero n e = ground arith

    rebuilt : (n : ℕ) → n / 256 * 256 + n % 256 ≡ n
    rebuilt n = omega arith

pub length-min_be_loop :
    (room n : ℕ) (buf : List ℕ) → length (min_be_loop room n buf) ≤ room + length buf
unfolding min_be_loop
length-min_be_loop zero n buf = omega arith
length-min_be_loop (suc room) n buf =
    ground (arith, length-min_be_loop room (n / 256) ((n % 256) ∷ buf))

-- The loop ends at zero.
min_be_loop-zero : (room n : ℕ) (buf : List ℕ) → (n == 0) ≡ true → min_be_loop room n buf ≡ buf
unfolding min_be_loop
min_be_loop-zero zero n buf e = refl
min_be_loop-zero (suc room) n buf e = rw e refl

positive : (n : ℕ) → 1 ≤ n → (n == 0) ≡ false
positive n h = ground arith

-- The first byte of a length is not zero.
min_be_loop-starts :
    (room n : ℕ) (buf rest : List ℕ)
    → 1 ≤ n
    → n < 256 ^ room
    → starts_zero (min_be_loop room n buf ++ rest) ≡ false
unfolding min_be_loop
min_be_loop-starts zero n buf rest h l = absurd (omega arith)
min_be_loop-starts (suc room) n buf rest h l = elim (Bool-cases (n / 256 == 0)) [
  | inl e ↦
      rw (positive n h, min_be_loop-zero room (n / 256) ((n % 256) ∷ buf) e) (last_digit n h e)
  | inr e ↦ rw (positive n h) (
      min_be_loop-starts room (n / 256) ((n % 256) ∷ buf) rest (not_zero (n / 256) e)
        (omega (arith, pow-suc 256 room)))
]
  where
    last_digit : (n : ℕ) → 1 ≤ n → (n / 256 == 0) ≡ true → (n % 256 == 0) ≡ false
    last_digit n h e = ground arith

    not_zero : (m : ℕ) → (m == 0) ≡ false → 1 ≤ m
    not_zero m e = ground arith

pub long_payload-append :
    (kind : List ℕ → Item) (b rest : List ℕ)
    → 55 < length b
    → length b < 2 ^ 64
    → long_payload kind (length (min_be_bytes (length b))) (min_be_bytes (length b) ++ (b ++ rest))
      ≡ some (kind b, rest)
unfolding long_payload min_be_bytes spelled
long_payload-append kind b rest more l =
    let head = min_be_loop 8 (length b) [] in
    let size : spelled 0 head ≡ length b = spelled-min_be_loop 8 (length b) [] (omega arith) in
    let starts : starts_zero (head ++ (b ++ rest)) ≡ false =
      min_be_loop-starts 8 (length b) [] (b ++ rest) (omega arith) (omega arith) in
    rw
      (
        starts,
        take-append head (b ++ rest),
        drop-append head (b ++ rest),
        size,
        long (length b) more,
      )
      (payload_of-append kind b rest)
  where
    long : (n : ℕ) → 55 < n → leb n 55 ≡ false
    long n h = ground arith

pub short_text :
    (n : ℕ) (r : List ℕ) → n ≤ 55 → read_item (((0x80 + n) % 256) ∷ r) ≡ short_payload n r
unfolding read_item
short_text n r l = ground (arith, ap (λ (k : ℕ). short_payload k r) (less n l))
  where
    less : (n : ℕ) → n ≤ 55 → (0x80 + n) % 256 - 0x80 ≡ n
    less n l = omega arith

pub short_sequence :
    (n : ℕ) (r : List ℕ) → n ≤ 55 → read_item (((0xc0 + n) % 256) ∷ r) ≡ payload_of sequence n r
unfolding read_item
short_sequence n r l = ground (arith, ap (λ (k : ℕ). payload_of sequence k r) (less n l))
  where
    less : (n : ℕ) → n ≤ 55 → (0xc0 + n) % 256 - 0xc0 ≡ n
    less n l = omega arith

pub long_text :
    (k : ℕ) (r : List ℕ)
    → 1 ≤ k
    → k ≤ 8
    → read_item (((0xb7 + k) % 256) ∷ r) ≡ long_payload text k r
unfolding read_item
long_text k r h l = ground (arith, ap (λ (j : ℕ). long_payload text j r) (less k l))
  where
    less : (k : ℕ) → k ≤ 8 → (0xb7 + k) % 256 - 0xb7 ≡ k
    less k l = omega arith

-- A string whose single byte, if it has one, is not below 0x80.
pub short_payload-append :
    (b rest : List ℕ)
    → ((x : ℕ) → b ≡ x ∷ [] → ltb x 0x80 ≡ false)
    → short_payload (length b) (b ++ rest) ≡ some (text b, rest)
unfolding short_payload payload_of
short_payload-append [] [] h = refl
short_payload-append [] (y ∷ rest) h = payload_of-append text [] (y ∷ rest)
short_payload-append (x ∷ []) rest h = rw (h x refl) (payload_of-append text (x ∷ []) rest)
short_payload-append (x ∷ y ∷ b) rest h =
    rw (longer (length b)) (payload_of-append text (x ∷ y ∷ b) rest)
  where
    longer : (n : ℕ) → (suc (suc n) == 1) ≡ false
    longer n = ground arith

pub long_sequence :
    (k : ℕ) (r : List ℕ)
    → 1 ≤ k
    → k ≤ 8
    → read_item (((0xf7 + k) % 256) ∷ r) ≡ long_payload sequence k r
unfolding read_item
long_sequence k r h l = ground (arith, ap (λ (j : ℕ). long_payload sequence j r) (less k l))
  where
    less : (k : ℕ) → k ≤ 8 → (0xf7 + k) % 256 - 0xf7 ≡ k
    less k l = omega arith
