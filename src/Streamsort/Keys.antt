-- ===== src/Streamsort/Keys.antt =====
-- The order of Pebble's keys, and sorted maps as lists of entries: what the store promises.
use state_actor.Bytes.{same_bytes, same_bytes_refl, same_bytes_eq}
use state_actor.Prelude.{
  ℕ, suc, ◌≡◌, refl, ap, sym, ◌∙◌, arith, Bool, true, false, Option, none, some, List, [], ◌∷◌,
  ◌++◌, ◌+◌, ◌≤◌, length, All, ltb, ◌==◌, Bool-cases, inl, inr, if◌then◌else◌,
}

-- `bytes.Compare(a, b) < 0`
unfoldable pub key_before : List ℕ → List ℕ → Bool
key_before [] [] = false
key_before [] (y ∷ b) = true
key_before (x ∷ a) [] = false
key_before (x ∷ a) (y ∷ b) =
    let rest = key_before a b in if ltb x y then true else if x == y then rest else false

abbrev pub Entry : Type 0
Entry = List ℕ × List ℕ

-- A sorted map, written in order: the last value of a key stays.
unfoldable pub insert_entry : List ℕ → List ℕ → List Entry → List Entry
unfolding key_before same_bytes
insert_entry k v [] = (k, v) ∷ []
insert_entry k v ((a, b) ∷ es) =
    let rest = insert_entry k v es in
    if key_before k a
    then (k, v) ∷ (a, b) ∷ es
    else if same_bytes k a
    then (k, v) ∷ es
    else (a, b) ∷ rest

unfoldable pub written : List Entry → List Entry → List Entry
unfolding insert_entry
written [] m = m
written ((k, v) ∷ es) m = written es (insert_entry k v m)

unfoldable pub lookup : List Entry → List ℕ → Option (List ℕ)
unfolding same_bytes
lookup [] k = none
lookup ((a, b) ∷ es) k = let rest = lookup es k in if same_bytes a k then some b else rest

-- The value of the last write of a key.
unfoldable pub newest : List Entry → List ℕ → Option (List ℕ) → Option (List ℕ)
unfolding same_bytes
newest [] k o = o
newest ((a, b) ∷ es) k o = newest es k (if same_bytes a k then some b else o)

-- The entries from the first key that is not before `k`.
unfoldable pub from_key : List ℕ → List Entry → List Entry
unfolding key_before
from_key k [] = []
from_key k ((a, b) ∷ es) = let rest = from_key k es in if key_before a k then rest else (a, b) ∷ es

abbrev pub IsAfter : List ℕ → Entry → Type 0
IsAfter k e = key_before k e.0 ≡ true

abbrev pub Ascending : List Entry → Type 0
Ascending [] = Unit {0}
Ascending (e ∷ es) = All (IsAfter e.0) es × Ascending es

before_irrefl : (a : List ℕ) → key_before a a ≡ false
unfolding key_before
before_irrefl [] = refl
before_irrefl (x ∷ a) = ground (arith, before_irrefl a)

before_trans :
    (a b c : List ℕ) → key_before a b ≡ true → key_before b c ≡ true → key_before a c ≡ true
unfolding key_before
before_trans [] [] c h k = cc
before_trans [] (y ∷ b) [] h k = cc
before_trans [] (y ∷ b) (z ∷ c) h k = refl
before_trans (x ∷ a) [] c h k = cc
before_trans (x ∷ a) (y ∷ b) [] h k = cc
before_trans (x ∷ a) (y ∷ b) (z ∷ c) h k = ground (arith, before_trans a b c)

before_total :
    (a b : List ℕ) → key_before a b ≡ false → same_bytes a b ≡ false → key_before b a ≡ true
unfolding key_before same_bytes
before_total [] [] h k = cc
before_total [] (y ∷ b) h k = cc
before_total (x ∷ a) [] h k = refl
before_total (x ∷ a) (y ∷ b) h k = ground (arith, before_total a b)

different : (a b : List ℕ) → key_before a b ≡ true → same_bytes a b ≡ false
different a b h = elim (Bool-cases (same_bytes a b)) [
  | inl e ↦ (let q = same_bytes_eq a b e in let r = before_irrefl b in cc)
  | inr e ↦ e
]

same_bytes_sym : (a b : List ℕ) → same_bytes a b ≡ false → same_bytes b a ≡ false
same_bytes_sym a b h = elim (Bool-cases (same_bytes b a)) [
  | inl e ↦ (let q = same_bytes_eq b a e in let r = same_bytes_refl b in cc)
  | inr e ↦ e
]

-- The order of the entries after an insertion.
pub insert-All :
    (P : Entry → Type 0) (k v : List ℕ) (es : List Entry)
    → P (k, v)
    → All P es
    → All P (insert_entry k v es)
unfolding insert_entry
insert-All P k v [] h hs = (h, hs)
insert-All P k v ((a, b) ∷ es) h hs = elim (Bool-cases (key_before k a)) [
  | inl e ↦ rw e (h, hs)
  | inr e ↦ elim (Bool-cases (same_bytes k a)) [
    | inl q ↦ rw (e, q) (h, hs.1)
    | inr q ↦ rw (e, q) (hs.0, insert-All P k v es h hs.1)
  ]
]

IsAfter-trans :
    (k a : List ℕ) (es : List Entry)
    → key_before k a ≡ true
    → All (IsAfter a) es
    → All (IsAfter k) es
IsAfter-trans k a [] h hs = tt
IsAfter-trans k a (e ∷ es) h hs = (before_trans k a e.0 h hs.0, IsAfter-trans k a es h hs.1)

pub insert-Ascending :
    (k v : List ℕ) (es : List Entry) → Ascending es → Ascending (insert_entry k v es)
unfolding insert_entry
insert-Ascending k v [] h = (tt, tt)
insert-Ascending k v ((a, b) ∷ es) h = elim (Bool-cases (key_before k a)) [
  | inl e ↦ rw e ((e, IsAfter-trans k a es e h.0), h)
  | inr e ↦ elim (Bool-cases (same_bytes k a)) [
    | inl q ↦ rw (e, q) (rw (same_bytes_eq k a q) h.0, h.1)
    | inr q ↦
        rw (e, q)
          (insert-All (IsAfter a) k v es (before_total k a e q) h.0, insert-Ascending k v es h.1)
  ]
]

pub written-Ascending : (es m : List Entry) → Ascending m → Ascending (written es m)
unfolding written
written-Ascending [] m h = h
written-Ascending ((k, v) ∷ es) m h =
    written-Ascending es (insert_entry k v m) (insert-Ascending k v m h)

lookup-insert :
    (k v x : List ℕ) (es : List Entry)
    → lookup (insert_entry k v es) x ≡ (if same_bytes k x then some v else lookup es x)
unfolding insert_entry lookup
lookup-insert k v x [] = refl
lookup-insert k v x ((a, b) ∷ es) = elim (Bool-cases (key_before k a)) [
  | inl e ↦ rw e refl
  | inr e ↦ elim (Bool-cases (same_bytes k a)) [
    | inl q ↦
        rw (e, q, same_bytes_eq k a q)
          (elim (Bool-cases (same_bytes a x)) [ inl r ↦ rw r refl | inr r ↦ rw r refl ])
    | inr q ↦
        rw (e, q, lookup-insert k v x es)
          (elim (Bool-cases (same_bytes a x)) [
            | inl r ↦
                (let q' : same_bytes k x ≡ false = rw (sym (same_bytes_eq a x r)) q in
                  rw (r, q') refl)
            | inr r ↦ rw r refl
          ])
  ]
]

-- A lookup in the map of the writes finds the last one.
pub lookup-written :
    (es m : List Entry) (k : List ℕ) → lookup (written es m) k ≡ newest es k (lookup m k)
unfolding written newest
lookup-written [] m k = refl
lookup-written ((a, b) ∷ es) m k =
    lookup-written es (insert_entry a b m) k ∙ ap (newest es k) (lookup-insert a b k m)

lookup-above : (k : List ℕ) (es : List Entry) → All (IsAfter k) es → lookup es k ≡ none
unfolding lookup
lookup-above k [] h = refl
lookup-above k ((a, b) ∷ es) h = rw (same_bytes_sym k a (different k a h.0)) (lookup-above k es h.1)

-- The value of the first entry, if it is that of `k`.
abbrev pub first_value : List Entry → List ℕ → Option (List ℕ)
first_value [] k = none
first_value ((a, b) ∷ es) k = if same_bytes a k then some b else none

-- In an ascending map it is enough to look at the first key that is not before `k`.
pub first_value-from_key :
    (k : List ℕ) (es : List Entry) → Ascending es → first_value (from_key k es) k ≡ lookup es k
unfolding from_key lookup
first_value-from_key k [] h = refl
first_value-from_key k ((a, b) ∷ es) h = elim (Bool-cases (key_before a k)) [
  | inl e ↦ rw (e, different a k e) (first_value-from_key k es h.1)
  | inr e ↦ elim (Bool-cases (same_bytes a k)) [
    | inl q ↦ rw (e, q) refl
    | inr q ↦ rw (e, q) (sym (lookup-above k es (IsAfter-trans k a es (before_total a k e q) h.0)))
  ]
]

-- An insertion adds at most one entry.
pub length-insert :
    (k v : List ℕ) (es : List Entry) → length (insert_entry k v es) ≤ suc (length es)
unfolding insert_entry
length-insert k v [] = omega arith
length-insert k v ((a, b) ∷ es) = ground (arith, length-insert k v es)

pub length-written : (es m : List Entry) → length (written es m) ≤ length es + length m
unfolding written
length-written [] m = omega arith
length-written ((k, v) ∷ es) m =
    omega (arith, length-written es (insert_entry k v m), length-insert k v m)

pub written-append : (es fs m : List Entry) → written (es ++ fs) m ≡ written fs (written es m)
unfolding written
written-append [] fs m = refl
written-append ((k, v) ∷ es) fs m = written-append es fs (insert_entry k v m)
