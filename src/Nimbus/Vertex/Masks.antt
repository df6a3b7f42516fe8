-- ===== src/Nimbus/Vertex/Masks.antt =====
-- The mask and the lengths of an account leaf's payload, as the encoder makes them and as the decoder
-- takes them apart.
use state_actor.Prelude.{
  ℕ, ◌+◌, ◌*◌, ◌/◌, ◌%◌, ◌^◌, ◌<◌, ◌≡◌, refl, sym, ap, ◌∙◌, arith, Bool, true, false, List, [],
  ◌++◌, append-nil, ◌==◌, if◌then◌else◌, bit_or, bit_and,
}
use state_actor.Prelude.Bits.{bit_or_above, bit_or_disjoint, bit_and_mask}
use state_actor.Nimbus.Vertex.{
  Fields, put_field, mask_nonce, mask_balance, mask_sto_id, mask_code_hash, mask_sto_hint,
  mask_sto_leaf,
}
use state_actor.Nimbus.Vertex.Decode.{has}

-- A field's bytes, if it is present.
abbrev pub when : Bool → List ℕ → List ℕ
when true bytes = bytes
when false bytes = []

abbrev pub or_if : Bool → ℕ → ℕ → ℕ
or_if true m x = bit_or m x
or_if false m x = m

pub put_field-eq :
    (b : Bool) (bit size : ℕ) (bytes : List ℕ) (p : Fields)
    → put_field b bit size bytes p ≡ record {
      dst = p.dst ++ when b bytes;
      lens = or_if b p.lens (size % 2 ^ 16);
      mask = or_if b p.mask bit;
    }
put_field-eq true bit size bytes p = refl
put_field-eq false bit size bytes p =
    ap (λ (l : List ℕ). record { dst = l; lens = p.lens; mask = p.mask }) (sym (append-nil p.dst))

-- A field that has no length.
pub or_if_nothing : (b : Bool) (m : ℕ) → or_if b m (0 % 2 ^ 16) ≡ m
or_if_nothing true m =
    let e : m ≡ m * 2 ^ 0 = omega arith in
    ap (λ x. bit_or x 0) e ∙ bit_or_disjoint 0 m 0 (omega arith) ∙ omega arith
or_if_nothing false m = refl

abbrev pub mask_of : Bool → Bool → Bool → Bool → Bool → ℕ
mask_of nonce balance sto_id sto_hint code_hash =
    or_if code_hash
      (or_if sto_hint
        (or_if sto_id (or_if balance (or_if nonce 0 mask_nonce) mask_balance) mask_sto_id)
        mask_sto_hint)
      mask_code_hash

-- What the decoder reads off a mask.
pub record Reads (m : ℕ) (nonce balance sto_id sto_hint code_hash : Bool) : Type 0 where
  pub nonce_bit : has m mask_nonce ≡ nonce
  pub balance_bit : has m mask_balance ≡ balance
  pub sto_id_bit : has m mask_sto_id ≡ sto_id
  pub sto_hint_bit : has m mask_sto_hint ≡ sto_hint
  pub code_hash_bit : has m mask_code_hash ≡ code_hash
  pub account : has m mask_sto_leaf ≡ false
  pub known : (bit_and m 0xe0 == 0) ≡ true

pub mask_of-Reads : (a b c d e : Bool) → Reads (mask_of a b c d e) a b c d e
mask_of-Reads a b c d e = ground arith

or_if-above :
    (b : Bool) (k m n : ℕ)
    → m < 2 ^ k
    → n * 2 ^ k < 2 ^ 16
    → or_if b m (n * 2 ^ k % 2 ^ 16) ≡ m + (if b then n else 0) * 2 ^ k
or_if-above true k m n h l =
    let e : n * 2 ^ k % 2 ^ 16 ≡ n * 2 ^ k = omega arith in rw e (bit_or_above k n m h)
or_if-above false k m n h l = omega arith

-- The three lengths less one, as the encoder packs them.
abbrev pub lens_of : Bool → Bool → Bool → ℕ → ℕ → ℕ → ℕ
lens_of a b c x y z =
    or_if c (or_if b (or_if a 0 (x % 2 ^ 16)) (y * 2 ^ 3 % 2 ^ 16)) (z * 2 ^ 8 % 2 ^ 16)

pub record ReadsLens (lens : ℕ) (a b c : Bool) (x y z : ℕ) : Type 0 where
  pub nonce_size : bit_and lens 0b111 ≡ (if a then x else 0)
  pub balance_size : bit_and (lens / 2 ^ 3) 0b11111 ≡ (if b then y else 0)
  pub sto_id_size : bit_and (lens / 2 ^ 8) 0b111 ≡ (if c then z else 0)
  pub two_bytes : lens < 2 ^ 16

if_below : (b : Bool) (n k : ℕ) → n < k → (if b then n else 0) < k
if_below true n k h = h
if_below false n k h = omega arith

pub lens_of-ReadsLens :
    (a b c : Bool) (x y z : ℕ)
    → x < 8
    → y < 32
    → z < 8
    → ReadsLens (lens_of a b c x y z) a b c x y z
lens_of-ReadsLens a b c x y z hx hy hz =
    let x' = if a then x else 0 in
    let y' = if b then y else 0 in
    let z' = if c then z else 0 in
    let below : (x' < 8) × (y' < 32) × (z' < 8) =
      (if_below a x 8 hx, if_below b y 32 hy, if_below c z 8 hz) in
    let first : or_if a 0 (x % 2 ^ 16) ≡ x' = first_size a x hx in
    let second : or_if b x' (y * 2 ^ 3 % 2 ^ 16) ≡ x' + y' * 2 ^ 3 =
      or_if-above b 3 x' y (below.0) (omega arith) in
    let third : or_if c (x' + y' * 2 ^ 3) (z * 2 ^ 8 % 2 ^ 16) ≡ x' + y' * 2 ^ 3 + z' * 2 ^ 8 =
      or_if-above c 8 (x' + y' * 2 ^ 3) z (omega (arith, below)) (omega arith) in
    let lens = x' + y' * 2 ^ 3 + z' * 2 ^ 8 in
    rw (first, second, third)
      (record {
        nonce_size = omega (arith, below, bit_and_mask 3 lens);
        balance_size = omega (arith, below, bit_and_mask 5 (lens / 2 ^ 3));
        sto_id_size = omega (arith, below, bit_and_mask 3 (lens / 2 ^ 8));
        two_bytes = omega (arith, below);
      })
  where
    first_size : (a : Bool) (x : ℕ) → x < 8 → or_if a 0 (x % 2 ^ 16) ≡ (if a then x else 0)
    first_size true x h =
        let e : x % 2 ^ 16 ≡ x * 2 ^ 0 = omega arith in
        ap (bit_or 0) e ∙ bit_or_above 0 x 0 (omega arith) ∙ omega arith
    first_size false x h = refl
