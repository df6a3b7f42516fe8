-- ===== src/Nimbus/Vid/Keys.antt =====
-- Row keys of vertices.
use state_actor.Prelude.{
  ℕ, ◌≤◌, ◌≡◌, sym, ap, ◌∙◌, arith, some, List, [], ◌∷◌, ◌++◌, append-nil, length, length-append,
  take, drop, take-append, drop-append, ◌==◌, Bool-cases, inl, inr, false,
}
use state_actor.Nimbus.Sbe.{IsU64, sbe_len, decode_sbe}
use state_actor.Nimbus.Sbe.RoundTrip.{
  be_bytes, append_sbe-eq, length-be_bytes, sbe_len_range, decode_sbe-append_sbe,
}
use state_actor.Nimbus.Vid.{RootedVertexId, append_key, parse_vid, parse_key}

abbrev sbe : ℕ → List ℕ
sbe v = be_bytes (sbe_len v) v

decode-sbe : (v : ℕ) → IsU64 v → decode_sbe (sbe v) ≡ some v
decode-sbe v h = ap decode_sbe (sym (append_sbe-eq [] v)) ∙ decode_sbe-append_sbe v h

append_key_same :
    (root : ℕ)
    → IsU64 root
    → append_key [] (record { root = root; vid = root }) ≡ sbe_len root ∷ sbe root
unfolding append_key
append_key_same root h =
    ground (arith, append_sbe-eq (sbe_len root ∷ []) root, sbe_len_range root h)

parse-root :
    (root : ℕ) (rest : List ℕ)
    → IsU64 root
    → parse_key (sbe_len root ∷ sbe root ++ rest) ≡ parse_vid root rest
unfolding parse_key
parse-root root rest h = ground (
  arith,
  sbe_len_range root h,
  length-append (sbe root) rest,
  length-be_bytes (sbe_len root) root,
  ap (λ (n : ℕ). take n (sbe root ++ rest)) (length-be_bytes (sbe_len root) root),
  ap (λ (n : ℕ). drop n (sbe root ++ rest)) (length-be_bytes (sbe_len root) root),
  take-append (sbe root) rest,
  drop-append (sbe root) rest,
  decode-sbe root h,
)

append_key_other :
    (root vid : ℕ)
    → IsU64 root
    → (vid == root) ≡ false
    → append_key [] (record { root = root; vid = vid }) ≡ sbe_len root ∷ (sbe root ++ sbe vid)
unfolding append_key
append_key_other root vid h e = ground (
  arith,
  append_sbe-eq (sbe_len root ∷ []) root,
  append_sbe-eq (sbe_len root ∷ sbe root) vid,
  sbe_len_range root h,
)

parse-vid :
    (root vid : ℕ) (b : List ℕ)
    → (vid == root) ≡ false
    → 1 ≤ length b
    → decode_sbe b ≡ some vid
    → parse_vid root b ≡ some (record { root = root; vid = vid })
unfolding parse_vid
parse-vid root vid [] e h d = absurd (omega arith)
parse-vid root vid (c ∷ cs) e h d = ground arith

-- `ParseKey` reads back the root and the vertex ID, uint64 both, that `AppendKey` wrote: whether the
-- ID was left out, where it equals the root, or written behind it.
pub parse_key-append_key :
    (r : RootedVertexId) → IsU64 r.root → IsU64 r.vid → parse_key (append_key [] r) ≡ some r
parse_key-append_key r hr hv = elim (Bool-cases (r.vid == r.root)) [
  | inl same ↦
      let e : r.vid ≡ r.root = ground arith in
      ap (λ (v : ℕ). parse_key (append_key [] (record { root = r.root; vid = v }))) e
      ∙ ap parse_key
          (append_key_same r.root hr ∙ ap (λ l. sbe_len r.root ∷ l) (sym (append-nil (sbe r.root))))
      ∙ parse-root r.root [] hr
      ∙ unfold parse_vid in ap (λ (v : ℕ). some (record { root = r.root; vid = v })) (sym e)
  | inr other ↦
      ap parse_key (append_key_other r.root r.vid hr other)
      ∙ parse-root r.root (sbe r.vid) hr
      ∙ parse-vid r.root r.vid (sbe r.vid) other
          (omega (arith, length-be_bytes (sbe_len r.vid) r.vid, sbe_len_range r.vid hv))
          (decode-sbe r.vid hv)
]
