-- ===== src/Reth/Examples.antt =====
-- Runs of the reth codecs, and their theorems at concrete values.
use state_actor.Prelude.{ℕ, ◌≤◌, ◌≡◌, refl, arith, some, List, [], ◌∷◌, ◌++◌, length}
use state_actor.Digits.{write_digits, set_digits, length-write_digits, set_digits-write_digits}
use state_actor.Reth.VarUint.{encode_var_uint, decode_var_uint}
use state_actor.Reth.VarUint.RoundTrip.{decode_var_uint-encode_var_uint}
use state_actor.Reth.Compact.{encode_u64_compact, encode_u256_compact, decode_u256_compact}
use state_actor.Reth.Compact.RoundTrip.{decode_u256_compact-encode_u256_compact}
use state_actor.Reth.Bitflags.{BitflagBuilder, new_builder, finalize, BitflagReader, init}
use state_actor.Reth.Bitflags.Fields.{Field, put_all, get_all}
use state_actor.Reth.Bitflags.RoundTrip.{get_all-put_all}

var_uint_run : encode_var_uint [] 300 ≡ 0xac ∷ 0x02 ∷ []
unfolding encode_var_uint
var_uint_run = refl

compact_run : (encode_u64_compact [] 0x0102).0 ≡ 1 ∷ 2 ∷ []
unfolding encode_u64_compact
compact_run = refl

decode_var_uint-encode_var_uint_example :
    decode_var_uint (encode_var_uint [] 300 ++ (7 ∷ []))
    ≡ some (300, length (encode_var_uint [] 300))
decode_var_uint-encode_var_uint_example = decode_var_uint-encode_var_uint 300 (7 ∷ []) (omega arith)

decode_u256_compact-encode_u256_compact_example :
    let v = set_digits 32 (0 ∷ 0 ∷ 5 ∷ 7 ∷ []) in
    let (b, n) = encode_u256_compact (write_digits 32) (set_digits 32) [] v in
    (decode_u256_compact (write_digits 32) (set_digits 32) (b ++ (1 ∷ [])) n ≡ some v)
    × (length b ≡ n)
    × (n ≤ 32)
decode_u256_compact-encode_u256_compact_example =
    decode_u256_compact-encode_u256_compact (write_digits 32) (set_digits 32)
      (length-write_digits 32) (set_digits-write_digits 32) (set_digits 32 (0 ∷ 0 ∷ 5 ∷ 7 ∷ []))
      (1 ∷ [])

abbrev fields : List Field
fields = (5, 4) ∷ (33, 6) ∷ (1, 1) ∷ []

get_all-put_all_example :
    (b : BitflagBuilder) × (header : List ℕ) × (r : BitflagReader) × (put_all new_builder fields
      ≡ some b)
    × (finalize b 11 ≡ some header)
    × (length header ≤ 2)
    × (init header 11 ≡ some r)
    × (get_all r fields ≡ some (5 ∷ 33 ∷ 1 ∷ []))
get_all-put_all_example =
    get_all-put_all fields (omega arith, (omega arith, (omega arith, tt))) (omega arith)
