-- ===== src/Nimbus/Vertex/Examples.antt =====
-- The codec of vertex records at concrete vertices.
use state_actor.Prelude.{ℕ, ◌≡◌, refl, arith, inl, inr, List, [], ◌∷◌, none, some}
use state_actor.Digits.{Digits, set_digits, words, words-IsUint256, words-Pads}
use state_actor.Nimbus.Sbe.{trim_zeros}
use state_actor.Nimbus.Sbe.Trim.{zeros}
use state_actor.Nimbus.Vertex.{Vertex, encode, append_sbe256}
use state_actor.Nimbus.Vertex.Segments.{ReadsBack}
use state_actor.Nimbus.Vertex.AccLeaf.{acc_leaf_vertex}
use state_actor.Nimbus.Vertex.RoundTrip.{decode_vertex-encode}

abbrev no_code : List ℕ
no_code = zeros 31 (7 ∷ [])

abbrev balance : Digits 32
balance = set_digits 32 (zeros 30 (3 ∷ 232 ∷ []))

abbrev account : Vertex (Digits 32)
account = acc_leaf_vertex words no_code (0xa ∷ 0x3 ∷ []) 5 balance 0 0 no_code

account_run : encode words no_code account ≡ some (5 ∷ 3 ∷ 232 ∷ 0 ∷ 8 ∷ 3 ∷ 0x20 ∷ 0xa3 ∷ 66 ∷ [])
unfolding encode
account_run = refl

balance_run : append_sbe256 words (9 ∷ []) (some balance) ≡ 9 ∷ 3 ∷ 232 ∷ []
unfolding trim_zeros
balance_run = refl

no_balance_run : append_sbe256 words (9 ∷ []) none ≡ 9 ∷ 0 ∷ []
no_balance_run = refl

decode_vertex-encode_example : ReadsBack words no_code (encode words no_code account) account
decode_vertex-encode_example =
    decode_vertex-encode words no_code words-IsUint256 words-Pads account (
      inr (
        inl (record {
          held = balance;
          shape = refl;
          fields = record {
            nonce_small = omega arith;
            sto_id_small = omega arith;
            sto_hint_small = omega arith;
            code_hash_size = refl;
          };
          path = (omega arith, (omega arith, tt));
          path_short = omega arith;
        })))
