-- ===== src/Nimbus/Rows.antt =====
-- The admin record and the key-value rows of nimbus at concrete values.
use state_actor.Prelude.{◌≡◌, ◌≢◌, ◌⊎◌, refl, arith, some, none, [], ◌∷◌}
use state_actor.Nimbus.Sbe.Trim.{zeros}
use state_actor.Nimbus.SavedState.{
  SavedState, encode_saved_state, decode_saved_state, record_with, saved_state_magic,
  saved_state_legacy_magic, decode_saved_state-encode_saved_state,
}
use state_actor.Nimbus.Kvt.{key_block_num_to_hash}

abbrev saved : SavedState
saved = record { v_top = 0x1_1111_1120; serial = 3 }

decode_saved_state-encode_saved_state_example :
    (encode_saved_state saved ≡ record_with saved saved_state_magic)
    × ((0x7f ≡ saved_state_magic) ⊎ (0x7f ≡ saved_state_legacy_magic)
        → decode_saved_state (record_with saved 0x7f) ≡ some saved)
    × (0x7f ≢ saved_state_magic
        → 0x7f ≢ saved_state_legacy_magic
        → decode_saved_state (record_with saved 0x7f) ≡ none)
decode_saved_state-encode_saved_state_example =
    decode_saved_state-encode_saved_state saved 0x7f (omega arith) (omega arith)

number_run : key_block_num_to_hash 258 ≡ 1 ∷ 2 ∷ 1 ∷ zeros 6 []
unfolding key_block_num_to_hash
number_run = refl
