-- ===== src/Streamingtrie/Examples.antt =====
-- A run of the pipeline over a database of lists, with a hash builder that lists its leaves.
use state_actor.Prelude.{
  ◌%◌, ◌+◌, ◌==◌, ℕ, ◌≡◌, refl, arith, true, none, some, List, [], ◌∷◌, ◌++◌, length,
}
use state_actor.Streamsort.Keys.{written}
use state_actor.Streamsort.Examples.{list_pebble, list_pebble-Documented}
use state_actor.Besu.Streaming.{Outcome, finished, storage_trie_emitter, new_streaming_builder}
use state_actor.Besu.Streaming.Examples.{plain, row_sink}
use state_actor.Streamingtrie.{Sink, HashBuilder, zeros, sorted_root, storage_root}
use state_actor.Streamingtrie.Agreement.{slot_rows, decode_rows, storage_root-sorted_root}

-- The root is the number of leaves.
abbrev listing : HashBuilder (List (List ℕ))
listing = record {
  add_leaf = λ h k v. (true, h ++ ((k ++ v) ∷ []));
  root = λ h. (some (length h ∷ []), h);
}

-- The second slot is zero.
abbrev three_slots : List (List ℕ × List ℕ)
three_slots =
    (9 ∷ zeros 31, 5 ∷ zeros 31) ∷ (8 ∷ zeros 31, zeros 32) ∷ (7 ∷ zeros 31, 6 ∷ zeros 31) ∷ []

abbrev run_slots : List (List ℕ) × Unit {0}
run_slots = ([], tt)

storage_root-sorted_root_example :
    (storage_root (λ b. b) (λ b. b) listing none list_pebble 3 [] three_slots run_slots).0
    ≡ some (
        sorted_root
          (λ b. b)
          (λ b. b)
          listing
          none
          (decode_rows (written (slot_rows (λ b. b) three_slots) []))
          run_slots)
storage_root-sorted_root_example =
    storage_root-sorted_root (λ b. b) (λ b. b) listing none list_pebble (λ b. b) (λ d. d)
      (λ it. it.0) (λ it. it.1) list_pebble-Documented [] three_slots run_slots 3 refl (omega arith)

-- A hash by the first byte.
abbrev head_hash : List ℕ → List ℕ
head_hash [] = zeros 32
head_hash (x ∷ b) = (x % 256) ∷ zeros 31

abbrev empty_builder : Outcome (List (List ℕ)) (Unit {0})
empty_builder =
    finished tt (new_streaming_builder plain row_sink [] (storage_trie_emitter (7 ∷ [])))

-- A sink with room for one slot.
abbrev one_slot : Sink ℕ
one_slot = some (λ k key_hash raw_key value. (k == 0, k + 1))
