-- ===== src/Neth/FlatKeys/Examples.antt =====
-- Row keys of the flat layout at concrete nodes.
use state_actor.Prelude.{ℕ, ◌≡◌, ◌↔◌, refl, arith, List, [], ◌∷◌}
use state_actor.Nimbus.Sbe.Trim.{zeros}
use state_actor.Neth.FlatKeys.{state_top_nodes, state_node_key}
use state_actor.Neth.FlatKeys.Distinct.{NodeId, storage_node, row_of, name_of, row_of_iff}

top_run : state_node_key (0xab ∷ 0xc0 ∷ zeros 30 []) 3 ≡ (state_top_nodes, 0xab ∷ 0xc0 ∷ 3 ∷ [])
unfolding state_node_key
top_run = refl

abbrev path : List ℕ
path = 0xa ∷ 0xb ∷ 0xc ∷ []

-- Two address hashes that differ behind their first 20 bytes.
abbrev one_node : NodeId
one_node = storage_node (zeros 31 (7 ∷ [])) path

abbrev other_node : NodeId
other_node = storage_node (zeros 31 (8 ∷ [])) path

row_of_iff_example : (row_of one_node ≡ row_of other_node) ↔ (name_of one_node ≡ name_of other_node)
row_of_iff_example =
    row_of_iff one_node other_node
      (refl, ((omega arith, (omega arith, (omega arith, tt))), omega arith))
      (refl, ((omega arith, (omega arith, (omega arith, tt))), omega arith))
