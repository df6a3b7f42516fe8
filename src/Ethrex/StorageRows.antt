-- ===== src/Ethrex/StorageRows.antt =====
-- Row keys of storage tries at concrete hashes.
use state_actor.Prelude.{ℕ, ◌≡◌, ◌≢◌, refl, arith, List, [], ◌∷◌}
use state_actor.Nimbus.Sbe.Trim.{zeros}
use state_actor.Ethrex.StorageKey.{
  prefixed_key, prefixed_key_injective, suppress_empty_trie_sentinel,
}

sentinel_run :
    suppress_empty_trie_sentinel (([], 0x80 ∷ []) ∷ (1 ∷ [], 0x80 ∷ []) ∷ [])
    ≡ (1 ∷ [], 0x80 ∷ []) ∷ []
unfolding suppress_empty_trie_sentinel
sentinel_run = refl

abbrev zero_hash : List ℕ
zero_hash = zeros 32 []

prefixed_key_injective_example :
    (prefixed_key zero_hash (3 ∷ []) ≡ prefixed_key zero_hash (3 ∷ [])
      → (zero_hash ≡ zero_hash) × (◌≡◌ {A = List ℕ} (3 ∷ []) (3 ∷ [])))
    × (prefixed_key zero_hash (3 ∷ []) ≢ 1 ∷ 16 ∷ [])
prefixed_key_injective_example =
    prefixed_key_injective zero_hash zero_hash (3 ∷ []) (3 ∷ []) (1 ∷ 16 ∷ []) (omega arith)
      (omega arith) refl refl (omega arith)
