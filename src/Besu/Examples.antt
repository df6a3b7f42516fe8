-- ===== src/Besu/Examples.antt =====
-- Runs of the builder, and its theorems at concrete accounts.
use state_actor.Prelude.{ℕ, zero, suc, ◌≡◌, refl, arith, inl, inr, Bool-cases, some, List, [], ◌∷◌}
use state_actor.Besu.Trie.{Builder, new, add_accounts, key_path, equal_nibbles}
use state_actor.Besu.Trie.Paths.{equal_nibbles_iff}
use state_actor.Besu.Trie.WellFormed.{get, IsWellFormed}
use state_actor.Besu.Trie.Keys.{IsHash}
use state_actor.Besu.Trie.Accounts.{Account, latest, add_accounts-new, add_accounts_any_order}

abbrev repeated : ℕ → ℕ → List ℕ → List ℕ
repeated zero b rest = rest
repeated (suc n) b rest = b ∷ repeated n b rest

-- Two hashes that part at their third nibble, and one that parts from both at the first.
abbrev first : List ℕ
first = 0x11 ∷ 0x22 ∷ repeated 30 0xab []

abbrev second : List ℕ
second = 0x11 ∷ 0x32 ∷ repeated 30 0xcd []

abbrev third : List ℕ
third = repeated 32 0xff []

abbrev forwards : List Account
forwards = (first, 1 ∷ []) ∷ (second, 2 ∷ []) ∷ (third, 3 ∷ []) ∷ []

abbrev backwards : List Account
backwards = (third, 3 ∷ []) ∷ (second, 2 ∷ []) ∷ (first, 1 ∷ []) ∷ []

same_latest : (key : List ℕ) → latest forwards key ≡ latest backwards key
same_latest key = elim (Bool-cases (equal_nibbles first key)) [
  | inl e ↦
      let same : first ≡ key = (equal_nibbles_iff first key).0 e in
      rw (← same) (unfold equal_nibbles in refl)
  | inr e ↦ elim (Bool-cases (equal_nibbles second key)) [
    | inl f ↦
        let same : second ≡ key = (equal_nibbles_iff second key).0 f in
        rw (← same) (unfold equal_nibbles in refl)
    | inr f ↦ rw (e, f) (ground arith)
  ]
]

any_order_example :
    (b : Builder) × (c : Builder) × (add_accounts new forwards ≡ some b)
    × (add_accounts new backwards ≡ some c)
    × (b.root ≡ c.root)
any_order_example =
    add_accounts_any_order forwards backwards (omega arith) (omega arith) (λ key k. same_latest key)

add_accounts_example :
    (b : Builder) × (add_accounts new forwards ≡ some b)
    × (b.count ≡ 3)
    × IsWellFormed 64 b.root
    × ((key : List ℕ) → IsHash key → get b.root (key_path key) ≡ latest forwards key)
add_accounts_example = add_accounts-new forwards (omega arith)
