-- ===== src/Neth/TrieBuilder/Protocol/Refinement.antt =====
-- The prescribed calls compute what they are to compute.
use state_actor.Prelude.{ℕ, suc, true, ◌≡◌, refl, ap, ◌∙◌, List, [], ◌∷◌}
use state_actor.Neth.TrieBuilder.{
  StackTrie, NodeStorage, Result, ok, fail, Builder, new_builder, finalize_storage_root,
  add_account, finalize_state_root,
}
use state_actor.Neth.TrieBuilder.Protocol.{
  IsReliable, Account, after, add_slots, add_whole_account, add_whole_accounts, build, updated,
  root_of, account_leaves, Accepts, AcceptsSlots,
}
use state_actor.Neth.TrieBuilder.Protocol.Steps.{
  idle, storing, add_storage_slot-idle, add_storage_slot-storing, finalize_storage_root-storing,
  add_account-idle, finalize_state_root-idle,
}

after_assoc :
    {A B C T S : Type 0} (r : Result A × Builder T S) (f : A → Builder T S → Result B × Builder T S)
    (g : B → Builder T S → Result C × Builder T S)
    → after r (λ a b. after (f a b) g) ≡ after (after r f) g
after_assoc (ok a, b) f g = refl
after_assoc (fail e, b) f g = refl

module _ {T S : Type 0} (trie : StackTrie T) (sink : NodeStorage S)
    (reliable : IsReliable trie sink) where
  add_slots-storing :
      (slots : List (List ℕ × List ℕ)) (s : S) (accounts : T) (m : ℕ) (addr_hash : List ℕ) (t : T)
      (n : ℕ)
      → Accepts trie t slots
      → (s' : S) × (n' : ℕ) × (add_slots trie sink
            (storing s accounts m addr_hash t (suc n))
            addr_hash
            slots
          ≡ (ok tt, storing s' accounts m addr_hash (updated trie t slots) (suc n')))
  unfolding add_slots
  add_slots-storing [] s accounts m addr_hash t n h = (s, n, refl)
  add_slots-storing ((key, value) ∷ slots) s accounts m addr_hash t n (h, hs) =
      let (s1, p) =
        add_storage_slot-storing trie sink reliable s accounts m addr_hash t (suc n) key value h in
      let (s2, n2, q) =
        add_slots-storing slots s1 accounts m addr_hash (trie.update t key value).1 (suc n) hs in
      (s2, n2, ap (λ r. after r (λ _ b'. add_slots trie sink b' addr_hash slots)) p ∙ q)

  -- The slots of an account, and its storage root.
  slots_root :
      (slots : List (List ℕ × List ℕ)) (s : S) (accounts : T) (m : ℕ) (old addr_hash : List ℕ)
      → Accepts trie trie.new_trie slots
      → (s' : S) × (old' : List ℕ) × (after
            (add_slots trie sink (idle s accounts m old) addr_hash slots)
            (λ _ b. finalize_storage_root trie sink b addr_hash)
          ≡ (ok (root_of trie slots), idle s' accounts m old'))
  unfolding add_slots finalize_storage_root
  slots_root [] s accounts m old addr_hash h = (s, old, refl)
  slots_root ((key, value) ∷ slots) s accounts m old addr_hash (h, hs) =
      let t = (trie.update trie.new_trie key value).1 in
      let finish = λ (r : Result (Unit {0}) × Builder T S).
        after r (λ _ b. finalize_storage_root trie sink b addr_hash) in
      let (s1, p) =
        add_storage_slot-idle trie sink reliable s accounts m old addr_hash key value h in
      let (s2, n2, q) = add_slots-storing slots s1 accounts m addr_hash t 0 hs in
      let (s3, r) =
        finalize_storage_root-storing trie sink reliable s2 accounts m addr_hash
          (updated trie t slots) n2 in
      (
        s3,
        addr_hash,
        ap (λ x. finish (after x (λ _ b'. add_slots trie sink b' addr_hash slots))) p
            ∙ ap finish q
            ∙ r,
      )

  add_whole_account_ok :
      (a : Account) (s : S) (accounts : T) (m : ℕ) (old : List ℕ)
      → Accepts trie trie.new_trie a.slots
      → let leaf = a.account_rlp (root_of trie a.slots) in
        (trie.update accounts a.addr_hash leaf).0 ≡ true
        → (s' : S) × (old' : List ℕ) × (add_whole_account trie sink (idle s accounts m old) a
            ≡ (ok tt, idle s' (trie.update accounts a.addr_hash leaf).1 (suc m) old'))
  unfolding add_whole_account
  add_whole_account_ok a s accounts m old h k =
      let leaf = a.account_rlp (root_of trie a.slots) in
      let next = λ (r : Result (List ℕ) × Builder T S).
        after r (λ root b. add_account trie sink b a.addr_hash (a.account_rlp root)) in
      let (s1, old1, p) = slots_root a.slots s accounts m old a.addr_hash h in
      let (s2, q) = add_account-idle trie sink reliable s1 accounts m old1 a.addr_hash leaf k in
      (
        s2,
        old1,
        after_assoc (add_slots trie sink (idle s accounts m old) a.addr_hash a.slots)
              (λ _ b. finalize_storage_root trie sink b a.addr_hash)
              (λ root b. add_account trie sink b a.addr_hash (a.account_rlp root))
            ∙ ap next p
            ∙ q,
      )

  add_whole_accounts_ok :
      (rest : List Account) (s : S) (accounts : T) (m : ℕ) (old : List ℕ)
      → AcceptsSlots trie rest
      → Accepts trie accounts (account_leaves trie rest)
      → (s' : S) × (m' : ℕ) × (old' : List ℕ) × (add_whole_accounts trie sink
            (idle s accounts (suc m) old)
            rest
          ≡ (ok tt, idle s' (updated trie accounts (account_leaves trie rest)) (suc m') old'))
  unfolding add_whole_accounts
  add_whole_accounts_ok [] s accounts m old h k = (s, m, old, refl)
  add_whole_accounts_ok (a ∷ rest) s accounts m old (h, hs) (k, ks) =
      let leaf = a.account_rlp (root_of trie a.slots) in
      let (s1, old1, p) = add_whole_account_ok a s accounts (suc m) old h k in
      let (s2, m2, old2, q) =
        add_whole_accounts_ok rest s1 (trie.update accounts a.addr_hash leaf).1 (suc m) old1 hs
          ks in
      (s2, m2, old2, ap (λ r. after r (λ _ b. add_whole_accounts trie sink b rest)) p ∙ q)

  -- With a sink that never fails, and a stack trie that takes the slots of each account and the
  -- leaves of the accounts in the order given: the calls that the builder's comment prescribes
  -- return no error, and the state root is the hash of one stack trie over the accounts' leaves, each
  -- made with the hash of a new stack trie over the account's slots; a trie without leaves counts
  -- as the empty tree's hash.
  pub build-root_of :
      (accounts : List Account) (s : S)
      → AcceptsSlots trie accounts
      → Accepts trie trie.new_trie (account_leaves trie accounts)
      → (build trie sink s accounts).0 ≡ ok (root_of trie (account_leaves trie accounts))
  unfolding build add_whole_accounts finalize_state_root new_builder
  build-root_of [] s h k = refl
  build-root_of (a ∷ rest) s (h, hs) (k, ks) =
      let leaf = a.account_rlp (root_of trie a.slots) in
      let finish = λ (r : Result (Unit {0}) × Builder T S).
        (after r (λ _ b. finalize_state_root trie sink b)).0 in
      let (s1, old1, p) = add_whole_account_ok a s trie.new_trie 0 [] h k in
      let t = (trie.update trie.new_trie a.addr_hash leaf).1 in
      let (s2, m2, old2, q) = add_whole_accounts_ok rest s1 t 0 old1 hs ks in
      ap (λ r. finish (after r (λ _ b. add_whole_accounts trie sink b rest))) p
      ∙ ap finish q
      ∙ finalize_state_root-idle trie sink reliable s2 (updated trie t (account_leaves trie rest))
          m2 old2
