-- ===== src/Besu/Trie/Accounts.antt =====
-- The builder as a whole: the trie that a sequence of accounts leaves, and the order of the accounts.
use state_actor.Prelude.{
  ℕ, ◌+◌, ◌≡◌, refl, sym, ap, ◌∙◌, arith, ◌⊎◌, inl, inr, Bool-cases, Option, none, some, List, [],
  ◌∷◌, length, All, if◌then◌else◌,
}
use state_actor.Besu.Trie.{
  Node, null, Builder, new, add_account, add_accounts, insert_node, key_path, equal_nibbles,
}
use state_actor.Besu.Trie.Paths.{equal_nibbles_iff}
use state_actor.Besu.Trie.WellFormed.{get, IsWellFormed}
use state_actor.Besu.Trie.Insert.{insert_node-Inserted}
use state_actor.Besu.Trie.Canonical.{canonical}
use state_actor.Besu.Trie.Keys.{IsHash, key_path-IsPath, equal_nibbles-key_path}

-- An account's hash and its RLP.
abbrev pub Account : Type 0
Account = List ℕ × List ℕ

abbrev pub HaveHashes : List Account → Type 0
HaveHashes = All (λ a. IsHash a.0)

abbrev pub or_else : Option (List ℕ) → Option (List ℕ) → Option (List ℕ)
or_else (some v) o = some v
or_else none o = o

-- The RLP that a sequence of accounts gives a hash: the last one counts.
abbrev pub latest : List Account → List ℕ → Option (List ℕ)
latest [] key = none
latest ((hash, rlp) ∷ rest) key =
    or_else (latest rest key) (if equal_nibbles hash key then some rlp else none)

-- The same at the level of paths, over what a trie held before.
abbrev latest_at : (List ℕ → Option (List ℕ)) → List Account → List ℕ → Option (List ℕ)
latest_at before [] q = before q
latest_at before ((hash, rlp) ∷ rest) q =
    latest_at (λ r. if equal_nibbles (key_path hash) r then some rlp else before r) rest q

record Built (b : Builder) (accounts : List Account) : Type 0 where
  builder : Builder
  returned : add_accounts b accounts ≡ some builder
  shape : IsWellFormed 64 builder.root
  counted : builder.count ≡ b.count + length accounts
  reads : (q : List ℕ) → get builder.root q ≡ latest_at (get b.root) accounts q

add_account-eq :
    (b : Builder) (hash rlp : List ℕ) (node : Node)
    → insert_node b.root (key_path hash) rlp ≡ some node
    → add_account b hash rlp ≡ some (record { root = node; count = b.count + 1 })
unfolding add_account
add_account-eq b hash rlp node e = rw (e, add_account)

add_accounts-cons :
    (b b' : Builder) (hash rlp : List ℕ) (rest : List Account)
    → add_account b hash rlp ≡ some b'
    → add_accounts b ((hash, rlp) ∷ rest) ≡ add_accounts b' rest
unfolding add_accounts
add_accounts-cons b b' hash rlp rest e = rw (e, add_accounts)

latest_at-ext :
    (f g : List ℕ → Option (List ℕ)) (accounts : List Account) (q : List ℕ)
    → ((r : List ℕ) → f r ≡ g r)
    → latest_at f accounts q ≡ latest_at g accounts q
latest_at-ext f g [] q h = h q
latest_at-ext f g ((hash, rlp) ∷ rest) q h =
    latest_at-ext (λ r. if equal_nibbles (key_path hash) r then some rlp else f r)
      (λ r. if equal_nibbles (key_path hash) r then some rlp else g r) rest q
      (λ r. ap (λ o. if equal_nibbles (key_path hash) r then some rlp else o) (h r))

built :
    (b : Builder) (accounts : List Account)
    → IsWellFormed 64 b.root
    → HaveHashes accounts
    → Built b accounts
built b [] wf h = record {
  builder = b;
  returned = unfold add_accounts in refl;
  shape = wf;
  counted = omega arith;
  reads = λ q. refl;
}
built b ((hash, rlp) ∷ rest) wf h =
    let i = insert_node-Inserted b.root 64 (key_path hash) rlp wf (key_path-IsPath hash h.0) in
    let b' : Builder = record { root = i.node; count = b.count + 1 } in
    let r = built b' rest i.shape h.1 in
    record {
      builder = r.builder;
      returned =
          add_accounts-cons b b' hash rlp rest (add_account-eq b hash rlp i.node i.returned)
          ∙ r.returned;
      shape = r.shape;
      counted = omega (arith, r.counted);
      reads = λ q. r.reads q ∙ latest_at-ext (get i.node) _ rest q i.reads;
    }

-- At the path of a hash.
latest_at-key_path :
    (before : List ℕ → Option (List ℕ)) (accounts : List Account) (key : List ℕ)
    → HaveHashes accounts
    → IsHash key
    → latest_at before accounts (key_path key)
      ≡ or_else (latest accounts key) (before (key_path key))
latest_at-key_path before [] key h k = refl
latest_at-key_path before ((hash, rlp) ∷ rest) key h k =
    latest_at-key_path (λ r. if equal_nibbles (key_path hash) r then some rlp else before r) rest
      key h.1 k
    ∙ ground (arith, equal_nibbles-key_path hash key h.0 k)

get_null : (q : List ℕ) → get null q ≡ none
unfolding get
get_null q = refl

or_else-none : (o : Option (List ℕ)) → or_else o none ≡ o
or_else-none none = refl
or_else-none (some v) = refl

-- Any sequence of accounts whose hashes have 32 bytes goes into a new builder without a panic. The
-- trie is well formed, the count is the number of accounts, and at the path of every hash stands
-- the RLP of the last account with that hash, or nothing where there is none.
pub add_accounts-new :
    (accounts : List Account)
    → HaveHashes accounts
    → (b : Builder) × (add_accounts new accounts ≡ some b)
      × (b.count ≡ length accounts)
      × IsWellFormed 64 b.root
      × ((key : List ℕ) → IsHash key → get b.root (key_path key) ≡ latest accounts key)
add_accounts-new accounts h =
    let r = built new accounts tt h in
    (
      r.builder,
      r.returned,
      omega (arith, r.counted),
      r.shape,
      λ key k.
          r.reads (key_path key)
          ∙ latest_at-key_path (get null) accounts key h k
          ∙ ap (or_else (latest accounts key)) (get_null (key_path key))
          ∙ or_else-none (latest accounts key),
    )

-- A path is that of a hash, or no account touches it.
IsHash-or_untouched :
    (accounts : List Account) (q : List ℕ)
    → HaveHashes accounts
    → ((key : List ℕ) × IsHash key × (q ≡ key_path key))
      ⊎ ((before : List ℕ → Option (List ℕ)) → latest_at before accounts q ≡ before q)
IsHash-or_untouched [] q h = inr (λ before. refl)
IsHash-or_untouched ((hash, rlp) ∷ rest) q h = elim (Bool-cases (equal_nibbles (key_path hash) q)) [
  | inl e ↦ inl (hash, h.0, sym ((equal_nibbles_iff (key_path hash) q).0 e))
  | inr e ↦ elim (IsHash-or_untouched rest q h.1) [
    | inl k ↦ inl k
    | inr u ↦ inr (λ before. u _ ∙ rw e)
  ]
]

same_everywhere :
    (xs ys : List Account)
    → HaveHashes xs
    → HaveHashes ys
    → ((key : List ℕ) → IsHash key → latest xs key ≡ latest ys key)
    → (q : List ℕ) → latest_at (get null) xs q ≡ latest_at (get null) ys q
same_everywhere xs ys hx hy same q = elim (IsHash-or_untouched xs q hx) [
  | inl (key, k, e) ↦ at_hash key k e
  | inr untouched ↦ elim (IsHash-or_untouched ys q hy) [
    | inl (key, k, e) ↦ at_hash key k e
    | inr untouched' ↦ untouched (get null) ∙ sym (untouched' (get null))
  ]
]
  where
    at_hash :
        (key : List ℕ)
        → IsHash key
        → q ≡ key_path key
        → latest_at (get null) xs q ≡ latest_at (get null) ys q
    at_hash key k e = rw e (
        latest_at-key_path (get null) xs key hx k
        ∙ ap (λ o. or_else o (get null (key_path key))) (same key k)
        ∙ sym (latest_at-key_path (get null) ys key hy k))

-- The order of the accounts does not matter: two sequences that give every hash the same RLP, where
-- the last account with a hash counts, both leave a trie, and it is the same trie.
pub add_accounts_any_order :
    (xs ys : List Account)
    → HaveHashes xs
    → HaveHashes ys
    → ((key : List ℕ) → IsHash key → latest xs key ≡ latest ys key)
    → (b : Builder) × (c : Builder) × (add_accounts new xs ≡ some b)
      × (add_accounts new ys ≡ some c)
      × (b.root ≡ c.root)
add_accounts_any_order xs ys hx hy same =
    let r = built new xs tt hx in
    let s = built new ys tt hy in
    (
      r.builder,
      s.builder,
      r.returned,
      s.returned,
      canonical 64 r.builder.root s.builder.root r.shape s.shape
          (λ q. r.reads q ∙ same_everywhere xs ys hx hy same q ∙ sym (s.reads q)),
    )
