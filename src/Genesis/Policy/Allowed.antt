-- ===== src/Genesis/Policy/Allowed.antt =====
-- What each client allows, in the words of the documentation, against the tests of the source.
use Prim.Native.String.{String}
use text.Mathlib.Text.{◌==◌ as str_eq}
use text.Mathlib.TextEquality.{eq_iff}
use mathlib.Core.Bool.{true≢false}
use state_actor.Prelude.{
  ℕ, ◌+◌, ◌≤◌, ◌≡◌, ◌≢◌, ◌↔◌, ◌⊎◌, refl, sym, ap, ◌∙◌, arith, Bool, true, false, not, ◌&&◌, ◌||◌,
  Option, none, some, List, [], ◌∷◌, length, leb, Bool-cases, inl, inr, if◌then◌else◌,
}
use state_actor.Genesis.Forks.{
  ForkSpec, forks, last_index, at_least, fork_at_least, max_fork_for_client,
}
use state_actor.Genesis.Forks.Order.{contains, str_eq_sym}
use state_actor.Genesis.Policy.{
  FlagValues, PolicyError, not_recognized, no_binary_trie, mainnet_with_binary_trie,
  mdbx_fill_is_reth_only, past_ceiling, is_recognized, fills, mainnet_model, validate_for_client,
}

abbrev pub clients : List String
clients = "geth" ∷ "nethermind" ∷ "besu" ∷ "reth" ∷ "erigon" ∷ "ethrex" ∷ "nimbus" ∷ []

-- The forks up to Osaka, which every client runs.
abbrev pub forks_to_osaka : List String
forks_to_osaka =
    "homestead" ∷ "eip150" ∷ "eip155" ∷ "byzantium" ∷ "constantinople" ∷ "petersburg" ∷ "istanbul"
    ∷ "berlin" ∷ "london" ∷ "arrowglacier" ∷ "grayglacier" ∷ "merge" ∷ "shanghai" ∷ "cancun"
    ∷ "prague" ∷ "osaka" ∷ []

-- What a client allows: one of the seven; a binary trie for geth alone and with neither mainnet
-- model; the fill profile at its default, and not chosen by hand, but for reth; a fork that is given
-- is Osaka or an earlier one.
pub record IsAllowed (canonicalize : String → String) (client : String) (fv : FlagValues)
    : Type 0 where
  pub recognized : contains client clients ≡ true
  pub binary_geth : fv.binary_trie ≡ true → client ≡ "geth"
  pub binary_model :
      fv.binary_trie ≡ true → (fv.storage_model ≢ "mainnet") × (fv.account_model ≢ "mainnet")
  pub fill_reth :
      client ≢ "reth"
      → ((fv.mdbx_fill_profile ≡ "") ⊎ (fv.mdbx_fill_profile ≡ "fresh"))
        × (fv.mdbx_fill_overridden ≡ false)
  pub known_fork : fv.fork_flag ≢ "" → contains (canonicalize fv.fork_flag) forks_to_osaka ≡ true

-- The chain of tests, and what its end says of each.
abbrev chain : String → Bool → Bool → Bool → Bool → Bool → Bool → Bool → Bool → Option PolicyError
chain client recognized binary geth mainnet reth fill no_fork fits =
    if not recognized
    then some (not_recognized client)
    else if binary && not geth
    then some (no_binary_trie client)
    else if binary && mainnet
    then some mainnet_with_binary_trie
    else if not reth && fill
    then some mdbx_fill_is_reth_only
    else if not no_fork && not fits
    then some past_ceiling
    else none

chain_iff :
    (client : String) (r b g m t f n a : Bool)
    → (chain client r b g m t f n a ≡ none) ↔ (
        (r ≡ true)
        × ((b ≡ true → g ≡ true)
            × ((b ≡ true → m ≡ false) × ((f ≡ true → t ≡ true) × (n ≡ false → a ≡ true)))))
chain_iff client r b g m t f n a = ground arith

differ : (a b : String) → (str_eq a b ≡ false) ↔ (a ≢ b)
differ a b = elim (Bool-cases (str_eq a b)) [
  | inl e ↦ (λ f. absurd (true≢false (sym e ∙ f)), λ n. absurd (n ((eq_iff a b).0 e)))
  | inr e ↦ (λ f q. true≢false (sym ((eq_iff a b).1 q) ∙ f), λ n. e)
]

recognized_contains : (client : String) → is_recognized client ≡ contains client clients
unfolding is_recognized contains
recognized_contains client = ground (
  arith,
  str_eq_sym "geth" client,
  str_eq_sym "nethermind" client,
  str_eq_sym "besu" client,
  str_eq_sym "reth" client,
  str_eq_sym "erigon" client,
  str_eq_sym "ethrex" client,
  str_eq_sym "nimbus" client,
)

both_false : (a b : Bool) → ((a || b) ≡ false) ↔ ((a ≡ false) × (b ≡ false))
both_false a b = ground arith

mainnet_iff :
    (fv : FlagValues)
    → (mainnet_model fv ≡ false) ↔ ((fv.storage_model ≢ "mainnet") × (fv.account_model ≢ "mainnet"))
mainnet_iff fv =
    let (to, from) =
      both_false (str_eq fv.storage_model "mainnet") (str_eq fv.account_model "mainnet") in
    let s = differ fv.storage_model "mainnet" in
    let a = differ fv.account_model "mainnet" in
    (λ h. let (x, y) = to h in (s.0 x, a.0 y), λ h. from (s.1 h.0, a.1 h.1))

fills_cases :
    (a b o : Bool) → (((not a && not b) || o) ≡ false) ↔ (((a ≡ true) ⊎ (b ≡ true)) × (o ≡ false))
fills_cases true b true = (λ h. cc, λ h. cc)
fills_cases true b false = (λ h. (inl refl, refl), λ h. refl)
fills_cases false true true = (λ h. cc, λ h. cc)
fills_cases false true false = (λ h. (inr refl, refl), λ h. refl)
fills_cases false false o = (λ h. cc, λ h. elim (h.0) [ inl e ↦ cc | inr e ↦ cc ])

fills_iff :
    (fv : FlagValues)
    → (fills fv ≡ false) ↔ (
        ((fv.mdbx_fill_profile ≡ "") ⊎ (fv.mdbx_fill_profile ≡ "fresh"))
        × (fv.mdbx_fill_overridden ≡ false))
fills_iff fv =
    let p = fv.mdbx_fill_profile in
    let (to, from) = fills_cases (str_eq p "") (str_eq p "fresh") fv.mdbx_fill_overridden in
    (
      λ h.
          let (x, y) = to h in
          (elim x [ inl e ↦ inl ((eq_iff p "").0 e) | inr e ↦ inr ((eq_iff p "fresh").0 e) ], y),
      λ h. from (
        elim (h.0) [ inl e ↦ inl ((eq_iff p "").1 e) | inr e ↦ inr ((eq_iff p "fresh").1 e) ],
        h.1,
      ),
    )

abbrev names_of : {B : Type 0} → List (ForkSpec B) → List String
names_of [] = []
names_of (f ∷ fs) = f.name ∷ names_of fs

-- No index is past the last one.
at_least_last :
    {B : Type 0} (name : String) (fs : List (ForkSpec B)) (i : ℕ) (found : Option ℕ)
    → i + length fs ≤ 16
    → at_least (some 15) (last_index name fs i found)
      ≡ (contains name (names_of fs) || at_least (some 15) found)
unfolding last_index contains
at_least_last name [] i found h = refl
at_least_last name (f ∷ fs) i found h = elim (Bool-cases (str_eq f.name name)) [
  | inl e ↦
      rw e (
        at_least_last name fs (i + 1) (some i) (omega arith)
        ∙ ground (arith, small i (omega arith)))
  | inr e ↦ rw e (at_least_last name fs (i + 1) found (omega arith))
]
  where
    small : (i : ℕ) → i ≤ 15 → leb i 15 ≡ true
    small i l = ground arith

or_false : (b : Bool) → (b || false) ≡ b
or_false true = refl
or_false false = refl

module _ {B : Type 0} (schedule : B) (canonicalize : String → String) where
  fork_at_least-osaka :
      (name : String)
      → canonicalize "osaka" ≡ "osaka"
      → fork_at_least schedule canonicalize "osaka" name
        ≡ contains (canonicalize name) forks_to_osaka
  unfolding fork_at_least last_index forks
  fork_at_least-osaka name o =
      rw o (at_least_last (canonicalize name) (forks schedule) 0 none (omega arith) ∙ or_false _)

  ceiling : (client : String) → is_recognized client ≡ true → max_fork_for_client client ≡ "osaka"
  unfolding is_recognized max_fork_for_client
  ceiling client h = ground arith

  fits_iff :
      (client flag : String)
      → is_recognized client ≡ true
      → canonicalize "osaka" ≡ "osaka"
      → fork_at_least schedule canonicalize (max_fork_for_client client) flag
        ≡ contains (canonicalize flag) forks_to_osaka
  fits_iff client flag r o =
      ap (λ c. fork_at_least schedule canonicalize c flag) (ceiling client r)
      ∙ fork_at_least-osaka flag o

  -- Where lower-casing and trimming keep the name "osaka": ValidateForClient returns no error exactly
  -- when the client is one of the seven; a binary trie is asked of geth alone, and with neither
  -- mainnet model; the fill profile is empty or "fresh" and not overridden, unless the client is
  -- reth; and a fork that is given is, lower-cased and trimmed, Osaka or an earlier one.
  pub validate_for_client_iff :
      (client : String) (fv : FlagValues)
      → canonicalize "osaka" ≡ "osaka"
      → (validate_for_client schedule canonicalize client fv ≡ none)
        ↔ IsAllowed canonicalize client fv
  unfolding validate_for_client
  validate_for_client_iff client fv o =
      let fork = fv.fork_flag in
      let tests =
        chain_iff client (is_recognized client) fv.binary_trie (str_eq client "geth")
          (mainnet_model fv) (str_eq client "reth") (fills fv) (str_eq fork "")
          (fork_at_least schedule canonicalize (max_fork_for_client client) fork) in
      (
        λ e.
            let (r, (g, (m, (f, a)))) = tests.0 e in
            record {
              recognized = sym (recognized_contains client) ∙ r;
              binary_geth = λ b. (eq_iff client "geth").0 (g b);
              binary_model = λ b. (mainnet_iff fv).0 (m b);
              fill_reth = λ n.
                  (fills_iff fv).0 (unless (fills fv) (λ h. n ((eq_iff client "reth").0 (f h))));
              known_fork = λ n. sym (fits_iff client fork r o) ∙ a ((differ fork "").1 n);
            },
        λ h.
            let r = recognized_contains client ∙ h.recognized in
            tests.1 (
              r,
              (
                λ b. (eq_iff client "geth").1 (h.binary_geth b),
                (
                  λ b. (mainnet_iff fv).1 (h.binary_model b),
                  (
                    λ f. reth_of f h.fill_reth (Bool-cases (str_eq client "reth")),
                    λ n. fits_iff client fork r o ∙ h.known_fork ((differ fork "").0 n),
                  ),
                ),
              ),
            ),
      )
    where
      unless : (b : Bool) → (b ≡ true → ⊥) → b ≡ false
      unless true n = absurd (n refl)
      unless false n = refl

      reth_of :
          fills fv ≡ true
          → (client ≢ "reth"
              → ((fv.mdbx_fill_profile ≡ "") ⊎ (fv.mdbx_fill_profile ≡ "fresh"))
                × (fv.mdbx_fill_overridden ≡ false))
          → (str_eq client "reth" ≡ true) ⊎ (str_eq client "reth" ≡ false)
          → str_eq client "reth" ≡ true
      reth_of f k (inl e) = e
      reth_of f k (inr e) =
          absurd (true≢false (sym f ∙ (fills_iff fv).1 (k ((differ client "reth").0 e))))
