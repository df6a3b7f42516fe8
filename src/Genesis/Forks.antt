-- ===== src/Genesis/Forks.antt =====
-- genesis/forks.go: the fork list and the chain configuration of a fork. `strings.ToLower` of
-- `strings.TrimSpace` and geth's DefaultBlobSchedule are parameters.
pub mod Order
pub mod Configs
use Prim.Native.String.{String}
use text.Mathlib.Text.{◌==◌ as str_eq}
use state_actor.Prelude.{
  ℕ, zero, suc, ◌+◌, Bool, true, false, not, ◌&&◌, ◌||◌, Option, none, some, List, [], ◌∷◌, leb,
  and_then, if◌then◌else◌,
}

-- The fields of `params.ChainConfig` that the forks set; nil is `none`.
pub record ChainConfig (B : Type 0) : Type 0 where
  pub chain_id : ℕ
  pub homestead_block : Option ℕ
  pub eip150_block : Option ℕ
  pub eip155_block : Option ℕ
  pub eip158_block : Option ℕ
  pub byzantium_block : Option ℕ
  pub constantinople_block : Option ℕ
  pub petersburg_block : Option ℕ
  pub istanbul_block : Option ℕ
  pub berlin_block : Option ℕ
  pub london_block : Option ℕ
  pub arrow_glacier_block : Option ℕ
  pub gray_glacier_block : Option ℕ
  pub terminal_total_difficulty : Option ℕ
  pub merge_netsplit_block : Option ℕ
  pub shanghai_time : Option ℕ
  pub cancun_time : Option ℕ
  pub blob_schedule_config : Option B
  pub prague_time : Option ℕ
  pub osaka_time : Option ℕ

pub record ForkSpec (B : Type 0) : Type 0 where
  pub name : String
  pub time_based : Bool
  pub apply : ChainConfig B → ChainConfig B

abbrev pub default_fork : String
default_fork = "prague"

-- `&params.ChainConfig{ChainID: …}`
abbrev pub new_config : {B : Type 0} → ℕ → ChainConfig B
new_config chain_id = record {
  chain_id = chain_id;
  homestead_block = none;
  eip150_block = none;
  eip155_block = none;
  eip158_block = none;
  byzantium_block = none;
  constantinople_block = none;
  petersburg_block = none;
  istanbul_block = none;
  berlin_block = none;
  london_block = none;
  arrow_glacier_block = none;
  gray_glacier_block = none;
  terminal_total_difficulty = none;
  merge_netsplit_block = none;
  shanghai_time = none;
  cancun_time = none;
  blob_schedule_config = none;
  prague_time = none;
  osaka_time = none;
}

abbrev pub fork : {B : Type 0} → String → Bool → (ChainConfig B → ChainConfig B) → ForkSpec B
fork name time_based apply = record { name = name; time_based = time_based; apply = apply }

unfoldable pub forks : {B : Type 0} → B → List (ForkSpec B)
forks schedule =
    fork "homestead" false (λ c. record c { homestead_block = some 0 })
    ∷ fork "eip150" false (λ c. record c { eip150_block = some 0 })
    ∷ fork "eip155" false (λ c. record c { eip155_block = some 0; eip158_block = some 0 })
    ∷ fork "byzantium" false (λ c. record c { byzantium_block = some 0 })
    ∷ fork "constantinople" false (λ c. record c { constantinople_block = some 0 })
    ∷ fork "petersburg" false (λ c. record c { petersburg_block = some 0 })
    ∷ fork "istanbul" false (λ c. record c { istanbul_block = some 0 })
    ∷ fork "berlin" false (λ c. record c { berlin_block = some 0 })
    ∷ fork "london" false (λ c. record c { london_block = some 0 })
    ∷ fork "arrowglacier" false (λ c. record c { arrow_glacier_block = some 0 })
    ∷ fork "grayglacier" false (λ c. record c { gray_glacier_block = some 0 })
    ∷ fork "merge" false
        (λ c. record c { terminal_total_difficulty = some 0; merge_netsplit_block = some 0 })
    ∷ fork "shanghai" true (λ c. record c { shanghai_time = some 0 })
    ∷ fork "cancun" true
        (λ c. record c { cancun_time = some 0; blob_schedule_config = some schedule })
    ∷ fork "prague" true (λ c. record c { prague_time = some 0 })
    ∷ fork "osaka" true (λ c. record c { osaka_time = some 0 })
    ∷ []

module _ {B : Type 0} where
  -- `if f.name == canonical { idx = i; break }`, from the index `i` on.
  unfoldable pub first_index : String → List (ForkSpec B) → ℕ → Option ℕ
  first_index name [] i = none
  first_index name (f ∷ fs) i =
      let rest = first_index name fs (i + 1) in if str_eq f.name name then some i else rest

  -- `if f.name == a { ia = i }`: the last one counts.
  unfoldable pub last_index : String → List (ForkSpec B) → ℕ → Option ℕ → Option ℕ
  last_index name [] i found = found
  last_index name (f ∷ fs) i found =
      last_index name fs (i + 1) (if str_eq f.name name then some i else found)

  -- `for i := 0; i <= idx; i++`: the rounds left.
  unfoldable pub apply_forks : ℕ → List (ForkSpec B) → ChainConfig B → ChainConfig B
  apply_forks zero fs cfg = cfg
  apply_forks (suc n) [] cfg = cfg
  apply_forks (suc n) (f ∷ fs) cfg = apply_forks n fs (f.apply cfg)

abbrev pub at_least : Option ℕ → Option ℕ → Bool
at_least (some ia) (some ib) = leb ib ia
at_least (some ia) none = false
at_least none ib = false

module _ (canonicalize : String → String) where
  -- The names that stand for the default.
  unfoldable pub resolve : String → String
  resolve name =
      let canonical = canonicalize name in
      if str_eq canonical "" || (str_eq canonical "latest" || str_eq canonical "default")
      then default_fork
      else canonical

module _ {B : Type 0} (schedule : B) (canonicalize : String → String) where
  unfoldable pub fork_at_least : String → String → Bool
  unfolding last_index forks
  fork_at_least a b =
      at_least (last_index (canonicalize a) (forks schedule) 0 none)
        (last_index (canonicalize b) (forks schedule) 0 none)

  -- `none` is an error, and a nil chain ID.
  unfoldable pub build_chain_config_for_fork : String → Option ℕ → Option (ChainConfig B)
  unfolding resolve first_index fork_at_least apply_forks forks
  build_chain_config_for_fork name none = none
  build_chain_config_for_fork name (some chain_id) =
      let canonical = resolve canonicalize name in
      and_then (first_index canonical (forks schedule) 0) (λ idx.
        if not (fork_at_least canonical "prague")
        then none
        else some (apply_forks (idx + 1) (forks schedule) (new_config chain_id)))

  -- The loop of `ListForks`.
  unfoldable pub selectable : List (ForkSpec B) → List String
  unfolding fork_at_least
  selectable [] = []
  selectable (f ∷ fs) =
      let rest = selectable fs in
      if not (fork_at_least f.name "prague") then rest else f.name ∷ rest

  unfoldable pub list_forks : List String
  unfolding selectable forks
  list_forks = selectable (forks schedule)

unfoldable pub max_fork_for_client : String → String
max_fork_for_client client =
    if str_eq client "geth"
      || (str_eq client "reth"
          || (str_eq client "besu"
              || (str_eq client "nethermind"
                  || (str_eq client "erigon"
                      || (str_eq client "ethrex" || str_eq client "nimbus")))))
    then "osaka"
    else default_fork
