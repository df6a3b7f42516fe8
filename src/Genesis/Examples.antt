-- ===== src/Genesis/Examples.antt =====
-- Forks and flags at concrete values, with names in canonical form already.
use Prim.Native.String.{String}
use state_actor.Prelude.{ℕ, ◌≡◌, ◌↔◌, refl, true, false, Option, none, some, [], ◌∷◌}
use state_actor.Genesis.Forks.{ChainConfig, build_chain_config_for_fork, list_forks}
use state_actor.Genesis.Forks.Order.{is_some, contains, build_chain_config_for_fork-list_forks}
use state_actor.Genesis.Policy.{FlagValues, validate_for_client}
use state_actor.Genesis.Policy.Allowed.{IsAllowed, validate_for_client_iff}

abbrev keep : String → String
keep s = s

-- The blob schedule is any value.
abbrev schedule : Unit {0}
schedule = tt

list_run : list_forks schedule keep ≡ "prague" ∷ "osaka" ∷ []
unfolding list_forks
list_run = refl

abbrev osaka_time_of : {B : Type 0} → Option (ChainConfig B) → Option ℕ
osaka_time_of none = none
osaka_time_of (some c) = c.osaka_time

prague_run : osaka_time_of (build_chain_config_for_fork schedule keep "" (some 1)) ≡ none
unfolding build_chain_config_for_fork
prague_run = refl

berlin_run : build_chain_config_for_fork schedule keep "berlin" (some 1) ≡ none
unfolding build_chain_config_for_fork
berlin_run = refl

build_chain_config_for_fork-list_forks_example :
    is_some (build_chain_config_for_fork schedule keep "latest" (some 1))
    ≡ contains "latest" ("" ∷ "latest" ∷ "default" ∷ list_forks schedule keep)
build_chain_config_for_fork-list_forks_example =
    build_chain_config_for_fork-list_forks schedule keep "latest" 1 refl

abbrev flags : FlagValues
flags = record {
  binary_trie = true;
  target_size = "1GB";
  fork_flag = "prague";
  mdbx_fill_profile = "fresh";
  mdbx_fill_overridden = false;
  storage_model = "";
  account_model = "";
}

validate_for_client_iff_example :
    (validate_for_client schedule keep "geth" flags ≡ none) ↔ IsAllowed keep "geth" flags
validate_for_client_iff_example = validate_for_client_iff schedule keep "geth" flags refl
