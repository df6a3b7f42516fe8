-- ===== src/Genesis/Forks/Configs.antt =====
-- The two configurations that can be built.
use Prim.Native.String.{String}
use state_actor.Prelude.{ℕ, ◌≡◌, refl, none, some}
use state_actor.Genesis.Forks.{
  ChainConfig, forks, first_index, last_index, fork_at_least, resolve, apply_forks,
  build_chain_config_for_fork,
}

-- Everything up to Prague from the start, and not Osaka.
abbrev pub prague_config : {B : Type 0} → B → ℕ → ChainConfig B
prague_config schedule chain_id = record {
  chain_id = chain_id;
  homestead_block = some 0;
  eip150_block = some 0;
  eip155_block = some 0;
  eip158_block = some 0;
  byzantium_block = some 0;
  constantinople_block = some 0;
  petersburg_block = some 0;
  istanbul_block = some 0;
  berlin_block = some 0;
  london_block = some 0;
  arrow_glacier_block = some 0;
  gray_glacier_block = some 0;
  terminal_total_difficulty = some 0;
  merge_netsplit_block = some 0;
  shanghai_time = some 0;
  cancun_time = some 0;
  blob_schedule_config = some schedule;
  prague_time = some 0;
  osaka_time = none;
}

abbrev pub osaka_config : {B : Type 0} → B → ℕ → ChainConfig B
osaka_config schedule chain_id = record (prague_config schedule chain_id) { osaka_time = some 0 }

module _ {B : Type 0} (schedule : B) (canonicalize : String → String) where
  -- Where lower-casing and trimming keep the names "prague" and "osaka": for a name that stands for
  -- Prague, everything up to Prague is active from the start and Osaka is not, and for one that stands
  -- for Osaka, Osaka is too; the chain ID is the one given.
  build_chain_config_for_fork_lem :
      canonicalize "prague" ≡ "prague"
      → canonicalize "osaka" ≡ "osaka"
      → (name : String) (chain_id : ℕ)
      → (resolve canonicalize name ≡ "prague"
          → build_chain_config_for_fork schedule canonicalize name (some chain_id)
            ≡ some (prague_config schedule chain_id))
        × (resolve canonicalize name ≡ "osaka"
            → build_chain_config_for_fork schedule canonicalize name (some chain_id)
              ≡ some (osaka_config schedule chain_id))
  unfolding build_chain_config_for_fork fork_at_least forks first_index last_index apply_forks
  build_chain_config_for_fork_lem p o name chain_id = (λ h. rw (h, p) refl, λ h. rw (h, o, p) refl)
