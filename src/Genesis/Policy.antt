-- ===== src/Genesis/Policy.antt =====
-- internal/clientpolicy/policy.go: which flags go with which client.
pub mod Allowed
use Prim.Native.String.{String}
use text.Mathlib.Text.{◌==◌ as str_eq}
use state_actor.Prelude.{Bool, true, false, not, ◌&&◌, ◌||◌, Option, none, some, if◌then◌else◌}
use state_actor.Genesis.Forks.{fork_at_least, max_fork_for_client}

pub record FlagValues : Type 0 where
  pub binary_trie : Bool
  pub target_size : String
  pub fork_flag : String
  pub mdbx_fill_profile : String
  pub mdbx_fill_overridden : Bool
  pub storage_model : String
  pub account_model : String

-- The errors; the one on the binary trie names the client in its text.
pub data PolicyError : Type 0 where
  not_recognized : String → PolicyError
  no_binary_trie : String → PolicyError
  mainnet_with_binary_trie mdbx_fill_is_reth_only past_ceiling : PolicyError

-- The cases of both switches over the client.
unfoldable pub is_recognized : String → Bool
is_recognized client =
    str_eq client "geth"
    || (str_eq client "nethermind"
        || (str_eq client "besu"
            || (str_eq client "reth"
                || (str_eq client "erigon" || (str_eq client "ethrex" || str_eq client "nimbus")))))

-- `(fv.MdbxFillProfile != "" && fv.MdbxFillProfile != "fresh") || fv.MdbxFillOverridden`
abbrev pub fills : FlagValues → Bool
fills fv =
    (not (str_eq fv.mdbx_fill_profile "") && not (str_eq fv.mdbx_fill_profile "fresh"))
    || fv.mdbx_fill_overridden

abbrev pub mainnet_model : FlagValues → Bool
mainnet_model fv = str_eq fv.storage_model "mainnet" || str_eq fv.account_model "mainnet"

module _ {B : Type 0} (schedule : B) (canonicalize : String → String) where
  -- `none` is a nil error. Behind the first switch the client is one of the second switch's, so
  -- that one always returns.
  unfoldable pub validate_for_client : String → FlagValues → Option PolicyError
  unfolding is_recognized fork_at_least max_fork_for_client
  validate_for_client client fv =
      if not (is_recognized client)
      then some (not_recognized client)
      else if fv.binary_trie && not (str_eq client "geth")
      then some (no_binary_trie client)
      else if fv.binary_trie && mainnet_model fv
      then some mainnet_with_binary_trie
      else if not (str_eq client "reth") && fills fv
      then some mdbx_fill_is_reth_only
      else if not (str_eq fv.fork_flag "")
          && not (fork_at_least schedule canonicalize (max_fork_for_client client) fv.fork_flag)
      then some past_ceiling
      else none
