-- ===== src/Messages.antt =====
-- messages/testnet.go and types/config.go: the request that starts a testnet workflow, and its
-- validation. `Spec` stands for catalyst's LoadTestSpec and `Json` for a decoded JSON value that is
-- no string, both of which are types of other repositories. A Go `int` or `int32` is kept as its bit
-- pattern, a nil map or pointer is `none`.
pub mod Valid
use ironbird.Base.{
  ℕ, String, Bool, true, false, not, ◌&&◌, ◌||◌, Option, none, some, List, str_eq, if◌then◌else◌,
}
use ironbird.Base.Action.{Result, ok, err}

pub data GenesisValue (Json : Type 0) : Type 0 where
  text : String → GenesisValue Json
  value : Json → GenesisValue Json

pub record GenesisKv (Json : Type 0) : Type 0 where
  pub key : String
  pub content : GenesisValue Json

pub record RegionConfig : Type 0 where
  pub name : String
  pub num_validators : ℕ
  pub num_nodes : ℕ

pub record ChainsConfig (Json : Type 0) : Type 0 where
  pub name : String
  pub image : String
  pub version : String
  pub genesis_modifications : List (GenesisKv Json)
  pub num_of_nodes : ℕ
  pub num_of_validators : ℕ
  pub region_configs : List RegionConfig
  pub custom_app_config : Option Json
  pub custom_consensus_config : Option Json
  pub custom_client_config : Option Json
  pub set_seed_node : Bool
  pub set_persistent_peers : Bool

pub record TestnetWorkflowRequest (Spec Json : Type 0) : Type 0 where
  pub repo : String
  pub sha : String
  pub is_evm_chain : Bool
  pub chain_config : ChainsConfig Json
  pub runner_type : String
  pub cosmos_sdk_sha : String
  pub comet_bft_sha : String
  pub ethereum_load_test_spec : Option Spec
  pub cosmos_load_test_spec : Option Spec
  pub long_running_testnet : Bool
  pub launch_load_balancer : Bool
  pub testnet_duration : String
  pub num_wallets : ℕ
  pub base_mnemonic : String
  pub catalyst_version : String
  pub provider_specific_config : List (String × String)

abbrev pub digital_ocean : String
digital_ocean = "DigitalOcean"

abbrev pub docker : String
docker = "Docker"

-- The error messages of `Validate`, in its order.
pub data Invalid : Type 0 where
  repo_required sha_required chain_name_required bad_runner_type duration_on_long_running : Invalid
  no_peers load_balancer_on_docker two_load_tests cosmos_test_on_evm eth_test_on_cosmos : Invalid

abbrev pub is_some {ℓ} : {A : Type ℓ} → Option A → Bool
is_some none = false
is_some (some a) = true

abbrev pub guard : {E : Type 0} → Bool → E → Result E (Unit {0}) → Result E (Unit {0})
guard bad e rest = if bad then err e else rest

module _ {Spec Json : Type 0} where
  -- The last test of `Validate`: the load test is of the chain's kind.
  validate_kind : TestnetWorkflowRequest Spec Json → Result Invalid (Unit {0})
  validate_kind r =
      if r.is_evm_chain
      then guard (is_some r.cosmos_load_test_spec) cosmos_test_on_evm (ok tt)
      else guard (is_some r.ethereum_load_test_spec) eth_test_on_cosmos (ok tt)

  -- Each guard is an early return of the source.
  unfoldable pub validate : TestnetWorkflowRequest Spec Json → Result Invalid (Unit {0})
  unfolding validate_kind
  validate r = guard (str_eq r.repo "") repo_required (
      guard (str_eq r.sha "") sha_required (
        guard (str_eq r.chain_config.name "") chain_name_required (
          guard (not (str_eq r.runner_type digital_ocean) && not (str_eq r.runner_type docker))
            bad_runner_type
            (guard (r.long_running_testnet && not (str_eq r.testnet_duration ""))
              duration_on_long_running
              (guard (not r.chain_config.set_seed_node && not r.chain_config.set_persistent_peers)
                no_peers
                (guard (str_eq r.runner_type docker && r.launch_load_balancer)
                  load_balancer_on_docker
                  (guard (is_some r.ethereum_load_test_spec && is_some r.cosmos_load_test_spec)
                    two_load_tests (validate_kind r))))))))
