-- ===== src/Workflow/Types.antt =====
-- messages/*.go and util/util.go: the requests and answers of the activities that the testnet
-- workflow runs, the log of what it did, and what it asks of Temporal and of its activities.
use ironbird.Base.{ℕ, String, Bool, Option, List}
use ironbird.Base.Action.{Result}
use ironbird.Messages.{GenesisKv, RegionConfig, Invalid}

-- A Go `[]byte`.
abbrev pub Bytes : Type 0
Bytes = List ℕ

pub record Node : Type 0 where
  pub name : String
  pub address : String
  pub rpc : String
  pub lcd : String
  pub grpc : String
  pub evmrpc : String
  pub evmws : String

pub record ImageConfig : Type 0 where
  pub name : String
  pub image : String
  pub version : String

pub record BuildDockerImageRequest : Type 0 where
  pub repo : String
  pub sha : String
  pub image_config : ImageConfig
  pub cosmos_sdk_sha : String
  pub comet_bft_sha : String

pub record BuildDockerImageResponse : Type 0 where
  pub fqdn_tag : String
  pub logs : Bytes

pub record LaunchTestnetRequest (Json : Type 0) : Type 0 where
  pub name : String
  pub is_evm_chain : Bool
  pub repo : String
  pub sha : String
  pub image : String
  pub base_image : String
  pub genesis_modifications : List (GenesisKv Json)
  pub runner_type : String
  pub region_configs : List RegionConfig
  pub num_of_validators : ℕ
  pub num_of_nodes : ℕ
  pub custom_app_config : Option Json
  pub custom_consensus_config : Option Json
  pub custom_client_config : Option Json
  pub additional_start_flags : List String
  pub provider_state : Bytes
  pub set_persistent_peers : Bool
  pub set_seed_node : Bool
  pub base_mnemonic : String
  pub num_wallets : ℕ
  pub provider_specific_config : List (String × String)

pub record LaunchTestnetResponse : Type 0 where
  pub provider_state : Bytes
  pub chain_state : Bytes
  pub chain_id : String
  pub nodes : List Node
  pub validators : List Node

pub record LoadBalancerDomain : Type 0 where
  pub domain : String
  pub ips : List String
  pub protocol : String

pub record LaunchLoadBalancerRequest : Type 0 where
  pub provider_state : Bytes
  pub runner_type : String
  pub domains : List LoadBalancerDomain
  pub workflow_id : String
  pub is_evm_chain : Bool

pub record LaunchLoadBalancerResponse : Type 0 where
  pub provider_state : Bytes
  pub load_balancer_state : Bytes
  pub root_domain : String

pub record RunLoadTestRequest (Spec : Type 0) : Type 0 where
  pub chain_state : Bytes
  pub provider_state : Bytes
  pub load_test_spec : Spec
  pub runner_type : String
  pub is_evm_chain : Bool
  pub base_mnemonic : String
  pub num_wallets : ℕ
  pub catalyst_version : String

-- An error that the workflow sees. `temporal.IsCanceledError` holds of `canceled` alone.
pub data Fault : Type 0 where
  canceled : Fault
  failed : String → Fault
  invalid : Invalid → Fault

abbrev pub is_canceled : Fault → Bool
is_canceled canceled = Bool.true
is_canceled (failed s) = Bool.false
is_canceled (invalid i) = Bool.false

-- A signed duration in nanoseconds.
pub data Duration : Type 0 where
  forward : ℕ → Duration
  backward : ℕ → Duration

-- What the workflow did, each call with its answer. A history has its newest event first.
pub data Event (Spec Json : Type 0) : Type 0 where
  built_image : BuildDockerImageRequest → Result Fault BuildDockerImageResponse → Event Spec Json
  created_provider : String → String → Result Fault Bytes → Event Spec Json
  launched_testnet :
      LaunchTestnetRequest Json → Result Fault LaunchTestnetResponse → Event Spec Json
  launched_load_balancer :
      LaunchLoadBalancerRequest → Result Fault LaunchLoadBalancerResponse → Event Spec Json
  started_load_test : RunLoadTestRequest Spec → Event Spec Json
  started_timer : ℕ → Event Spec Json
  selected : Event Spec Json
  awaited_load_test : Result Fault (Unit {0}) → Event Spec Json
  tore_down : String → Bytes → Result Fault (Unit {0}) → Event Spec Json

abbrev pub History : Type 0 → Type 0 → Type 0
History Spec Json = List (Event Spec Json)

-- Temporal, the activities and the Go library calls that stand outside the workflow. An answer may
-- depend on all that was done before.
pub record Env (Spec Json : Type 0) : Type 0 where
  pub image_built :
      History Spec Json → BuildDockerImageRequest → Result Fault BuildDockerImageResponse
  pub provider_created : History Spec Json → String → String → Result Fault Bytes
  pub testnet_launched :
      History Spec Json → LaunchTestnetRequest Json → Result Fault LaunchTestnetResponse
  pub load_balancer_launched :
      History Spec Json → LaunchLoadBalancerRequest → Result Fault LaunchLoadBalancerResponse
  pub load_test_result : History Spec Json → Result Fault (Unit {0})
  pub torn_down : History Spec Json → String → Bytes → Result Fault (Unit {0})
  pub ctx_err : History Spec Json → Option Fault
  pub random_string : History Spec Json → String
  pub workflow_id : String
  pub parse_duration : String → Option Duration
  pub gzip : Bytes → Option Bytes
