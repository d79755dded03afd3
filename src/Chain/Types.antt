-- ===== src/Chain/Types.antt =====
-- petri/core/types/chain.go, node.go, wallet.go: the configuration of a chain, and what its code asks
-- of the nodes. A node is a number that the creator gives it. An int is its bit pattern of 64 bits.
-- Custom configurations are trees; a Go map in them is a list of entries.
use ironbird.Base.Int.{ℤ}
use ironbird.Base.{ℕ, ◌^◌, String, Bool, Option, none, some, List, ◌∷◌, leb, str_eq, if◌then◌else◌}
use ironbird.Base.Action.{Result, Action}
use ironbird.Definition.{ImageDefinition, TaskDefinition, DefinitionError}
use ironbird.Messages.{RegionConfig}
use ironbird.Genesis.{Coin}

-- A value of a configuration: a section, or one of the values that the code looks at or writes.
mutual
  pub data Setting : Type 0 where
    table : Section → Setting
    flag : Bool → Setting
    text : String → Setting
    number : ℕ → Setting
    texts : List String → Setting

  pub data Section : Type 0 where
    empty : Section
    entry : String → Setting → Section → Section

pub record WalletConfig : Type 0 where
  pub has_derivation_fn : Bool
  pub has_generation_fn : Bool
  pub bech32_prefix : String
  pub hd_path : Option String
  pub signing_algorithm : String

pub record ChainConfig : Type 0 where
  pub name : String
  pub denom : String
  pub decimals : ℕ
  pub num_validators : ℕ
  pub num_nodes : ℕ
  pub region_config : List RegionConfig
  pub binary_name : String
  pub entrypoint : List String
  pub image : ImageDefinition
  pub gas_prices : String
  pub bech32_prefix : String
  pub home_dir : String
  pub coin_type : String
  pub chain_id : String
  pub use_genesis_sub_command : Bool
  pub additional_start_flags : List String
  pub additional_ports : List String
  pub genesis_delegation : Option ℤ
  pub genesis_balance : Option ℤ
  pub is_evm_chain : Bool
  pub custom_app_config : Option Section
  pub custom_client_config : Option Section
  pub custom_consensus_config : Option Section
  pub set_persistent_peers : Bool
  pub set_seed_node : Bool

pub record NodeConfig : Type 0 where
  pub name : String
  pub index : ℕ
  pub chain_config : ChainConfig

abbrev pub Modifier : Type 0
Modifier = TaskDefinition → NodeConfig → TaskDefinition

pub data Error : Type 0 where
  failed : String → Error
  bad_image : DefinitionError → Error
  region_empty region_not_supported negative_validators negative_nodes : Error
  name_empty denom_empty no_decimals no_regions no_validators bad_provider_type : Error
  binary_name_empty gas_prices_empty bech32_prefix_empty coin_type_empty chain_id_empty : Error
  no_derivation_fn no_generation_fn no_hd_path no_signing_algorithm no_node_creator : Error
  no_seed_node script_failed no_base_mnemonic ctx_done out_of_fuel index_out_of_range : Error

pub record Wallet : Type 0 where
  pub address : String
  pub mnemonic : String

pub record Output : Type 0 where
  pub stdout : String
  pub stderr : String
  pub exit_code : ℕ

-- An entry of the lib-p2p bootstrap peers; all are persistent.
pub record BootstrapPeer : Type 0 where
  pub host : String
  pub id : String

-- What the chain's code asks of nodes: the methods of NodeI, and the creator of nodes. `peer_id` is the
-- node's public key turned into a lib-p2p identifier, and `run_command` runs a shell script.
pub data Request : Type 0 where
  create_node : NodeConfig → Option Modifier → Request
  setup_validator : ℕ → WalletConfig → List Coin → Coin → Request
  setup_node genesis_file ip private_ip node_id peer_id set_seed_mode start destroy : ℕ → Request
  create_wallet : ℕ → String → WalletConfig → Request
  overwrite_genesis : ℕ → String → Request
  copy_gentx : ℕ → ℕ → Request
  run_command : ℕ → List String → Request
  external_address : ℕ → String → Request
  set_chain_configs : ℕ → String → String → Request
  set_persistent_peers set_seed_node : ℕ → String → Request
  set_bootstrap_peers : ℕ → List BootstrapPeer → Request
  block_height : ℕ → Request

abbrev pub Answer : Request → Type 0
Answer (create_node config modifier) = ℕ
Answer (setup_validator n wallet amounts delegation) = Wallet
Answer (create_wallet n key wallet) = Wallet
Answer (run_command n command) = Output
Answer (genesis_file n) = String
Answer (ip n) = String
Answer (private_ip n) = String
Answer (node_id n) = String
Answer (peer_id n) = String
Answer (external_address n port) = String
Answer (block_height n) = ℕ
Answer _ = Unit

-- The requests with their answers, newest first.
abbrev pub Log : Type 0
Log = List ((q : Request) × Result Error (Answer q))

-- What answers the requests, the random choice below a bound, and the deadline.
pub record Nodes : Type 0 where
  pub answer : Log → (q : Request) → Result Error (Answer q)
  pub random : Log → ℕ → ℕ
  pub ctx_done : Log → Bool

abbrev pub Chain : Type 0 → Type 0
Chain A = Action Log Error A

unfoldable pub ask : Nodes → (q : Request) → Chain (Answer q)
ask nodes q log = (nodes.answer log q, (q, nodes.answer log q) ∷ log)

abbrev pub is_negative : ℕ → Bool
is_negative n = leb (2 ^ 63) n

-- How often a loop from 0 below `n` runs.
abbrev pub rounds : ℕ → ℕ
rounds n = if is_negative n then 0 else n

unfoldable pub find_setting : String → Section → Option Setting
find_setting key empty = none
find_setting key (entry k v rest) = if str_eq k key then some v else find_setting key rest
