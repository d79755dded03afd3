-- ===== src/Activity.antt =====
-- activities/testnet/testnet.go: the configuration of the chain that a launch request asks for. An int or
-- an uint64 is its bit pattern of 64 bits. `hd_path` is the SDK's text of a derivation path of a coin.
mod Configured
mod Tests
use ironbird.Base.{
  ℕ, ◌+◌, ◌-◌, ◌%◌, ltb, ◌^◌, String, Bool, true, false, Option, none, some, List, [], ◌∷◌, ◌++◌,
  str_eq, if◌then◌else◌,
}
use ironbird.Base.Int.{ℤ, pos, negsuc, ◌*ℤ◌}
use ironbird.Workflow.Types.{LaunchTestnetRequest}
use ironbird.Definition.{TaskDefinition}
use ironbird.Chain.Types.{
  Setting, Section, table, text, empty, entry, WalletConfig, ChainConfig, NodeConfig, find_setting,
}

-- types.ChainImageConfig, without the fields that only the image's builder reads.
pub record ChainImage : Type 0 where
  pub uid : String
  pub gid : String
  pub binary_name : String
  pub entrypoint : List String
  pub home_dir : String
  pub gas_prices : String

-- The value of a missing key.
abbrev pub zero_image : ChainImage
zero_image = record {
  uid = "";
  gid = "";
  binary_name = "";
  entrypoint = [];
  home_dir = "";
  gas_prices = "";
}

unfoldable pub image_of : String → List (String × ChainImage) → ChainImage
image_of key [] = zero_image
image_of key ((k, i) ∷ more) = let rest = image_of key more in if str_eq k key then i else rest

-- m[key] = v
unfoldable pub set_setting : String → Setting → Section → Section
set_setting key v empty = entry key v empty
set_setting key v (entry k w rest) =
    let changed = set_setting key v rest in
    if str_eq k key then entry k v rest else entry k w changed

abbrev pub or_empty : Option Section → Section
or_empty none = empty
or_empty (some s) = s

-- The section gets the chain's id; another value under its name stays as it is.
unfoldable pub with_evm_chain_id : String → Option Setting → Section → Section
unfolding set_setting
with_evm_chain_id id none app = set_setting "evm" (table (entry "evm-chain-id" (text id) empty)) app
with_evm_chain_id id (some (table evm)) app =
    set_setting "evm" (table (set_setting "evm-chain-id" (text id) evm)) app
with_evm_chain_id id (some other) app = app

abbrev pub default_evm_chain_id : String
default_evm_chain_id = "262144"

-- CosmosWalletConfig and EvmCosmosWalletConfig
abbrev pub wallet_config : (ℕ → String) → String → ℕ → WalletConfig
wallet_config hd_path algorithm coin = record {
  has_derivation_fn = true;
  has_generation_fn = true;
  bech32_prefix = "cosmos";
  hd_path = some (hd_path coin);
  signing_algorithm = algorithm;
}

unfoldable pub cosmos_config : LaunchTestnetRequest Section → ChainImage → ChainConfig
cosmos_config req image = record {
  name = req.name;
  denom = "stake";
  decimals = 6;
  num_validators = req.num_of_validators;
  num_nodes = req.num_of_nodes;
  binary_name = image.binary_name;
  entrypoint = image.entrypoint;
  image = record { image = req.image; uid = image.uid; gid = image.gid };
  gas_prices = image.gas_prices;
  bech32_prefix = "cosmos";
  home_dir = image.home_dir;
  coin_type = "118";
  chain_id = req.name;
  use_genesis_sub_command = true;
  custom_app_config = req.custom_app_config;
  custom_consensus_config = req.custom_consensus_config;
  custom_client_config = req.custom_client_config;
  additional_start_flags = req.additional_start_flags;
  additional_ports = [];
  genesis_delegation = none;
  genesis_balance = none;
  is_evm_chain = false;
  set_persistent_peers = req.set_persistent_peers;
  set_seed_node = req.set_seed_node;
  region_config = req.region_configs;
}

-- int64(x) of an uint64, as an integer.
unfoldable pub int64_of : ℕ → ℤ
int64_of x = if ltb x (2 ^ 63) then pos x else negsuc (2 ^ 64 - 1 - x)

-- `deleg.Mul(deleg, ...)` writes its result to `deleg`, so the delegation is the product too.
unfoldable pub evm_config : LaunchTestnetRequest Section → ChainConfig → ChainConfig
unfolding with_evm_chain_id int64_of
evm_config req c =
    let deleg = pos (10 ^ 25) *ℤ int64_of ((req.num_of_validators + 2) % 2 ^ 64) in
    let app = or_empty c.custom_app_config in
    record c {
      denom = "atest";
      is_evm_chain = true;
      chain_id = default_evm_chain_id;
      coin_type = "60";
      additional_start_flags =
          c.additional_start_flags
          ++ ("--json-rpc.api" ∷ "eth,net,web3,txpool,debug" ∷ "--json-rpc.address" ∷ "0.0.0.0:8545"
              ∷ "--json-rpc.ws-address" ∷ "0.0.0.0:8546" ∷ "--json-rpc.enable" ∷ []);
      additional_ports = "8545" ∷ "8546" ∷ "8100" ∷ [];
      custom_app_config =
          some (with_evm_chain_id default_evm_chain_id (find_setting "evm" app) app);
      genesis_delegation = some deleg;
      genesis_balance = some deleg;
    }

unfoldable pub construct_chain_config :
    (ℕ → String)
    → LaunchTestnetRequest Section
    → List (String × ChainImage)
    → ChainConfig × WalletConfig
unfolding image_of cosmos_config evm_config
construct_chain_config hd_path req chains =
    let config = cosmos_config req (image_of req.base_image chains) in
    if req.is_evm_chain
    then (evm_config req config, wallet_config hd_path "eth_secp256k1" 60)
    else (config, wallet_config hd_path "secp256k1" 118)
