-- ===== src/Service/Requests.antt =====
-- server/services/workflow/workflow.go: the requests of the service and of the workflow, converted into
-- each other for templates. An int, an int32 or an uint64 is its bit pattern. JSON and YAML are the
-- parameter `Coding`.
use ironbird.Base.{
  ℕ, ◌+◌, ◌-◌, ◌%◌, ◌^◌, String, Bool, false, Option, none, some, List, [], ◌∷◌, ltb, str_eq,
  if◌then◌else◌,
}
use ironbird.Messages.{
  GenesisValue, text, value, GenesisKv, RegionConfig, ChainsConfig, TestnetWorkflowRequest,
}

pub record PbGenesisKv : Type 0 where
  pub key : String
  pub content : String

pub record PbRegionConfig : Type 0 where
  pub name : String
  pub num_of_nodes : ℕ
  pub num_of_validators : ℕ

pub record PbChainConfig : Type 0 where
  pub name : String
  pub num_of_nodes : ℕ
  pub num_of_validators : ℕ
  pub genesis_modifications : List PbGenesisKv
  pub image : String
  pub custom_app_config : String
  pub custom_consensus_config : String
  pub custom_client_config : String
  pub set_seed_node : Bool
  pub set_persistent_peers : Bool
  pub region_configs : List PbRegionConfig
  pub version : String

pub record CreateWorkflowRequest : Type 0 where
  pub repo : String
  pub sha : String
  pub is_evm_chain : Bool
  pub chain_config : Option PbChainConfig
  pub runner_type : String
  pub encoded_load_test_spec : String
  pub long_running_testnet : Bool
  pub testnet_duration : String
  pub num_wallets : ℕ
  pub launch_load_balancer : Bool
  pub catalyst_version : String
  pub base_mnemonic : String
  pub cosmos_sdk_sha : String
  pub cometbft_sha : String
  pub provider_config : List (String × String)

-- json and yaml: JSON objects (null is none), any JSON value as Go holds it, and load tests.
pub record Coding (Spec Json : Type 0) : Type 0 where
  pub object_of : String → Option Json
  pub object_text : Json → Option String
  pub value_of : String → Option (GenesisValue Json)
  pub value_text : Json → Option String
  pub is_nil : Json → Bool
  pub spec_of : String → Option Spec
  pub spec_text : Spec → Option String
  pub kind : Spec → String

-- int(x) of an int32 and int32(x) of an int.
unfoldable pub int_of_int32 : ℕ → ℕ
int_of_int32 x = if ltb x (2 ^ 31) then x else x + (2 ^ 64 - 2 ^ 32)

unfoldable pub int32_of_int : ℕ → ℕ
int32_of_int x = x % 2 ^ 32

abbrev pub region_of_proto : PbRegionConfig → RegionConfig
region_of_proto r = record {
  name = r.name;
  num_validators = r.num_of_validators;
  num_nodes = r.num_of_nodes;
}

abbrev pub region_to_proto : RegionConfig → PbRegionConfig
region_to_proto r = record {
  name = r.name;
  num_of_nodes = r.num_nodes;
  num_of_validators = r.num_validators;
}

unfoldable pub regions_of_proto : List PbRegionConfig → List RegionConfig
regions_of_proto [] = []
regions_of_proto (r ∷ rs) = region_of_proto r ∷ regions_of_proto rs

unfoldable pub regions_to_proto : List RegionConfig → List PbRegionConfig
regions_to_proto [] = []
regions_to_proto (r ∷ rs) = region_to_proto r ∷ regions_to_proto rs

abbrev pub or_empty : Option String → String
or_empty none = ""
or_empty (some s) = s

-- The Go zero value of ChainsConfig.
abbrev pub no_chain : {Json : Type 0} → ChainsConfig Json
no_chain = record {
  name = "";
  image = "";
  version = "";
  genesis_modifications = [];
  num_of_nodes = 0;
  num_of_validators = 0;
  region_configs = [];
  custom_app_config = none;
  custom_consensus_config = none;
  custom_client_config = none;
  set_seed_node = false;
  set_persistent_peers = false;
}

module _ {Spec Json : Type 0} (c : Coding Spec Json) where
  unfoldable pub parse_json_config : String → Option Json
  parse_json_config s = if str_eq s "" then none else c.object_of s

  unfoldable pub marshal_json_config : Option Json → String
  marshal_json_config none = ""
  marshal_json_config (some j) = or_empty (c.object_text j)

  -- A template keeps the text of every value.
  unfoldable pub genesis_of_proto : List PbGenesisKv → List (GenesisKv Json)
  genesis_of_proto [] = []
  genesis_of_proto (g ∷ gs) = record { key = g.key; content = text g.content } ∷ genesis_of_proto gs

  unfoldable pub genesis_text : GenesisValue Json → String
  genesis_text (text s) = s
  genesis_text (value j) = if c.is_nil j then "" else or_empty (c.value_text j)

  unfoldable pub genesis_to_proto : List (GenesisKv Json) → List PbGenesisKv
  unfolding genesis_text
  genesis_to_proto [] = []
  genesis_to_proto (g ∷ gs) =
      record { key = g.key; content = genesis_text g.content } ∷ genesis_to_proto gs

  unfoldable pub chain_of_proto : Option PbChainConfig → ChainsConfig Json
  unfolding parse_json_config regions_of_proto genesis_of_proto
  chain_of_proto none = no_chain
  chain_of_proto (some p) = record {
    name = p.name;
    image = p.image;
    version = "";
    genesis_modifications = genesis_of_proto p.genesis_modifications;
    num_of_nodes = p.num_of_nodes;
    num_of_validators = p.num_of_validators;
    region_configs = regions_of_proto p.region_configs;
    custom_app_config = parse_json_config p.custom_app_config;
    custom_consensus_config = parse_json_config p.custom_consensus_config;
    custom_client_config = parse_json_config p.custom_client_config;
    set_seed_node = p.set_seed_node;
    set_persistent_peers = p.set_persistent_peers;
  }

  -- The load tests of both kinds, Ethereum's first.
  abbrev pub by_kind : Spec → Option Spec × Option Spec
  by_kind spec =
      if str_eq (c.kind spec) "eth"
      then (some spec, none)
      else if str_eq (c.kind spec) "cosmos"
      then (none, some spec)
      else (none, none)

  abbrev pub specs_of : Option Spec → Option Spec × Option Spec
  specs_of none = (none, none)
  specs_of (some spec) = by_kind spec

  unfoldable pub load_tests_of_proto : String → Option Spec × Option Spec
  load_tests_of_proto s = if str_eq s "" then (none, none) else specs_of (c.spec_of s)

  unfoldable pub load_tests_to_proto : Option Spec → Option Spec → String
  load_tests_to_proto (some eth) cosmos = or_empty (c.spec_text eth)
  load_tests_to_proto none (some cosmos) = or_empty (c.spec_text cosmos)
  load_tests_to_proto none none = ""

  unfoldable pub convert_proto_to_workflow_request :
      CreateWorkflowRequest → TestnetWorkflowRequest Spec Json
  unfolding chain_of_proto load_tests_of_proto int_of_int32
  convert_proto_to_workflow_request req = record {
    repo = req.repo;
    sha = req.sha;
    is_evm_chain = req.is_evm_chain;
    chain_config = chain_of_proto req.chain_config;
    runner_type = req.runner_type;
    cosmos_sdk_sha = req.cosmos_sdk_sha;
    comet_bft_sha = req.cometbft_sha;
    ethereum_load_test_spec = (load_tests_of_proto req.encoded_load_test_spec).0;
    cosmos_load_test_spec = (load_tests_of_proto req.encoded_load_test_spec).1;
    long_running_testnet = req.long_running_testnet;
    launch_load_balancer = req.launch_load_balancer;
    testnet_duration = req.testnet_duration;
    num_wallets = int_of_int32 req.num_wallets;
    base_mnemonic = "";
    catalyst_version = "";
    provider_specific_config = req.provider_config;
  }

  unfoldable pub chain_to_proto : ChainsConfig Json → PbChainConfig
  unfolding marshal_json_config regions_to_proto genesis_to_proto
  chain_to_proto k = record {
    name = k.name;
    num_of_nodes = k.num_of_nodes;
    num_of_validators = k.num_of_validators;
    genesis_modifications = genesis_to_proto k.genesis_modifications;
    image = k.image;
    custom_app_config = marshal_json_config k.custom_app_config;
    custom_consensus_config = marshal_json_config k.custom_consensus_config;
    custom_client_config = marshal_json_config k.custom_client_config;
    set_seed_node = k.set_seed_node;
    set_persistent_peers = k.set_persistent_peers;
    region_configs = regions_to_proto k.region_configs;
    version = "";
  }

  unfoldable pub convert_workflow_request_to_proto :
      TestnetWorkflowRequest Spec Json → CreateWorkflowRequest
  unfolding chain_to_proto load_tests_to_proto int32_of_int
  convert_workflow_request_to_proto req = record {
    repo = req.repo;
    sha = req.sha;
    is_evm_chain = req.is_evm_chain;
    chain_config = some (chain_to_proto req.chain_config);
    runner_type = req.runner_type;
    encoded_load_test_spec =
        load_tests_to_proto req.ethereum_load_test_spec req.cosmos_load_test_spec;
    long_running_testnet = req.long_running_testnet;
    testnet_duration = req.testnet_duration;
    num_wallets = int32_of_int req.num_wallets;
    launch_load_balancer = req.launch_load_balancer;
    catalyst_version = "";
    base_mnemonic = "";
    cosmos_sdk_sha = req.cosmos_sdk_sha;
    cometbft_sha = req.comet_bft_sha;
    provider_config = req.provider_specific_config;
  }
