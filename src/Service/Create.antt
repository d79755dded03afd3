-- ===== src/Service/Create.antt =====
-- server/services/workflow/workflow.go: CreateWorkflow. time.ParseDuration and the start of a workflow
-- by Temporal are parameters; `started` holds the requests that Temporal accepted, newest first.
use Prim.Native.Char.{Char, code}
use ironbird.Base.{
  ℕ, String, Bool, true, not, ◌&&◌, ◌||◌, Option, none, some, List, [], ◌∷◌, leb, ◌==◌, str_eq,
  if◌then◌else◌,
}
use ironbird.Base.Action.{Result, ok, err}
use ironbird.Messages.{
  GenesisValue, text, GenesisKv, ChainsConfig, TestnetWorkflowRequest, Invalid, validate,
}
use ironbird.Store.{Db, Codec, Workflow, running}
use ironbird.Store.Access.{create_workflow}
use ironbird.Service.{Links}
use ironbird.Service.Requests.{
  PbGenesisKv, PbChainConfig, CreateWorkflowRequest, Coding, no_chain, parse_json_config,
  regions_of_proto, specs_of, int_of_int32,
}

-- The text without a quote at its end, if there is one.
unfoldable pub without_end_quote : String → Option String
without_end_quote String.[] = none
without_end_quote (String.◌∷◌ c rest) =
    let shorter = without_end_quote rest in
    if str_eq rest ""
    then (if code c == 34 then some "" else none)
    else elim shorter [ none ↦ none | some s ↦ some (String.◌∷◌ c s) ]

abbrev pub or_else : Option String → String → String
or_else none s = s
or_else (some t) s = t

-- Quotes around the text are taken off, if both are there.
unfoldable pub unquote : String → String
unfolding without_end_quote
unquote String.[] = ""
unquote (String.◌∷◌ c rest) =
    if code c == 34 then or_else (without_end_quote rest) (String.◌∷◌ c rest) else String.◌∷◌ c rest

abbrev pub is_digit_or_dot : Char → Bool
is_digit_or_dot c = leb 48 (code c) && leb (code c) 57 || code c == 46

unfoldable pub all_numeric : String → Bool
all_numeric String.[] = true
all_numeric (String.◌∷◌ c rest) = is_digit_or_dot c && all_numeric rest

-- A minus may stand first.
unfoldable pub numeric_text : String → Bool
unfolding all_numeric
numeric_text String.[] = true
numeric_text (String.◌∷◌ c rest) = (is_digit_or_dot c || code c == 45) && all_numeric rest

unfoldable pub is_numeric_string : String → Bool
unfolding unquote numeric_text
is_numeric_string s = numeric_text (unquote s)

pub data Refusal : Type 0 where
  bad_duration no_peers bad_spec : Refusal
  invalid : Invalid → Refusal
  not_started : String → Refusal

abbrev pub default_base_mnemonic : String
default_base_mnemonic =
    "copper push brief egg scan entry inform record adjust fossil boss egg comic alien upon aspect dry avoid interest fury window hint race symptom"

abbrev pub mnemonic_of : String → String
mnemonic_of s = if str_eq s "" then default_base_mnemonic else s

pub record Server (Spec Json : Type 0) : Type 0 where
  pub db : Db
  pub started : List (TestnetWorkflowRequest Spec Json)

module _ {Spec Json Wallets : Type 0} (c : Coding Spec Json)
    (codec : Codec Wallets (TestnetWorkflowRequest Spec Json) Links) (is_duration : String → Bool)
    (execute : Server Spec Json → TestnetWorkflowRequest Spec Json → Result String String) where
  -- Numeric texts stay texts; others are JSON where they can be read as such.
  unfoldable pub genesis_content : String → GenesisValue Json
  unfolding is_numeric_string
  genesis_content s =
      if is_numeric_string s then text s else elim (c.value_of s) [ none ↦ text s | some v ↦ v ]

  unfoldable pub genesis_modifications : List PbGenesisKv → List (GenesisKv Json)
  unfolding genesis_content
  genesis_modifications [] = []
  genesis_modifications (g ∷ gs) =
      record { key = g.key; content = genesis_content g.content } ∷ genesis_modifications gs

  unfoldable pub chain_of_request : Option PbChainConfig → Result Refusal (ChainsConfig Json)
  unfolding genesis_modifications parse_json_config regions_of_proto
  chain_of_request none = ok no_chain
  chain_of_request (some p) =
      if not p.set_seed_node && not p.set_persistent_peers
      then err no_peers
      else ok (record {
        name = p.name;
        image = p.image;
        version = p.version;
        genesis_modifications = genesis_modifications p.genesis_modifications;
        num_of_nodes = p.num_of_nodes;
        num_of_validators = p.num_of_validators;
        region_configs = regions_of_proto p.region_configs;
        custom_app_config = parse_json_config c p.custom_app_config;
        custom_consensus_config = parse_json_config c p.custom_consensus_config;
        custom_client_config = parse_json_config c p.custom_client_config;
        set_seed_node = p.set_seed_node;
        set_persistent_peers = p.set_persistent_peers;
      })

  abbrev pub read_specs : Option Spec → Result Refusal (Option Spec × Option Spec)
  read_specs none = err bad_spec
  read_specs (some spec) = ok (specs_of c (some spec))

  unfoldable pub load_tests_of_request : String → Result Refusal (Option Spec × Option Spec)
  load_tests_of_request s = if str_eq s "" then ok (none, none) else read_specs (c.spec_of s)

  unfoldable pub request_of :
      CreateWorkflowRequest
      → ChainsConfig Json
      → Option Spec × Option Spec
      → TestnetWorkflowRequest Spec Json
  unfolding int_of_int32
  request_of req chain (eth, cosmos) = record {
    repo = req.repo;
    sha = req.sha;
    is_evm_chain = req.is_evm_chain;
    chain_config = chain;
    runner_type = req.runner_type;
    cosmos_sdk_sha = req.cosmos_sdk_sha;
    comet_bft_sha = req.cometbft_sha;
    ethereum_load_test_spec = eth;
    cosmos_load_test_spec = cosmos;
    long_running_testnet = req.long_running_testnet;
    launch_load_balancer = req.launch_load_balancer;
    testnet_duration = req.testnet_duration;
    num_wallets = int_of_int32 req.num_wallets;
    base_mnemonic = mnemonic_of req.base_mnemonic;
    catalyst_version = req.catalyst_version;
    provider_specific_config = req.provider_config;
  }

  -- The record of a workflow that was started.
  abbrev pub record_of :
      String
      → TestnetWorkflowRequest Spec Json
      → Workflow Wallets (TestnetWorkflowRequest Spec Json) Links
  record_of id request = record {
    id = 0;
    workflow_id = id;
    nodes = [];
    validators = [];
    load_balancers = [];
    wallets = none;
    monitoring_links = [];
    status = running;
    config = request;
    load_test_spec = none;
    provider = "";
    template_id = "";
    run_name = "";
    created_at = 0;
    updated_at = 0;
  }

  -- What follows Temporal's answer. A record that cannot be stored is only logged.
  unfoldable pub started_outcome :
      ℕ
      → TestnetWorkflowRequest Spec Json
      → Server Spec Json
      → Result String String
      → Result Refusal String × Server Spec Json
  started_outcome now request s (err message) = (err (not_started message), s)
  started_outcome now request s (ok id) = (
    ok id,
    record {
      db = (create_workflow codec now (record_of id request) s.db).1;
      started = request ∷ s.started;
    },
  )

  unfoldable pub validated_outcome :
      ℕ
      → TestnetWorkflowRequest Spec Json
      → Server Spec Json
      → Result Invalid (Unit {0})
      → Result Refusal String × Server Spec Json
  unfolding started_outcome
  validated_outcome now request s (err i) = (err (invalid i), s)
  validated_outcome now request s (ok u) = started_outcome now request s (execute s request)

  unfoldable pub validate_and_start :
      ℕ
      → TestnetWorkflowRequest Spec Json
      → Server Spec Json
      → Result Refusal String × Server Spec Json
  unfolding validated_outcome
  validate_and_start now request s = validated_outcome now request s (validate request)

  unfoldable pub handle_create_workflow :
      ℕ → CreateWorkflowRequest → Server Spec Json → Result Refusal String × Server Spec Json
  unfolding chain_of_request load_tests_of_request request_of validate_and_start
  handle_create_workflow now req s =
      if not (str_eq req.testnet_duration "") && not (is_duration req.testnet_duration)
      then (err bad_duration, s)
      else elim (chain_of_request req.chain_config) [
        | err e ↦ (err e, s)
        | ok chain ↦ elim (load_tests_of_request req.encoded_load_test_spec) [
          | err e ↦ (err e, s)
          | ok specs ↦ validate_and_start now (request_of req chain specs) s
        ]
      ]
