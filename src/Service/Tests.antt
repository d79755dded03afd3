-- ===== src/Service/Tests.antt =====
-- A poll of a table with a running and a completed workflow, a creation and a template: runs, and the
-- theorems at concrete inputs.
use ironbird.Base.{
  ℕ, ◌≡◌, refl, String, Option, some, [], ◌∷◌, arith, eq_iff, map, none, true, false, inl, inr,
}
use ironbird.Base.Action.{modify, ◌>>=◌}
use ironbird.Store.{Row, Db, Codec, Status, running, completed, failed}
use ironbird.Store.Access.{list_workflows, update_workflow}
use ironbird.Service.{Links, update_workflow_statuses}
use ironbird.Base.Action.{Result, ok}
use ironbird.Messages.{TestnetWorkflowRequest}
use ironbird.Service.Requests.{
  PbChainConfig, CreateWorkflowRequest, Coding, convert_proto_to_workflow_request,
  convert_workflow_request_to_proto,
}
use ironbird.Service.Templates.{template_round_trip}
use ironbird.Service.Create.{Server, is_numeric_string, handle_create_workflow}
use ironbird.Service.Answers.{Answered, handle_create_workflow-Answered}
use ironbird.Service.Polling.{AllPolled, update_workflow_statuses-Polled}

abbrev codec : Codec String String Links
codec = record {
  nodes_text = λ ns. some "[]";
  nodes_of = λ t. some [];
  wallets_text = λ w. some w;
  wallets_proto_text = λ w. some w;
  wallets_of = λ w. some w;
  config_text = λ c. some c;
  config_of = λ c. some c;
  links_text = λ l. some "{}";
  links_of = λ t. some [];
}

abbrev row : ℕ → String → Status → Row
row n id s = record {
  id = n;
  workflow_id = id;
  nodes = "[]";
  validators = "[]";
  load_balancers = "[]";
  wallets = "{}";
  monitoring_links = "{}";
  status = s;
  config = "{}";
  load_test_spec = "{}";
  provider = "";
  template_id = "";
  run_name = "";
  created_at = n;
  updated_at = n;
}

abbrev table : Db
table = record { rows = row 1 "a" running ∷ row 2 "b" completed ∷ []; next_id = 3 }

-- Temporal says that all workflows have failed.
abbrev describe : Db → String → Option Status
describe db id = some failed

polled :
    map (λ r. r.status) (update_workflow_statuses codec 9 describe table).rows
    ≡ (failed ∷ completed ∷ [])
unfolding update_workflow_statuses list_workflows update_workflow modify ◌>>=◌
polled = refl

update_workflow_statuses-Polled_example :
    AllPolled describe table.rows (update_workflow_statuses codec 9 describe table).rows
update_workflow_statuses-Polled_example =
    update_workflow_statuses-Polled describe codec 9 table (record {
      distinct = ((λ e. ground (arith, eq_iff "a" "b"), tt), (tt, tt));
      numbered = (omega arith, (omega arith, tt));
    })

abbrev coding : Coding String String
coding = record {
  object_of = λ s. some s;
  object_text = λ j. some j;
  value_of = λ s. none;
  value_text = λ j. some j;
  is_nil = λ j. false;
  spec_of = λ s. some s;
  spec_text = λ s. some s;
  kind = λ s. s;
}

abbrev chain : PbChainConfig
chain = record {
  name = "gaia";
  num_of_nodes = 1;
  num_of_validators = 2;
  genesis_modifications = record { key = "k"; content = "\"-12.5\"" } ∷ [];
  image = "gaia";
  custom_app_config = "";
  custom_consensus_config = "{}";
  custom_client_config = "";
  set_seed_node = true;
  set_persistent_peers = false;
  region_configs = record { name = "nyc1"; num_of_nodes = 1; num_of_validators = 2 } ∷ [];
  version = "v1";
}

abbrev creation : CreateWorkflowRequest
creation = record {
  repo = "gaia";
  sha = "abc";
  is_evm_chain = false;
  chain_config = some chain;
  runner_type = "Docker";
  encoded_load_test_spec = "cosmos";
  long_running_testnet = false;
  testnet_duration = "5m";
  num_wallets = 10;
  launch_load_balancer = false;
  catalyst_version = "v2";
  base_mnemonic = "";
  cosmos_sdk_sha = "";
  cometbft_sha = "";
  provider_config = [];
}

numeric :
    (is_numeric_string "\"-12.5\"" ≡ true)
    × (is_numeric_string "" ≡ true)
    × (is_numeric_string "1.2.3" ≡ true)
    × (is_numeric_string "12a" ≡ false)
unfolding is_numeric_string
numeric = (refl, refl, refl, refl)

template_round_trip_example :
    convert_workflow_request_to_proto coding (convert_proto_to_workflow_request coding creation)
    ≡ record creation {
      chain_config = some (record chain { version = "" });
      base_mnemonic = "";
      catalyst_version = "";
    }
template_round_trip_example = template_round_trip coding creation (record {
  chain = (inl refl, inr ("{}", refl, refl), inl refl);
  spec = inr ("cosmos", refl, refl, inr refl);
  int32 = omega arith;
})

abbrev request_codec : Codec String (TestnetWorkflowRequest String String) Links
request_codec = record {
  nodes_text = λ ns. some "[]";
  nodes_of = λ t. some [];
  wallets_text = λ w. some w;
  wallets_proto_text = λ w. some w;
  wallets_of = λ w. some w;
  config_text = λ c. some "c";
  config_of = λ t. none;
  links_text = λ l. some "{}";
  links_of = λ t. some [];
}

abbrev accepts : Server String String → TestnetWorkflowRequest String String → Result String String
accepts s r = ok "w1"

abbrev new_server : Server String String
new_server = record { db = table; started = [] }

handle_create_workflow-Answered_example :
    Answered coding request_codec
      (λ s. true)
      accepts
      new_server
      (handle_create_workflow coding request_codec (λ s. true) accepts 5 creation new_server).0
      (handle_create_workflow coding request_codec (λ s. true) accepts 5 creation new_server).1
handle_create_workflow-Answered_example =
    handle_create_workflow-Answered coding request_codec (λ s. true) accepts 5 creation new_server
