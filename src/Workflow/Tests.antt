-- ===== src/Workflow/Tests.antt =====
-- Runs of the testnet workflow in a small environment, and the theorems at them.
use ironbird.Base.{ℕ, ◌≡◌, refl, String, true, false, Option, none, some, List, [], ◌∷◌, All, ◌⊎◌}
use ironbird.Base.Action.{ok, err}
use ironbird.Messages.{TestnetWorkflowRequest, docker, validate}
use ironbird.Messages.Valid.{IsValid, validate_iff}
use ironbird.Workflow.Types.{BuildDockerImageResponse, Env, canceled, failed, forward, tore_down}
use ironbird.Workflow.{
  start_workflow, run_testnet, workflow, build_request, load_test_of, compress_or_keep,
}
use ironbird.Workflow.Teardown.{Cleaned, teardowns, start_workflow-Cleaned}
use ironbird.Workflow.Outcome.{Allowed, workflow-Allowed, workflow_canceled}
use ironbird.Workflow.Waiting.{awaited, start_workflow_waits}

abbrev request : TestnetWorkflowRequest String ℕ
request = record {
  repo = "gaia";
  sha = "abc";
  is_evm_chain = false;
  chain_config = record {
    name = "gaia";
    image = "gaia";
    version = "";
    genesis_modifications = [];
    num_of_nodes = 1;
    num_of_validators = 2;
    region_configs = [];
    custom_app_config = none;
    custom_consensus_config = none;
    custom_client_config = none;
    set_seed_node = true;
    set_persistent_peers = false;
  };
  runner_type = docker;
  cosmos_sdk_sha = "";
  comet_bft_sha = "";
  ethereum_load_test_spec = none;
  cosmos_load_test_spec = some "spec";
  long_running_testnet = false;
  launch_load_balancer = false;
  testnet_duration = "5m";
  num_wallets = 10;
  base_mnemonic = "";
  catalyst_version = "";
  provider_specific_config = [];
}

-- Every activity succeeds.
abbrev sunny : Env String ℕ
sunny = record {
  image_built = λ h r. ok (record { fqdn_tag = "tag"; logs = [] });
  provider_created = λ h runner name. ok (1 ∷ []);
  testnet_launched = λ h r. ok (record {
    provider_state = 2 ∷ [];
    chain_state = 3 ∷ [];
    chain_id = "gaia";
    nodes = [];
    validators = [];
  });
  load_balancer_launched = λ h r. err (failed "none");
  load_test_result = λ h. ok tt;
  torn_down = λ h runner state. ok tt;
  ctx_err = λ h. none;
  random_string = λ h. "xyz";
  workflow_id = "w";
  parse_duration = λ s. some (forward 300_000_000_000);
  gzip = λ b. some (7 ∷ []);
}

-- The launch fails: what was sent to it is compressed and torn down.
abbrev failing : Env String ℕ
failing = record sunny { testnet_launched = λ h r. err (failed "boom") }

-- The build is cancelled.
abbrev stopped : Env String ℕ
stopped = record sunny { image_built = λ h r. err canceled }

abbrev image : BuildDockerImageResponse
image = record { fqdn_tag = "tag"; logs = [] }

abbrev newest {ℓ} : {A : Type ℓ} → List A → Option A
newest [] = none
newest (x ∷ xs) = some x

sunny_run :
    newest (start_workflow sunny request "ib" image []).1 ≡ some (tore_down docker (2 ∷ []) (ok tt))
unfolding start_workflow
sunny_run = refl

failing_run :
    newest (start_workflow failing request "ib" image []).1
    ≡ some (tore_down docker (7 ∷ []) (ok tt))
unfolding start_workflow compress_or_keep
failing_run = refl

workflow_run : (workflow sunny request []).0 ≡ ok ""
unfolding workflow validate
workflow_run = refl

validate_iff_example : IsValid request
unfolding validate
validate_iff_example = (validate_iff request).0 refl

start_workflow-Cleaned_example :
    Cleaned failing request 0 (start_workflow failing request "ib" image []).1
unfolding teardowns
start_workflow-Cleaned_example = start_workflow-Cleaned failing request "ib" image []

workflow-Allowed_example :
    All (Allowed sunny request) (workflow sunny request []).1
    × (IsValid request ⊎ ((workflow sunny request []).1 ≡ []))
workflow-Allowed_example = workflow-Allowed sunny request [] tt

workflow_canceled_example : stopped.image_built [] (build_request stopped request) ≡ err canceled
unfolding workflow validate
workflow_canceled_example = workflow_canceled stopped request [] refl

start_workflow_waits_example :
    (awaited (start_workflow sunny request "ib" image []).1 ≡ true)
    ⊎ (sunny.ctx_err (run_testnet sunny request "ib" image []).2 ≡ some canceled)
unfolding load_test_of start_workflow
start_workflow_waits_example = start_workflow_waits sunny request "spec" refl "ib" image refl
