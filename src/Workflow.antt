-- ===== src/Workflow.antt =====
-- workflows/testnet/testnet.go, with CompressData of util/util.go: build the image, create the
-- provider, launch the chain, a load balancer and a load test, wait, and tear the provider down.
-- Logging is left out. Go iterates over a map in an unspecified order; `domain_types` has the order
-- of the text. A function that returns a value beside an error returns both.
pub mod Types
pub mod Teardown
pub mod Outcome
pub mod Waiting
mod Tests
use Prim.Native.String.{◌++◌ as append}
use ironbird.Base.{
  ℕ, ◌*◌, String, Bool, true, false, not, ◌&&◌, Option, none, some, List, [], ◌∷◌, ◌++◌, map, max,
  str_eq, if◌then◌else◌,
}
use ironbird.Base.Action.{Result, ok, err}
use ironbird.Messages.{TestnetWorkflowRequest, validate, digital_ocean}
use Types.{
  Bytes, Node, BuildDockerImageRequest, BuildDockerImageResponse, LaunchTestnetRequest,
  LaunchTestnetResponse, LoadBalancerDomain, LaunchLoadBalancerRequest, LaunchLoadBalancerResponse,
  RunLoadTestRequest, Fault, canceled, invalid, is_canceled, Duration, forward, backward, Event,
  built_image, created_provider, launched_testnet, launched_load_balancer, started_load_test,
  started_timer, selected, awaited_load_test, tore_down, History, Env,
}

-- Nanoseconds.
abbrev pub default_runtime : ℕ
default_runtime = 120_000_000_000

abbrev pub ten_years : ℕ
ten_years = 10 * 365 * 24 * 3_600_000_000_000

domain_types : Bool → List (String × String)
domain_types is_evm_chain =
    ("grpc", "9090")
    ∷ ("rpc", "26657")
    ∷ ("lcd", "1317")
    ∷ (if is_evm_chain then ("evmrpc", "8545") ∷ ("evmws", "8546") ∷ [] else [])

process_domain : String → List Node → String × String → LoadBalancerDomain
process_domain chain_name nodes (domain_type, port) = record {
  domain = append chain_name (append "-" domain_type);
  ips = map (λ n. append n.address (append ":" port)) nodes;
  protocol = if str_eq domain_type "grpc" then "grpc" else "http";
}

pub process_domain_info : String → List Node → List Node → Bool → List LoadBalancerDomain
unfolding domain_types process_domain
process_domain_info chain_name nodes validators is_evm_chain =
    map (process_domain chain_name (nodes ++ validators)) (domain_types is_evm_chain)

-- max(testnetDuration, defaultRuntime): a negative duration is below the default.
at_least_default : Duration → ℕ
at_least_default (forward n) = max n default_runtime
at_least_default (backward n) = default_runtime

record Launched : Type 0 where
  chain_state : Bytes
  provider_state : Bytes
  nodes : List Node
  validators : List Node
  error : Option Fault

abbrev failed_launch : Bytes → Fault → Launched
failed_launch state e = record {
  chain_state = [];
  provider_state = state;
  nodes = [];
  validators = [];
  error = some e;
}

-- The Ethereum specification comes first, then the Cosmos one.
pub load_test_of : {Spec : Type 0} → Option Spec → Option Spec → Option Spec
load_test_of (some spec) other = some spec
load_test_of none other = other

module _ {Spec Json : Type 0} (env : Env Spec Json) (req : TestnetWorkflowRequest Spec Json) where
  pub compress_data : Bytes → Option Bytes
  compress_data [] = some []
  compress_data (b ∷ bs) = env.gzip (b ∷ bs)

  -- What is kept of the provider's state when the launch failed: compressed, if that works.
  pub compress_or_keep : Bytes → Bytes
  unfolding compress_data
  compress_or_keep state = elim (compress_data state) [ none ↦ state | some small ↦ small ]

  network_timeout : ℕ
  unfolding at_least_default
  network_timeout =
      if str_eq req.testnet_duration ""
      then max default_runtime default_runtime
      else elim (env.parse_duration req.testnet_duration) [
        | none ↦ max default_runtime default_runtime
        | some d ↦ at_least_default d
      ]

  wait_for_testnet_completion : History Spec Json → History Spec Json
  unfolding network_timeout
  wait_for_testnet_completion h =
      if req.long_running_testnet
      then started_timer ten_years ∷ h
      else started_timer network_timeout ∷ h

  teardown_provider : Bytes → History Spec Json → History Spec Json
  teardown_provider state h =
      tore_down req.runner_type state (env.torn_down h req.runner_type state) ∷ h

  launch_request : BuildDockerImageResponse → Bytes → LaunchTestnetRequest Json
  launch_request image state = record {
    name = req.chain_config.name;
    is_evm_chain = req.is_evm_chain;
    repo = req.repo;
    sha = req.sha;
    image = image.fqdn_tag;
    base_image = req.chain_config.image;
    genesis_modifications = req.chain_config.genesis_modifications;
    runner_type = req.runner_type;
    region_configs = req.chain_config.region_configs;
    num_of_validators = req.chain_config.num_of_validators;
    num_of_nodes = req.chain_config.num_of_nodes;
    custom_app_config = req.chain_config.custom_app_config;
    custom_consensus_config = req.chain_config.custom_consensus_config;
    custom_client_config = req.chain_config.custom_client_config;
    additional_start_flags = [];
    provider_state = state;
    set_persistent_peers = req.chain_config.set_persistent_peers;
    set_seed_node = req.chain_config.set_seed_node;
    base_mnemonic = req.base_mnemonic;
    num_wallets = req.num_wallets;
    provider_specific_config = req.provider_specific_config;
  }

  -- The second half of `launchTestnet`, once the provider is created.
  launch_chain : BuildDockerImageResponse → Bytes → History Spec Json → Launched × History Spec Json
  unfolding launch_request
  launch_chain image state h =
      let launch = launch_request image state in
      let answer = env.testnet_launched h launch in
      let h' = launched_testnet launch answer ∷ h in
      elim answer [
        | err e ↦ (failed_launch (compress_or_keep state) e, h')
        | ok resp ↦ (
          record {
            chain_state = resp.chain_state;
            provider_state = resp.provider_state;
            nodes = resp.nodes;
            validators = resp.validators;
            error = none;
          },
          h',
        )
      ]

  launch_testnet :
      String → BuildDockerImageResponse → History Spec Json → Launched × History Spec Json
  unfolding launch_chain
  launch_testnet run_name image h =
      let answer = env.provider_created h req.runner_type run_name in
      let h' = created_provider req.runner_type run_name answer ∷ h in
      elim answer [ err e ↦ (failed_launch [] e, h') | ok state ↦ launch_chain image state h' ]

  launch_load_balancer :
      Bytes → List Node → List Node → History Spec Json → Bytes × Option Fault × History Spec Json
  launch_load_balancer state nodes validators h =
      if not (str_eq req.runner_type digital_ocean)
      then (state, none, h)
      else let launch : LaunchLoadBalancerRequest = record {
        provider_state = state;
        runner_type = req.runner_type;
        domains = process_domain_info req.chain_config.name nodes validators req.is_evm_chain;
        workflow_id = env.workflow_id;
        is_evm_chain = req.is_evm_chain;
      } in
        let answer = env.load_balancer_launched h launch in
        let h' = launched_load_balancer launch answer ∷ h in
        elim answer [ err e ↦ (state, some e, h') | ok resp ↦ (resp.provider_state, none, h') ]

  load_test_request : Bytes → Bytes → Spec → RunLoadTestRequest Spec
  load_test_request chain_state state spec = record {
    chain_state = chain_state;
    provider_state = state;
    load_test_spec = spec;
    runner_type = req.runner_type;
    is_evm_chain = req.is_evm_chain;
    base_mnemonic = req.base_mnemonic;
    num_wallets = req.num_wallets;
    catalyst_version = req.catalyst_version;
  }

  -- Whether a load test was started. The source's error result is always nil.
  run_load_test : Bytes → Bytes → History Spec Json → Bool × History Spec Json
  unfolding load_test_of load_test_request
  run_load_test chain_state state h =
      elim (load_test_of req.ethereum_load_test_spec req.cosmos_load_test_spec) [
        | none ↦ (false, h)
        | some spec ↦ (true, started_load_test (load_test_request chain_state state spec) ∷ h)
      ]

  -- temporal.IsCanceledError(ctx.Err())
  pub was_canceled : History Spec Json → Bool
  was_canceled h = elim (env.ctx_err h) [ none ↦ false | some e ↦ is_canceled e ]

  -- From `shutdownSelector.Select` on. The last test of the source returns nil on both sides.
  await_shutdown : Bool → History Spec Json → Result Fault (Unit {0}) × History Spec Json
  unfolding was_canceled
  await_shutdown started h =
      let h' = selected ∷ h in
      if started && not (was_canceled h')
      then (let answer = env.load_test_result h' in (answer, awaited_load_test answer ∷ h'))
      else (ok tt, h')

  serve_testnet : Bytes → Bytes → History Spec Json → Result Fault (Unit {0}) × History Spec Json
  unfolding run_load_test wait_for_testnet_completion await_shutdown
  serve_testnet chain_state state h =
      let (started, h') = run_load_test chain_state state h in
      await_shutdown started (wait_for_testnet_completion h')

  balance : Launched → History Spec Json → Bytes × Option Fault × History Spec Json
  unfolding launch_load_balancer
  balance l h =
      if req.launch_load_balancer
      then launch_load_balancer l.provider_state l.nodes l.validators h
      else (l.provider_state, none, h)

  after_balance :
      Bytes
      → Bytes × Option Fault × History Spec Json
      → Bytes × Result Fault (Unit {0}) × History Spec Json
  unfolding serve_testnet
  after_balance chain_state (state, some e, h) = (state, err e, h)
  after_balance chain_state (state, none, h) =
      let (r, h') = serve_testnet chain_state state h in (state, r, h')

  -- `startWorkflow` up to its deferred call, with the value of `providerState` that the call reads.
  after_launch : Launched → History Spec Json → Bytes × Result Fault (Unit {0}) × History Spec Json
  unfolding balance after_balance
  after_launch l h = elim l.error [
    | some e ↦ (l.provider_state, err e, h)
    | none ↦ after_balance l.chain_state (balance l h)
  ]

  pub run_testnet :
      String
      → BuildDockerImageResponse
      → History Spec Json
      → Bytes × Result Fault (Unit {0}) × History Spec Json
  unfolding launch_testnet after_launch
  run_testnet run_name image h = let (l, h') = launch_testnet run_name image h in after_launch l h'

  -- The deferred call: tear down if there is a state.
  pub cleanup : Bytes → History Spec Json → History Spec Json
  unfolding teardown_provider
  cleanup [] h = h
  cleanup (b ∷ bs) h = teardown_provider (b ∷ bs) h

  pub start_workflow :
      String
      → BuildDockerImageResponse
      → History Spec Json
      → Result Fault (Unit {0}) × History Spec Json
  unfolding run_testnet cleanup
  start_workflow run_name image h =
      let (state, r, h') = run_testnet run_name image h in (r, cleanup state h')

  pub build_request : BuildDockerImageRequest
  build_request = record {
    repo = req.repo;
    sha = req.sha;
    image_config = record {
      name = req.chain_config.name;
      image = req.chain_config.image;
      version = req.chain_config.version;
    };
    cosmos_sdk_sha = req.cosmos_sdk_sha;
    comet_bft_sha = req.comet_bft_sha;
  }

  -- A cancelled run completes gracefully.
  graceful : Result Fault (Unit {0}) → Result Fault String
  graceful (ok u) = ok ""
  graceful (err e) = if is_canceled e then ok "" else err e

  run_workflow : History Spec Json → Result Fault String × History Spec Json
  unfolding start_workflow graceful
  run_workflow h =
      let answer = env.image_built h build_request in
      let h' = built_image build_request answer ∷ h in
      elim answer [
        | err e ↦ (err e, h')
        | ok image ↦
            (let (r, h'') = start_workflow (append "ib-" (env.random_string h)) image h' in
              (graceful r, h''))
      ]

  pub workflow : History Spec Json → Result Fault String × History Spec Json
  unfolding run_workflow
  workflow h = elim (validate req) [ err i ↦ (err (invalid i), h) | ok u ↦ run_workflow h ]
