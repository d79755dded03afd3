-- ===== src/Workflow/Outcome.antt =====
-- workflows/testnet/testnet.go: what a run does and how it ends.
use Prim.Native.String.{◌++◌ as append}
use ironbird.Base.{
  ◌≤◌, ◌≡◌, ◌≢◌, refl, ◌⊎◌, inl, inr, String, Bool, true, false, Option, none, some, [], ◌∷◌, arith,
  eq_iff, All, Option-cases,
}
use ironbird.Base.Action.{err, Result-cases}
use ironbird.Messages.{TestnetWorkflowRequest, digital_ocean, validate}
use ironbird.Messages.Valid.{IsValid, validate_iff}
use ironbird.Workflow.Types.{
  Bytes, BuildDockerImageResponse, Event, Env, History, Fault, canceled, created_provider,
  launched_testnet, launched_load_balancer, tore_down, built_image, started_load_test,
  started_timer,
}
use ironbird.Workflow.{
  default_runtime, load_test_of, build_request, graceful, launch_testnet, run_load_test,
  serve_testnet, network_timeout, after_launch, run_testnet, cleanup, start_workflow, Launched,
  wait_for_testnet_completion, await_shutdown, balance, after_balance, workflow, run_workflow,
}

module _ {Spec Json : Type 0} (env : Env Spec Json) (req : TestnetWorkflowRequest Spec Json) where
  -- What a run of `req` may do.
  pub Allowed : Event Spec Json → Type 0
  Allowed (built_image build answer) = (build.repo ≡ req.repo) × (build.sha ≡ req.sha)
  Allowed (created_provider runner name answer) = runner ≡ req.runner_type
  Allowed (launched_testnet launch answer) = launch.runner_type ≡ req.runner_type
  Allowed (launched_load_balancer launch answer) =
      (launch.runner_type ≡ digital_ocean) × (req.launch_load_balancer ≡ true)
  Allowed (started_load_test test) =
      ((req.is_evm_chain ≡ true) × (req.ethereum_load_test_spec ≡ some test.load_test_spec))
      ⊎ ((req.is_evm_chain ≡ false) × (req.cosmos_load_test_spec ≡ some test.load_test_spec))
  Allowed (started_timer n) = default_runtime ≤ n
  Allowed (tore_down runner state answer) = (runner ≡ req.runner_type) × (state ≢ [])
  Allowed _ = Unit {0}

  default_runtime-le-network_timeout : default_runtime ≤ network_timeout env req
  unfolding network_timeout
  default_runtime-le-network_timeout = ground arith

  load_test_kind :
      (spec : Spec)
      → IsValid req
      → load_test_of req.ethereum_load_test_spec req.cosmos_load_test_spec ≡ some spec
      → ((req.is_evm_chain ≡ true) × (req.ethereum_load_test_spec ≡ some spec))
        ⊎ ((req.is_evm_chain ≡ false) × (req.cosmos_load_test_spec ≡ some spec))
  unfolding load_test_of
  load_test_kind spec v e = ground arith

  run_load_test-Allowed :
      (chain_state state : Bytes) (h : History Spec Json)
      → IsValid req
      → All Allowed h
      → All Allowed (run_load_test env req chain_state state h).1
  unfolding run_load_test Allowed
  run_load_test-Allowed chain_state state h v a =
      elim (Option-cases (load_test_of req.ethereum_load_test_spec req.cosmos_load_test_spec)) [
        | inl none' ↦ rw (none', run_load_test) a
        | inr (spec, e) ↦ rw (e, run_load_test) (load_test_kind spec v e, a)
      ]

  await_shutdown-Allowed :
      (started : Bool) (h : History Spec Json)
      → All Allowed h
      → All Allowed (await_shutdown env req started (wait_for_testnet_completion env req h)).1
  unfolding await_shutdown wait_for_testnet_completion Allowed
  await_shutdown-Allowed started h a = ground (arith, default_runtime-le-network_timeout)

  serve_testnet-Allowed :
      (chain_state state : Bytes) (h : History Spec Json)
      → IsValid req
      → All Allowed h
      → All Allowed (serve_testnet env req chain_state state h).1
  unfolding serve_testnet
  serve_testnet-Allowed chain_state state h v a =
      await_shutdown-Allowed _ _ (run_load_test-Allowed chain_state state h v a)

  launch_testnet-Allowed :
      (name : String) (image : BuildDockerImageResponse) (h : History Spec Json)
      → All Allowed h
      → All Allowed (launch_testnet env req name image h).1
  unfolding launch_testnet Allowed
  launch_testnet-Allowed name image h a = ground arith

  balance-Allowed :
      (l : Launched) (h : History Spec Json) → All Allowed h → All Allowed (balance env req l h).2
  unfolding balance Allowed
  balance-Allowed l h a = ground (arith, eq_iff req.runner_type digital_ocean)

  after_balance-Allowed :
      (chain_state state : Bytes) (e : Option Fault) (h : History Spec Json)
      → IsValid req
      → All Allowed h
      → All Allowed (after_balance env req chain_state (state, e, h)).2
  unfolding after_balance
  after_balance-Allowed chain_state state (some e) h v a = a
  after_balance-Allowed chain_state state none h v a = serve_testnet-Allowed chain_state state h v a

  after_launch-Allowed :
      (l : Launched) (h : History Spec Json)
      → IsValid req
      → All Allowed h
      → All Allowed (after_launch env req l h).2
  unfolding after_launch
  after_launch-Allowed l h v a = elim (Option-cases l.error) [
    | inr (e, failed) ↦ rw (failed, after_launch) a
    | inl fine ↦
        rw (fine, after_launch)
          (after_balance-Allowed l.chain_state _ _ _ v (balance-Allowed l h a))
  ]

  cleanup-Allowed :
      (state : Bytes) (h : History Spec Json)
      → All Allowed h
      → All Allowed (cleanup env req state h)
  unfolding cleanup Allowed
  cleanup-Allowed [] h a = a
  cleanup-Allowed (b ∷ bs) h a = ((refl, λ e. cc), a)

  start_workflow-Allowed :
      (name : String) (image : BuildDockerImageResponse) (h : History Spec Json)
      → IsValid req
      → All Allowed h
      → All Allowed (start_workflow env req name image h).1
  unfolding start_workflow run_testnet
  start_workflow-Allowed name image h v a =
      let (l, h') = launch_testnet env req name image h in
      cleanup-Allowed (after_launch env req l h').0 (after_launch env req l h').2
        (after_launch-Allowed l h' v (launch_testnet-Allowed name image h a))

  run_workflow-Allowed :
      (h : History Spec Json) → IsValid req → All Allowed h → All Allowed (run_workflow env req h).1
  unfolding run_workflow build_request Allowed
  run_workflow-Allowed h v a = elim (Result-cases (env.image_built h (build_request env req))) [
    | inl (image, e) ↦
        rw (e, run_workflow)
          (start_workflow-Allowed (append "ib-" (env.random_string h)) image
            (built_image (build_request env req) (env.image_built h (build_request env req)) ∷ h) v
            ((refl, refl), a))
    | inr (f, e) ↦ rw (e, run_workflow) ((refl, refl), a)
  ]

  -- Every step of a run keeps to its request: the image is built from its repository and SHA, every
  -- provider call names its runner, a load balancer is launched only on request and on DigitalOcean,
  -- a load test runs only the specification of the chain's own kind, the timer is no shorter than
  -- the default runtime, and no teardown is sent an empty state. An invalid request does nothing.
  pub workflow-Allowed :
      (h : History Spec Json)
      → All Allowed h
      → All Allowed (workflow env req h).1 × (IsValid req ⊎ ((workflow env req h).1 ≡ h))
  unfolding workflow
  workflow-Allowed h a = elim (Result-cases (validate req)) [
    | inl (u, e) ↦
        let v = (validate_iff req).0 e in rw (e, workflow) (run_workflow-Allowed h v a, inl v)
    | inr (i, e) ↦ rw (e, workflow) (a, inr refl)
  ]

  -- A run that ends with the cancellation error was cancelled while its image was built: later the
  -- workflow completes gracefully.
  pub workflow_canceled :
      (h : History Spec Json)
      → (workflow env req h).0 ≡ err canceled
      → env.image_built h (build_request env req) ≡ err canceled
  unfolding workflow graceful
  workflow_canceled h e = ground arith
