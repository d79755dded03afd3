-- ===== src/Workflow/Waiting.antt =====
-- workflows/testnet/testnet.go: a load test that was started is waited for.
use ironbird.Base.{
  ◌≡◌, refl, ◌∙◌, ◌⊎◌, inl, inr, String, Bool, true, false, Option, none, some, [], ◌∷◌, arith,
  Bool-cases, Option-cases,
}
use ironbird.Base.Action.{Result, ok}
use ironbird.Messages.{TestnetWorkflowRequest}
use ironbird.Workflow.Types.{
  Bytes, BuildDockerImageResponse, Env, History, Fault, canceled, awaited_load_test, selected,
}
use ironbird.Workflow.{
  load_test_of, run_load_test, serve_testnet, after_launch, run_testnet, cleanup, start_workflow,
  Launched, await_shutdown, balance, after_balance, was_canceled, launch_testnet,
}

module _ {Spec Json : Type 0} where
  -- The run got a result of its load test that is no error.
  pub awaited : History Spec Json → Bool
  awaited [] = false
  awaited (awaited_load_test (ok u) ∷ h) = true
  awaited (_ ∷ h) = awaited h

module _ {Spec Json : Type 0} (env : Env Spec Json) (req : TestnetWorkflowRequest Spec Json)
    (spec : Spec)
    (wanted : load_test_of req.ethereum_load_test_spec req.cosmos_load_test_spec ≡ some spec) where
  -- A run without an error waited for the load test, or its context is cancelled at its end.
  abbrev Waited : Result Fault (Unit {0}) → History Spec Json → Type 0
  Waited r h = r ≡ ok tt → (awaited h ≡ true) ⊎ (env.ctx_err h ≡ some canceled)

  was_canceled_lem :
      (h : History Spec Json) → was_canceled env req h ≡ true → env.ctx_err h ≡ some canceled
  unfolding was_canceled
  was_canceled_lem h e = ground arith

  await_shutdown_waits :
      (h : History Spec Json) → let (r, h') = await_shutdown env req true h in Waited r h'
  unfolding await_shutdown awaited
  await_shutdown_waits h done = elim (Bool-cases (was_canceled env req (selected ∷ h))) [
    | inl stopped ↦ rw (stopped, await_shutdown) (inr (was_canceled_lem (selected ∷ h) stopped))
    | inr going ↦ inl (ground arith)
  ]

  serve_testnet_waits :
      (chain_state state : Bytes) (h : History Spec Json)
      → let (r, h') = serve_testnet env req chain_state state h in Waited r h'
  unfolding serve_testnet
  serve_testnet_waits chain_state state h =
      rw (wanted, serve_testnet, run_load_test) (await_shutdown_waits _)

  after_balance_waits :
      (chain_state state : Bytes) (e : Option Fault) (h : History Spec Json)
      → let (state', r, h') = after_balance env req chain_state (state, e, h) in Waited r h'
  unfolding after_balance
  after_balance_waits chain_state state (some e) h = λ done. cc
  after_balance_waits chain_state state none h = serve_testnet_waits chain_state state h

  after_launch_waits :
      (l : Launched) (h : History Spec Json)
      → let (state, r, h') = after_launch env req l h in Waited r h'
  unfolding after_launch
  after_launch_waits l h = elim (Option-cases l.error) [
    | inr (e, failed) ↦ rw (failed, after_launch) (λ done. cc)
    | inl fine ↦
        let (state, e, h') = balance env req l h in
        rw (fine, after_launch) (after_balance_waits l.chain_state state e h')
  ]

  awaited-cleanup :
      (state : Bytes) (h : History Spec Json) → awaited (cleanup env req state h) ≡ awaited h
  unfolding cleanup awaited
  awaited-cleanup [] h = refl
  awaited-cleanup (b ∷ bs) h = refl

  run_testnet_waits :
      (name : String) (image : BuildDockerImageResponse) (h : History Spec Json)
      → let (state, r, h') = run_testnet env req name image h in Waited r h'
  unfolding run_testnet
  run_testnet_waits name image h =
      let (l, h') = launch_testnet env req name image h in after_launch_waits l h'

  -- A run of a request with a load test that ends without an error got a result of the load test that
  -- is no error, or its context was cancelled when only the teardown was left.
  pub start_workflow_waits :
      (name : String) (image : BuildDockerImageResponse)
      → (start_workflow env req name image []).0 ≡ ok tt
      → (awaited (start_workflow env req name image []).1 ≡ true)
        ⊎ (env.ctx_err (run_testnet env req name image []).2 ≡ some canceled)
  unfolding start_workflow
  start_workflow_waits name image done =
      let (state, r, h') = run_testnet env req name image [] in
      elim (run_testnet_waits name image [] done) [
        | inl waited ↦ inl (awaited-cleanup state h' ∙ waited)
        | inr stopped ↦ inr stopped
      ]
