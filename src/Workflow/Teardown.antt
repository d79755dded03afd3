-- ===== src/Workflow/Teardown.antt =====
-- workflows/testnet/testnet.go: the provider is torn down once, last, with its latest state.
use ironbird.Base.{
  ℕ, suc, ◌≡◌, ap, String, Bool, Option, none, some, [], ◌∷◌, arith, inl, inr, Option-cases,
}
use ironbird.Base.Action.{ok, err}
use ironbird.Messages.{TestnetWorkflowRequest}
use ironbird.Workflow.Types.{
  Bytes, BuildDockerImageResponse, Env, History, Fault, created_provider, launched_testnet,
  launched_load_balancer, tore_down,
}
use ironbird.Workflow.{
  compress_or_keep, launch_testnet, run_load_test, serve_testnet, after_launch, run_testnet,
  cleanup, balance, after_balance, start_workflow, Launched, wait_for_testnet_completion,
  await_shutdown,
}

module _ {Spec Json : Type 0} where
  unfoldable pub teardowns : History Spec Json → ℕ
  teardowns [] = 0
  teardowns (tore_down runner state answer ∷ h) = suc (teardowns h)
  teardowns (_ ∷ h) = teardowns h

module _ {Spec Json : Type 0} (env : Env Spec Json) (req : TestnetWorkflowRequest Spec Json) where
  -- The provider's state as the last answer about it left it: nothing before it was created, the
  -- launch's or the load balancer's answer if there was one, and after a failed launch what was
  -- sent to it, compressed.
  pub latest_state : History Spec Json → Bytes
  latest_state [] = []
  latest_state (created_provider runner name (ok state) ∷ h) = state
  latest_state (created_provider runner name (err e) ∷ h) = []
  latest_state (launched_testnet launch (ok resp) ∷ h) = resp.provider_state
  latest_state (launched_testnet launch (err e) ∷ h) =
      compress_or_keep env req launch.provider_state
  latest_state (launched_load_balancer launch (ok resp) ∷ h) = resp.provider_state
  latest_state (launched_load_balancer launch (err e) ∷ h) = latest_state h
  latest_state (_ ∷ h) = latest_state h

  -- A run that has torn nothing down since `h`, and holds the latest state.
  record Holds (n : ℕ) (state : Bytes) (h' : History Spec Json) : Type 0 where
    none_yet : teardowns h' ≡ n
    is_latest : state ≡ latest_state h'

  run_load_test-Holds :
      (chain_state state : Bytes) (n : ℕ) (h : History Spec Json)
      → Holds n state h
      → Holds n state (run_load_test env req chain_state state h).1
  unfolding run_load_test teardowns latest_state
  run_load_test-Holds chain_state state n h v = ground arith

  await_shutdown-Holds :
      (started : Bool) (state : Bytes) (n : ℕ) (h : History Spec Json)
      → Holds n state h
      → Holds n state (await_shutdown env req started (wait_for_testnet_completion env req h)).1
  unfolding await_shutdown wait_for_testnet_completion teardowns latest_state
  await_shutdown-Holds started state n h v = ground arith

  serve_testnet-Holds :
      (chain_state state : Bytes) (n : ℕ) (h : History Spec Json)
      → Holds n state h
      → Holds n state (serve_testnet env req chain_state state h).1
  unfolding serve_testnet
  serve_testnet-Holds chain_state state n h v =
      await_shutdown-Holds _ state n _ (run_load_test-Holds chain_state state n h v)

  launch_testnet-Holds :
      (name : String) (image : BuildDockerImageResponse) (h : History Spec Json)
      → let (l, h') = launch_testnet env req name image h in Holds (teardowns h) l.provider_state h'
  unfolding launch_testnet teardowns latest_state
  launch_testnet-Holds name image h = ground arith

  balance-Holds :
      (l : Launched) (n : ℕ) (h : History Spec Json)
      → Holds n l.provider_state h
      → let (state, e, h') = balance env req l h in Holds n state h'
  unfolding balance teardowns latest_state
  balance-Holds l n h v = ground arith

  after_balance-Holds :
      (chain_state state : Bytes) (e : Option Fault) (n : ℕ) (h : History Spec Json)
      → Holds n state h
      → let (state', r, h') = after_balance env req chain_state (state, e, h) in Holds n state' h'
  unfolding after_balance
  after_balance-Holds chain_state state (some e) n h v = v
  after_balance-Holds chain_state state none n h v = serve_testnet-Holds chain_state state n h v

  after_launch-Holds :
      (l : Launched) (n : ℕ) (h : History Spec Json)
      → Holds n l.provider_state h
      → let (state, r, h') = after_launch env req l h in Holds n state h'
  unfolding after_launch
  after_launch-Holds l n h v = elim (Option-cases l.error) [
    | inr (e, failed) ↦ rw (failed, after_launch) v
    | inl fine ↦
        rw (fine, after_launch) (after_balance-Holds l.chain_state _ _ n _ (balance-Holds l n h v))
  ]

  run_testnet-Holds :
      (name : String) (image : BuildDockerImageResponse) (h : History Spec Json)
      → let (state, r, h') = run_testnet env req name image h in Holds (teardowns h) state h'
  unfolding run_testnet
  run_testnet-Holds name image h =
      after_launch-Holds _ (teardowns h) _ (launch_testnet-Holds name image h)

  -- The end of a run: one teardown of the latest state after everything else, or none at all if
  -- there is no state.
  pub record Cleaned (n : ℕ) (h' : History Spec Json) : Type 0 where
    pub before : History Spec Json
    pub none_before : teardowns before ≡ n
    pub last : h' ≡ cleanup env req (latest_state before) before
    pub once : teardowns h' ≡ (elim (latest_state before) [ [] ↦ n | b ∷ bs ↦ suc n ])

  teardowns-cleanup :
      (state : Bytes) (n : ℕ) (h : History Spec Json)
      → teardowns h ≡ n
      → teardowns (cleanup env req state h) ≡ (elim state [ [] ↦ n | b ∷ bs ↦ suc n ])
  unfolding cleanup teardowns
  teardowns-cleanup [] n h e = e
  teardowns-cleanup (b ∷ bs) n h e = ap suc e

  -- However a run of the workflow ends, by an error, by cancellation or in time, the provider is
  -- torn down exactly once and as the last step, with the state that the latest answer left, or not
  -- at all if that state is empty.
  pub start_workflow-Cleaned :
      (name : String) (image : BuildDockerImageResponse) (h : History Spec Json)
      → Cleaned (teardowns h) (start_workflow env req name image h).1
  unfolding start_workflow
  start_workflow-Cleaned name image h =
      let v = run_testnet-Holds name image h in
      record {
        before = (run_testnet env req name image h).2;
        none_before = v.none_yet;
        last = ap (λ state. cleanup env req state (run_testnet env req name image h).2) v.is_latest;
        once = rw (v.is_latest) (teardowns-cleanup _ (teardowns h) _ v.none_yet);
      }
