-- ===== src/Service/Answers.antt =====
-- server/services/workflow/workflow.go: what CreateWorkflow promises, whatever the request is.
use ironbird.Base.{
  ℕ, ◌≡◌, ◌≢◌, refl, inl, inr, String, Bool, not, ◌&&◌, ◌∷◌, arith, str_eq, eq_iff, Bool-cases,
}
use ironbird.Base.Action.{Result, ok, err, Result-cases}
use ironbird.Messages.{TestnetWorkflowRequest, Invalid, validate}
use ironbird.Messages.Valid.{IsValid, validate_iff}
use ironbird.Store.{Codec}
use ironbird.Service.{Links}
use ironbird.Service.Requests.{CreateWorkflowRequest, Coding}
use ironbird.Service.Create.{
  Refusal, default_base_mnemonic, Server, chain_of_request, load_tests_of_request, mnemonic_of,
  request_of, started_outcome, validated_outcome, validate_and_start, handle_create_workflow,
}

module _ {Spec Json Wallets : Type 0} (c : Coding Spec Json)
    (codec : Codec Wallets (TestnetWorkflowRequest Spec Json) Links) (is_duration : String → Bool)
    (execute : Server Spec Json → TestnetWorkflowRequest Spec Json → Result String String) where
  -- A request that may be started.
  pub record IsSound (request : TestnetWorkflowRequest Spec Json) : Type 0 where
    pub valid : IsValid request
    pub mnemonic : request.base_mnemonic ≢ ""

  -- What the handler promises: an error leaves the server as it was, and a started request is sound.
  abbrev pub Answered : Server Spec Json → Result Refusal String → Server Spec Json → Type 0
  Answered s (err e) s' = s' ≡ s
  Answered s (ok id) s' =
      (request : TestnetWorkflowRequest Spec Json) × (s'.started ≡ request ∷ s.started)
      × IsSound request
      × (execute s request ≡ ok id)

  mnemonic_lem : (m : String) → mnemonic_of m ≢ ""
  mnemonic_lem m e = ground (arith, eq_iff m "", eq_iff default_base_mnemonic "")

  started_outcome-Answered :
      (now : ℕ) (request : TestnetWorkflowRequest Spec Json) (s : Server Spec Json)
      (r : Result String String)
      → execute s request ≡ r
      → IsSound request
      → Answered s
          (started_outcome c codec is_duration execute now request s r).0
          (started_outcome c codec is_duration execute now request s r).1
  unfolding started_outcome
  started_outcome-Answered now request s (ok id) e h = (request, refl, h, e)
  started_outcome-Answered now request s (err m) e h = refl

  validated_outcome-Answered :
      (now : ℕ) (request : TestnetWorkflowRequest Spec Json) (s : Server Spec Json)
      (r : Result Invalid (Unit {0}))
      → validate request ≡ r
      → request.base_mnemonic ≢ ""
      → Answered s
          (validated_outcome c codec is_duration execute now request s r).0
          (validated_outcome c codec is_duration execute now request s r).1
  unfolding validated_outcome
  validated_outcome-Answered now request s (err i) e m = refl
  validated_outcome-Answered now request s (ok u) e m =
      started_outcome-Answered now request s (execute s request) refl
        (record { valid = (validate_iff request).0 e; mnemonic = m })

  -- Whatever the request is: a creation that is refused changes neither the table nor what was started,
  -- and one that succeeds has started exactly one request, which is valid and has a mnemonic, and
  -- answers with the id that Temporal gave for it.
  pub handle_create_workflow-Answered :
      (now : ℕ) (req : CreateWorkflowRequest) (s : Server Spec Json)
      → Answered s
          (handle_create_workflow c codec is_duration execute now req s).0
          (handle_create_workflow c codec is_duration execute now req s).1
  unfolding handle_create_workflow request_of validate_and_start
  handle_create_workflow-Answered now req s =
      elim (Bool-cases
        (not (str_eq req.testnet_duration "") && not (is_duration req.testnet_duration))) [
          | inl bad ↦ rw bad refl
          | inr fine ↦
              elim (Result-cases (chain_of_request c codec is_duration execute req.chain_config)) [
                | inr (e, p) ↦ rw (fine, p) refl
                | inl (chain, p) ↦
                    elim (Result-cases (
                      load_tests_of_request c codec is_duration execute
                        req.encoded_load_test_spec)) [
                          | inr (e, q) ↦ rw (fine, p, q) refl
                          | inl (specs, q) ↦
                              rw (fine, p, q)
                                (validated_outcome-Answered now
                                  (request_of c codec is_duration execute req chain specs) s
                                  (validate
                                    (request_of c codec is_duration execute req chain specs))
                                  refl (mnemonic_lem req.base_mnemonic))
                        ]
              ]
        ]
