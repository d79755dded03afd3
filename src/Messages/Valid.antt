-- ===== src/Messages/Valid.antt =====
-- What messages/testnet.go's `Validate` accepts, said without its order of tests.
use ironbird.Base.{◌≡◌, ◌≢◌, ◌↔◌, ◌⊎◌, true, false, none, eq_iff, arith}
use ironbird.Base.Action.{ok}
use ironbird.Messages.{TestnetWorkflowRequest, digital_ocean, docker, validate}

module _ {Spec Json : Type 0} where
  pub record IsValid (r : TestnetWorkflowRequest Spec Json) : Type 0 where
    pub has_repo : r.repo ≢ ""
    pub has_sha : r.sha ≢ ""
    pub has_name : r.chain_config.name ≢ ""
    pub known_runner : (r.runner_type ≡ digital_ocean) ⊎ (r.runner_type ≡ docker)
    pub no_duration : r.long_running_testnet ≡ true → r.testnet_duration ≡ ""
    pub peers : (r.chain_config.set_seed_node ≡ true) ⊎ (r.chain_config.set_persistent_peers ≡ true)
    pub balancer : r.launch_load_balancer ≡ true → r.runner_type ≡ digital_ocean
    pub evm_test : r.is_evm_chain ≡ true → r.cosmos_load_test_spec ≡ none
    pub cosmos_test : r.is_evm_chain ≡ false → r.ethereum_load_test_spec ≡ none

  module _ (r : TestnetWorkflowRequest Spec Json) where
    validate-IsValid : validate r ≡ ok tt → IsValid r
    unfolding validate
    validate-IsValid h = ground (
      arith,
      eq_iff r.repo "",
      eq_iff r.sha "",
      eq_iff r.chain_config.name "",
      eq_iff r.runner_type digital_ocean,
      eq_iff r.runner_type docker,
      eq_iff r.testnet_duration "",
    )

    IsValid-validate : IsValid r → validate r ≡ ok tt
    unfolding validate
    IsValid-validate v = ground (
      arith,
      eq_iff r.repo "",
      eq_iff r.sha "",
      eq_iff r.chain_config.name "",
      eq_iff r.runner_type digital_ocean,
      eq_iff r.runner_type docker,
      eq_iff r.testnet_duration "",
      eq_iff digital_ocean docker,
    )

  -- A request passes `Validate` exactly when it satisfies `IsValid`: repository, SHA and chain name
  -- are given, the runner is DigitalOcean or Docker, a long-running testnet has no duration, some
  -- way to find peers is on, only DigitalOcean has a load balancer, and a load test is of the
  -- chain's own kind.
  pub validate_iff : (r : TestnetWorkflowRequest Spec Json) → (validate r ≡ ok tt) ↔ IsValid r
  validate_iff r = (validate-IsValid r, IsValid-validate r)
