-- ===== src/Chain/Tests.antt =====
-- A chain in two regions whose nodes answer every request.
use ironbird.Base.{ℕ, ◌≡◌, refl, true, false, none, some, List, [], ◌∷◌, length}
use ironbird.Base.Action.{Result, ok, pure, lift, ◌>>=◌}
use ironbird.Definition.{parse_uint}
use ironbird.Genesis.{Decimal}
use ironbird.Chain.Types.{
  WalletConfig, ChainConfig, Error, Request, create_node, setup_validator, run_command,
  genesis_file, ip, private_ip, node_id, peer_id, external_address, create_wallet, block_height,
  setup_node, set_seed_mode, start, destroy, overwrite_genesis, copy_gentx, set_chain_configs,
  set_persistent_peers, set_seed_node, set_bootstrap_peers, Answer, Log, Nodes, ask,
}
use ironbird.Chain.Create.{State, create_chain}
use ironbird.Chain.Setup.{Codec, ChainOptions, init}
use ironbird.Chain.Started.{Initialised, init-Initialised}
use ironbird.Base.{All, In}
use ironbird.Chain.Waiting.{wait_for_startup, teardown_chain}
use ironbird.Chain.Reached.{Waited, wait_for_startup-Waited, teardown_chain-Destroyed}
use ironbird.Chain.Populated.{Populated, create_chain-Populated}

abbrev dec : Decimal
dec = record { print = λ n. "n"; parse = λ s. none }

abbrev wallets : WalletConfig
wallets = record {
  has_derivation_fn = true;
  has_generation_fn = true;
  bech32_prefix = "cosmos";
  hd_path = some "m/44'/118'/0'/0/0";
  signing_algorithm = "secp256k1";
}

abbrev config : ChainConfig
config = record {
  name = "ib";
  denom = "stake";
  decimals = 6;
  num_validators = 0;
  num_nodes = 0;
  region_config =
      (record { name = "nyc1"; num_validators = 1; num_nodes = 0 })
      ∷ (record { name = "fra1"; num_validators = 1; num_nodes = 1 })
      ∷ [];
  binary_name = "simd";
  entrypoint = [];
  image = record { image = "simapp"; uid = "1025"; gid = "1025" };
  gas_prices = "0stake";
  bech32_prefix = "cosmos";
  home_dir = "/simd";
  coin_type = "118";
  chain_id = "ib-1";
  use_genesis_sub_command = true;
  additional_start_flags = [];
  additional_ports = [];
  genesis_delegation = none;
  genesis_balance = none;
  is_evm_chain = false;
  custom_app_config = none;
  custom_client_config = none;
  custom_consensus_config = none;
  set_persistent_peers = true;
  set_seed_node = true;
}

abbrev replies : Log → (q : Request) → Result Error (Answer q)
replies log (create_node c m) = ok (length log)
replies log (setup_validator n w cs d) = ok (record { address = "cosmos1v"; mnemonic = "m" })
replies log (setup_node n) = ok tt
replies log (genesis_file n) = ok "{}"
replies log (ip n) = ok "10.0.0.1"
replies log (private_ip n) = ok "10.0.0.2"
replies log (node_id n) = ok "id"
replies log (peer_id n) = ok "peer"
replies log (set_seed_mode n) = ok tt
replies log (start n) = ok tt
replies log (destroy n) = ok tt
replies log (create_wallet n k w) = ok (record { address = "cosmos1f"; mnemonic = "f" })
replies log (overwrite_genesis n g) = ok tt
replies log (copy_gentx n m) = ok tt
replies log (run_command n c) = ok (record { stdout = ""; stderr = ""; exit_code = 0 })
replies log (external_address n p) = ok "1.2.3.4:26656"
replies log (set_chain_configs n i a) = ok tt
replies log (set_persistent_peers n p) = ok tt
replies log (set_seed_node n p) = ok tt
replies log (set_bootstrap_peers n p) = ok tt
replies log (block_height n) = ok 1

abbrev healthy_nodes : Nodes
healthy_nodes = record { answer = replies; random = λ log n. 0; ctx_done = λ log. false }

abbrev created : State
created = record {
  config = config;
  use_external_addresses = true;
  validators = 0 ∷ 1 ∷ [];
  nodes = 2 ∷ [];
  validator_wallets = none ∷ none ∷ [];
  faucet_wallet = none;
}

create_chain_example :
    (create_chain healthy_nodes dec "DigitalOcean" config wallets true none []).0 ≡ ok created
unfolding create_chain lift pure ◌>>=◌ parse_uint
create_chain_example = refl

create_chain-Populated_example : Populated "DigitalOcean" config created
create_chain-Populated_example =
    create_chain-Populated healthy_nodes dec "DigitalOcean" config wallets true none [] created
      create_chain_example

abbrev codec : Codec
codec = record {
  dec = dec;
  new_wallet = λ w k m p. ok (record { address = "cosmos1a"; mnemonic = m });
  read_genesis = λ s. ok (record { accounts = []; bank = s; rest = s });
  write_genesis = λ g. ok g.rest;
  read_bank = λ s. ok (record { balances = []; supply = [] });
  write_bank = λ b. ok "{}";
}

abbrev options : ChainOptions
options = record {
  modify_genesis = some (λ g. ok "{genesis}");
  has_node_creator = true;
  wallet_config = wallets;
  additional_accounts = 1;
  base_mnemonic = "base";
}

abbrev starts : Log → List ℕ
starts [] = []
starts ((start n, r) ∷ log) = n ∷ starts log
starts ((_, r) ∷ log) = starts log

-- The nodes start last, the validators first.
init_example : starts (init healthy_nodes codec created options []).1 ≡ 2 ∷ 1 ∷ 0 ∷ []
unfolding init lift pure ask ◌>>=◌
init_example = refl

init-Initialised_example :
    Initialised healthy_nodes codec created
      (init healthy_nodes codec created options []).0
      (init healthy_nodes codec created options []).1
init-Initialised_example = init-Initialised healthy_nodes codec created options

wait_for_startup-Waited_example :
    Waited 1
      (wait_for_startup healthy_nodes codec created 2 2 []).0
      (wait_for_startup healthy_nodes codec created 2 2 []).1
wait_for_startup-Waited_example = wait_for_startup-Waited healthy_nodes codec created 2 2 []

wait_for_startup_example : (wait_for_startup healthy_nodes codec created 2 2 []).0 ≡ ok tt
unfolding wait_for_startup ask ◌>>=◌
wait_for_startup_example = refl

teardown_chain_example : (teardown_chain healthy_nodes codec created []).0 ≡ ok tt
unfolding teardown_chain ask pure ◌>>=◌
teardown_chain_example = refl

teardown_chain-Destroyed_example :
    All
      (λ n. In (destroy n, ok tt) (teardown_chain healthy_nodes codec created []).1)
      (0 ∷ 1 ∷ 2 ∷ [])
teardown_chain-Destroyed_example =
    teardown_chain-Destroyed healthy_nodes codec created [] teardown_chain_example
