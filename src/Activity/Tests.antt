-- ===== src/Activity/Tests.antt =====
-- An EVM testnet of four validators on Docker.
use ironbird.Base.{ℕ, ◌^◌, ◌≡◌, refl, String, true, false, none, some, List, [], ◌∷◌}
use ironbird.Workflow.Types.{LaunchTestnetRequest}
use ironbird.Chain.Types.{Section, table, text, empty, entry, find_setting}
use ironbird.Base.Int.{pos, negsuc, ◌*ℤ◌}
use ironbird.Chain.Config.{get_genesis_balance}
use ironbird.Activity.{
  int64_of, ChainImage, image_of, construct_chain_config, evm_config, cosmos_config,
  with_evm_chain_id, set_setting,
}
use ironbird.Activity.Configured.{Configured, construct_chain_config-Configured}

abbrev request : LaunchTestnetRequest Section
request = record {
  name = "ib-evm";
  is_evm_chain = true;
  repo = "evm";
  sha = "abc";
  image = "evm:abc";
  base_image = "evm";
  genesis_modifications = [];
  runner_type = "Docker";
  region_configs = [];
  num_of_validators = 4;
  num_of_nodes = 1;
  custom_app_config = some (entry "evm" (table (entry "tracer" (text "json") empty)) empty);
  custom_consensus_config = none;
  custom_client_config = none;
  additional_start_flags = [];
  provider_state = [];
  set_persistent_peers = true;
  set_seed_node = false;
  base_mnemonic = "";
  num_wallets = 0;
  provider_specific_config = [];
}

abbrev chains : List (String × ChainImage)
chains =
    (
      "evm",
      record {
        uid = "1025";
        gid = "1025";
        binary_name = "evmd";
        entrypoint = "evmd" ∷ [];
        home_dir = "/home";
        gas_prices = "0.0005atest";
      },
    )
    ∷ []

abbrev hd_path : ℕ → String
hd_path n = "m/44'"

construct_chain_config-Configured_example :
    Configured "Docker" request
      (image_of "evm" chains)
      (construct_chain_config hd_path request chains)
construct_chain_config-Configured_example =
    construct_chain_config-Configured hd_path "Docker" request chains

evm_app_config :
    (construct_chain_config hd_path request chains).0.custom_app_config
    ≡ some (
        entry "evm"
          (table (entry "tracer" (text "json") (entry "evm-chain-id" (text "262144") empty)))
          empty)
unfolding construct_chain_config evm_config cosmos_config with_evm_chain_id set_setting find_setting
evm_app_config = refl

-- With 2 ^ 63 - 2 validators the amounts of an EVM chain are negative.
negative_amounts :
    get_genesis_balance
      (construct_chain_config hd_path
        (record request { num_of_validators = 9223372036854775806 })
        chains).0
    ≡ pos (10 ^ 25) *ℤ negsuc 9223372036854775807
unfolding construct_chain_config evm_config cosmos_config int64_of get_genesis_balance ◌*ℤ◌
negative_amounts = refl
