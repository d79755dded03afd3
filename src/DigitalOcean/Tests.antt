-- ===== src/DigitalOcean/Tests.antt =====
-- A cloud that answers everything: a provider with one task and one domain, and its teardown.
use Prim.Native.String.{◌++◌ as append}
use ironbird.Base.{ℕ, ◌≡◌, refl, inr, true, false, none, some, List, [], ◌∷◌, str_eq, In, All}
use ironbird.Base.Action.{Result, ok, modify, ◌>>=◌}
use ironbird.Definition.{TaskDefinition, undefined, parse_uint, validate_image, validate_ports}
use ironbird.Messages.{RegionConfig}
use ironbird.Docker.Provider.{value_of}
use ironbird.Chain.Types.{ChainConfig, NodeConfig}
use ironbird.Chain.Create.{create_regional_node_options, has_entry}
use ironbird.Chain.Config.{validate_region}
use ironbird.DigitalOcean.Types.{
  World, TaskState, Cloud, Error, Request, create_tag, delete_tag, delete_droplets_by_tag,
  create_firewall, get_firewall, delete_firewall, create_droplet, get_droplet, delete_droplet,
  create_domain, delete_domain, tailscale_status, dial_docker, ping, image_list, close,
  image_inspect, image_pull, container_list, container_create, container_start, container_stop,
  container_inspect, container_remove, exec_create, exec_attach, exec_inspect, sleep, Answer, Log,
  request,
}
use ironbird.DigitalOcean.Config.{validate_config}
use ironbird.DigitalOcean.Provider.{
  new_provider, new_state, create_task, create_domains, teardown, or_none,
}
use ironbird.DigitalOcean.Kept.{Kept, AllTagged, created_domains}
use ironbird.DigitalOcean.Operations.{Operation, creates, adds, run, fresh, run-new_provider}
use ironbird.DigitalOcean.Deleting.{Erased, DomainGone}
use ironbird.DigitalOcean.Erased.{teardown-Erased, run-teardown}
use ironbird.DigitalOcean.Regions.{effective, create_regional_node_options-Valid}

abbrev replies : Log → (q : Request) → Result Error (Answer q)
replies log (create_tag t) = ok tt
replies log (delete_tag t) = ok tt
replies log (delete_droplets_by_tag t) = ok tt
replies log (create_firewall r) = ok "fw"
replies log (get_firewall id) = ok tt
replies log (delete_firewall id) = ok tt
replies log (create_droplet r) =
    ok (record { id = 7; name = r.name; status = "new"; private_ip = ok "10.0.0.7" })
replies log (get_droplet id) =
    ok (record { id = id; name = "d"; status = "active"; private_ip = ok "10.0.0.7" })
replies log (delete_droplet id) = ok tt
replies log (create_domain root name ip) = ok 31
replies log (delete_domain root id) = ok tt
replies log tailscale_status =
    ok ((record { host_name = "petri-net-v0"; addresses = "100.64.0.7" ∷ [] }) ∷ [])
replies log (dial_docker ip) = ok tt
replies log (ping d) = ok tt
replies log (image_list d) = ok tt
replies log (close d) = ok tt
replies log (image_inspect d i) = ok tt
replies log (image_pull d i a) = ok tt
replies log (container_list d) = ok ("c1" ∷ [])
replies log (container_create d o) = ok "c1"
replies log (container_start d id) = ok tt
replies log (container_stop d id) = ok tt
replies log (container_inspect d id) =
    ok (record { status = "running"; running = true; exit_code = 0 })
replies log (container_remove d id) = ok tt
replies log (exec_create d id cmd) = ok "e1"
replies log (exec_attach d id) = ok (record { stdout = ""; stderr = "" })
replies log (exec_inspect d id) = ok (record { running = false; exit_code = 0 })
replies log (sleep t) = ok tt

abbrev cloud : Cloud
cloud = record {
  answer = replies;
  expired = λ log t. false;
  itoa = λ n. "7";
  atoi = λ s. some 7;
  executor_name = λ log n. append n "-executor";
  telemetry = none;
  tailscale = record {
    auth_key = "key";
    tags = "net" ∷ [];
    has_server = true;
    has_local_client = true;
  };
  domain = "example.org";
  has_override = λ n. false;
}

abbrev task : TaskDefinition
task = record {
  name = "v0";
  image = record { image = "simapp"; uid = "1025"; gid = "1025" };
  ports = [];
  environment = [];
  data_dir = "/data";
  entrypoint = [];
  command = [];
  args = [];
  provider_specific_config =
      some (("region", "nyc1") ∷ ("size", "s-4vcpu-8gb") ∷ ("image_id", "210084437") ∷ []);
}

abbrev cells : ℕ → TaskState
cells n = record {
  id = "";
  name = "";
  tailscale_hostname = "";
  definition = task;
  status = undefined;
  provider_name = "";
}

abbrev operations : List Operation
operations = creates 3 task ∷ adds (("v0.net", "100.64.0.7") ∷ []) ∷ []

abbrev made : World
made = run cloud operations (new_provider cloud (fresh "net" cells)).1

-- The task and the domain are known afterwards.
made_example : (made.provider.task_states ≡ ("7", 0) ∷ []) × (made.provider.domain_ids ≡ 31 ∷ [])
unfolding create_domains ◌>>=◌ request modify create_task validate_image parse_uint validate_ports
    new_provider new_state
made_example = (refl, refl)

run-new_provider_example : Kept "petri-net" made
run-new_provider_example = run-new_provider cloud "net" cells operations

teardown_example : (teardown cloud made).0 ≡ ok tt
unfolding teardown ◌>>=◌ create_domains modify create_task validate_image parse_uint validate_ports
    new_provider new_state
teardown_example = refl

teardown-Erased_example : Erased "example.org" made.provider (teardown cloud made).1.log
teardown-Erased_example = teardown-Erased cloud made teardown_example

run-teardown_example :
    AllTagged "petri-net" made.log
    × In (delete_droplets_by_tag "petri-net", ok tt) (teardown cloud made).1.log
    × (str_eq "example.org" "" ≡ false
        → All (DomainGone "example.org" (teardown cloud made).1.log) (created_domains made.log))
run-teardown_example = run-teardown cloud "net" cells operations teardown_example

abbrev region : RegionConfig
region = record { name = "fra1"; num_validators = 1; num_nodes = 0 }

abbrev chain : ChainConfig
chain = record {
  name = "ib";
  denom = "stake";
  decimals = 6;
  num_validators = 0;
  num_nodes = 0;
  region_config = [];
  binary_name = "simd";
  entrypoint = [];
  image = record { image = "simapp"; uid = "1025"; gid = "1025" };
  gas_prices = "0stake";
  bech32_prefix = "cosmos";
  home_dir = "/simd";
  coin_type = "118";
  chain_id = "ib-1";
  use_genesis_sub_command = true;
  additional_start_flags = [];
  additional_ports = [];
  genesis_delegation = none;
  genesis_balance = none;
  is_evm_chain = false;
  custom_app_config = none;
  custom_client_config = none;
  custom_consensus_config = none;
  set_persistent_peers = true;
  set_seed_node = true;
}

abbrev node : NodeConfig
node = record { name = "net-validator-0-fra1"; index = 0; chain_config = chain }

abbrev plain_task : TaskDefinition
plain_task = record task { provider_specific_config = none }

region_valid : validate_region region ≡ ok tt
unfolding validate_region
region_valid = refl

no_size : has_entry "size" [] ≡ false
unfolding has_entry
no_size = refl

create_regional_node_options-Valid_example :
    (validate_config (
        or_none
          (effective
            (create_regional_node_options none region)
            plain_task
            node).provider_specific_config)
      ≡ ok tt)
    × (value_of "region" (
          or_none
            (effective
              (create_regional_node_options none region)
              plain_task
              node).provider_specific_config)
        ≡ "fra1")
create_regional_node_options-Valid_example =
    create_regional_node_options-Valid none region plain_task node region_valid (inr no_size)
