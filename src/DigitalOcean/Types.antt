-- ===== src/DigitalOcean/Types.antt =====
-- petri/core/provider/digitalocean: the provider's state, the tasks' states, and the log of the
-- requests to DigitalOcean, to Tailscale and to the Docker daemons of the droplets, with what answers
-- them. A task's state is shared by pointer between the provider and the task, so it stands in a cell.
use ironbird.Base.{ℕ, String, Bool, Option, List, ◌∷◌, ◌==◌, if◌then◌else◌}
use ironbird.Base.Action.{Result, Action}
use ironbird.Definition.{TaskDefinition, TaskStatus, DefinitionError}

pub record TaskState : Type 0 where
  pub id : String
  pub name : String
  pub tailscale_hostname : String
  pub definition : TaskDefinition
  pub status : TaskStatus
  pub provider_name : String

-- The map from a task's id to the cell of its state.
pub record ProviderState : Type 0 where
  pub task_states : List (String × ℕ)
  pub name : String
  pub petri_tag : String
  pub firewall_id : String
  pub domain_ids : List ℕ

pub data Error : Type 0 where
  failed : String → Error
  resource_not_found : Error
  connection_failed : Error
  not_found : Error
  bad_definition : DefinitionError → Error
  no_auth_key no_server no_local_client no_tags no_token : Error
  no_region no_size no_image_id bad_image_id no_config : Error
  no_peer no_address bad_task_id no_container timed_out out_of_fuel container_exited : Error
  delete_domain_failed : ℕ → Error

pub record TailscaleSettings : Type 0 where
  pub auth_key : String
  pub tags : List String
  pub has_server : Bool
  pub has_local_client : Bool

pub record DropletRequest : Type 0 where
  pub name : String
  pub region : String
  pub size : String
  pub ssh_key : ℕ
  pub image : String
  pub tags : List String
  pub user_data : String

pub record Droplet : Type 0 where
  pub id : ℕ
  pub name : String
  pub status : String
  pub private_ip : Result Error String

-- An inbound rule, or an outbound rule, with its address.
pub record FirewallRule : Type 0 where
  pub inbound : Bool
  pub protocol : String
  pub port_range : String
  pub address : String

pub record FirewallRequest : Type 0 where
  pub name : String
  pub tags : List String
  pub rules : List FirewallRule

-- A peer, with its IPv4 addresses.
pub record Peer : Type 0 where
  pub host_name : String
  pub addresses : List String

-- The Docker daemon of a droplet: a client that was passed for a task's name, or one for an address.
pub data Daemon : Type 0 where
  given : String → Daemon
  dialed : String → Daemon

pub record ContainerOptions : Type 0 where
  pub name : String
  pub hostname : String
  pub image : String
  pub entrypoint : List String
  pub command : List String
  pub environment : List (String × String)
  pub labels : List (String × String)
  pub mounts : List (String × String)
  pub network_mode : String

pub record ContainerInfo : Type 0 where
  pub status : String
  pub running : Bool
  pub exit_code : ℕ

pub record ExecInfo : Type 0 where
  pub running : Bool
  pub exit_code : ℕ

pub record Streams : Type 0 where
  pub stdout : String
  pub stderr : String

pub data Request : Type 0 where
  create_tag delete_tag delete_droplets_by_tag : String → Request
  create_firewall : FirewallRequest → Request
  get_firewall delete_firewall : String → Request
  create_droplet : DropletRequest → Request
  get_droplet delete_droplet : ℕ → Request
  create_domain : String → String → String → Request
  delete_domain : String → ℕ → Request
  tailscale_status : Request
  dial_docker : String → Request
  ping image_list close : Daemon → Request
  image_inspect : Daemon → String → Request
  image_pull : Daemon → String → String → Request
  container_list : Daemon → Request
  container_create : Daemon → ContainerOptions → Request
  container_start container_stop container_inspect container_remove : Daemon → String → Request
  exec_create : Daemon → String → List String → Request
  exec_attach exec_inspect : Daemon → String → Request
  sleep : ℕ → Request

abbrev pub Answer : Request → Type 0
Answer (create_firewall r) = String
Answer (create_droplet r) = Droplet
Answer (get_droplet id) = Droplet
Answer (create_domain root name ip) = ℕ
Answer tailscale_status = List Peer
Answer (container_list d) = List String
Answer (container_create d o) = String
Answer (container_inspect d id) = ContainerInfo
Answer (exec_create d id cmd) = String
Answer (exec_attach d id) = Streams
Answer (exec_inspect d id) = ExecInfo
Answer _ = Unit

-- The requests with their answers, newest first.
abbrev pub Log : Type 0
Log = List ((q : Request) × Result Error (Answer q))

-- What answers the requests, the clock's deadlines by their length in milliseconds, Go's conversions of
-- numbers, the random name of an executor, and the telemetry commands for a provider and a node.
pub record Cloud : Type 0 where
  pub answer : Log → (q : Request) → Result Error (Answer q)
  pub expired : Log → ℕ → Bool
  pub itoa : ℕ → String
  pub atoi : String → Option ℕ
  pub executor_name : Log → String → String
  pub telemetry : Option (String → String → Result Error (List String))
  pub tailscale : TailscaleSettings
  pub domain : String
  pub has_override : String → Bool

pub record World : Type 0 where
  pub log : Log
  pub cells : ℕ → TaskState
  pub next : ℕ
  pub provider : ProviderState

abbrev pub DigitalOcean : Type 0 → Type 0
DigitalOcean A = Action World Error A

-- A task: the cell of its state, and its Docker daemon.
pub record Task : Type 0 where
  pub cell : ℕ
  pub daemon : Daemon

unfoldable pub request : Cloud → (q : Request) → DigitalOcean (Answer q)
request c q w = (c.answer w.log q, record w { log = (q, c.answer w.log q) ∷ w.log })

unfoldable pub update_cell : (ℕ → TaskState) → ℕ → TaskState → ℕ → TaskState
update_cell cells r t s = if r == s then t else cells s
