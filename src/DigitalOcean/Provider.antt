-- ===== src/DigitalOcean/Provider.antt =====
-- petri/core/provider/digitalocean/provider.go and droplet.go: creating the provider, creating and
-- restoring tasks, domains, and tearing everything down. Serialising is the identity on the states; a
-- restored provider starts from a saved state. The options of the constructors are fields of `Cloud`.
use Prim.Native.String.{◌++◌ as append}
use ironbird.Base.{
  ℕ, zero, suc, String, Bool, true, false, Option, none, some, List, [], ◌∷◌, ◌++◌, str_eq,
  if◌then◌else◌,
}
use ironbird.Base.Texts.{join}
use ironbird.Base.Action.{Result, ok, err, pure, raise, lift, gets, modify, ◌>>=◌, ◌>>◌}
use ironbird.Definition.{TaskDefinition, DefinitionError, stopped, validate_task, is_ecr_image}
use ironbird.Docker.Types.{insert}
use ironbird.Docker.Provider.{value_of}
use ironbird.DigitalOcean.Types.{
  World, TaskState, ProviderState, DigitalOcean, Task, Cloud, Error, resource_not_found,
  connection_failed, bad_definition, no_config, delete_domain_failed, Droplet, Daemon, given,
  dialed, ContainerOptions, create_tag, delete_tag, delete_droplets_by_tag, create_firewall,
  get_firewall, delete_firewall, create_droplet, create_domain, delete_domain, dial_docker,
  image_inspect, image_pull, container_create, sleep, request, update_cell,
}
use ironbird.DigitalOcean.Config.{
  validate_config, validate_tailscale, get_command, firewall_request, resource_name,
  droplet_request,
}
use ironbird.DigitalOcean.Task.{
  get_tailscale_peer, get_ip, wait_for_condition, wait_for_docker_start,
}

unfoldable pub new_state : String → ProviderState
new_state name = record {
  task_states = [];
  name = name;
  petri_tag = append "petri-" name;
  firewall_id = "";
  domain_ids = [];
}

unfoldable pub lift_definition : Result DefinitionError (Unit {0}) → Result Error (Unit {0})
lift_definition (ok u) = ok tt
lift_definition (err e) = err (bad_definition e)

-- The provider-specific configuration, which must not be nil.
abbrev pub config_of : Option (List (String × String)) → Result Error (List (String × String))
config_of none = err no_config
config_of (some config) = ok config

abbrev pub or_none : Option (List (String × String)) → List (String × String)
or_none none = []
or_none (some config) = config

unfoldable pub task_state : ProviderState → TaskDefinition → String → TaskState
unfolding resource_name
task_state p d id = record {
  id = id;
  name = resource_name p d;
  tailscale_hostname = resource_name p d;
  definition = d;
  status = stopped;
  provider_name = p.name;
}

-- A new cell for the state, and the cell in the map under the droplet's id.
unfoldable pub register : TaskState → World → World
unfolding update_cell insert
register t w = record w {
  cells = update_cell w.cells w.next t;
  next = suc w.next;
  provider = record w.provider { task_states = insert t.id w.next w.provider.task_states };
}

unfoldable pub container_options : ProviderState → TaskDefinition → ContainerOptions
unfolding resource_name join
container_options p d = record {
  name = resource_name p d;
  hostname = resource_name p d;
  image = d.image.image;
  entrypoint = d.entrypoint;
  command = d.command;
  environment = d.environment;
  labels =
      ("petri-provider", p.name)
      ∷ ("petri-ports", join "," d.ports)
      ∷ ("petri-node-name", d.name)
      ∷ [];
  mounts = ("/docker_volumes", d.data_dir) ∷ [];
  network_mode = "host";
}

unfoldable pub add_domain_id : ℕ → World → World
add_domain_id id w = record w {
  provider = record w.provider { domain_ids = w.provider.domain_ids ++ (id ∷ []) };
}

unfoldable pub set_firewall : String → World → World
set_firewall id w = record w { provider = record w.provider { firewall_id = id } }

module _ (c : Cloud) where
  -- `NewProviderWithClient` after the state is made.
  unfoldable pub new_provider : DigitalOcean (Unit {0})
  unfolding validate_tailscale firewall_request set_firewall
  new_provider = do
    lift (validate_tailscale c.tailscale)
    p ← gets (λ w. w.provider)
    request c (create_tag p.petri_tag)
    id ← request c (create_firewall (firewall_request p))
    modify (set_firewall id)

  abbrev pub telemetry_commands :
      Option (String → String → Result Error (List String))
      → String
      → String
      → Result Error (List String)
  telemetry_commands none provider node = ok []
  telemetry_commands (some commands) provider node = commands provider node

  -- p.CreateDroplet
  unfoldable pub create_own_droplet : TaskDefinition → DigitalOcean Droplet
  unfolding validate_task lift_definition validate_config get_command resource_name droplet_request
  create_own_droplet d = do
    lift (lift_definition (validate_task d))
    let config = or_none d.provider_specific_config
    lift (validate_config config)
    p ← gets (λ w. w.provider)
    telemetry ← lift (telemetry_commands c.telemetry p.name d.name)
    request c (
        create_droplet
          (droplet_request p d config (get_command c.tailscale (resource_name p d) ∷ telemetry)))

  -- Failures of the peer's lookup are tried again.
  unfoldable pub peer_found : ℕ → DigitalOcean Bool
  unfolding get_tailscale_peer
  peer_found t w = (
    elim (get_tailscale_peer c t w).0 [ ok p ↦ ok true | err e ↦ ok false ],
    (get_tailscale_peer c t w).1,
  )

  -- The client that was passed for the task's name, or a new one.
  unfoldable pub connect_docker : String → String → DigitalOcean Daemon
  connect_docker name addr =
      if c.has_override name
      then pure (given name)
      else (do request c (dial_docker addr); pure (dialed addr))

  abbrev pub on_failure :
      Result Error (Unit {0}) → (Error → DigitalOcean (Unit {0})) → DigitalOcean (Unit {0})
  on_failure (ok u) f w = (ok tt, w)
  on_failure (err e) f w = f e w

  -- Up to `retries` pulls, each failure followed by two seconds; the last failure counts.
  unfoldable pub pull_image : ℕ → Error → Daemon → String → String → DigitalOcean (Unit {0})
  unfolding request
  pull_image zero last d image auth = raise last
  pull_image (suc retries) last d image auth = λ w.
      let again : Error → DigitalOcean (Unit {0}) =
        λ e. request c (sleep 2000) >> pull_image retries e d image auth in
      on_failure (c.answer w.log (image_pull d image auth)) again
        (request c (image_pull d image auth) w).1

  abbrev pub registry_auth : TaskDefinition → String
  registry_auth d =
      if is_ecr_image d.image.image
      then value_of "docker_auth" (or_none d.provider_specific_config)
      else ""

  unfoldable pub ensure_image : Daemon → TaskDefinition → DigitalOcean (Unit {0})
  unfolding pull_image request
  ensure_image daemon d w =
      on_failure (c.answer w.log (image_inspect daemon d.image.image))
        (λ e. pull_image 5 e daemon d.image.image (registry_auth d))
        (request c (image_inspect daemon d.image.image) w).1

  abbrev pub created_or_retry : Result Error String → Result Error Bool
  created_or_retry (ok id) = ok true
  created_or_retry (err connection_failed) = ok false
  created_or_retry (err e) = err e

  -- One attempt; a connection that failed is tried again.
  unfoldable pub container_created : Daemon → ContainerOptions → DigitalOcean Bool
  unfolding request
  container_created daemon o w = (
    created_or_retry (c.answer w.log (container_create daemon o)),
    (request c (container_create daemon o) w).1,
  )

  -- `CreateTask` once the droplet is there and its state is stored in the cell `t`.
  unfoldable pub prepare_task : ℕ → ℕ → TaskDefinition → DigitalOcean Task
  unfolding peer_found wait_for_condition get_ip connect_docker wait_for_docker_start ensure_image
      container_created container_options
  prepare_task fuel t d = do
    wait_for_condition c fuel 900000 5000 (peer_found t)
    addr ← get_ip c t
    name ← gets (λ w. (w.cells t).name)
    daemon ← connect_docker name addr
    let task : Task = record { cell = t; daemon = daemon }
    wait_for_docker_start c fuel task
    ensure_image daemon d
    p ← gets (λ w. w.provider)
    wait_for_condition c fuel 30000 1000 (container_created daemon (container_options p d))
    pure task

  unfoldable pub create_task : ℕ → TaskDefinition → DigitalOcean Task
  unfolding create_own_droplet task_state register prepare_task validate_task lift_definition
      validate_config
  create_task fuel d = do
    lift (lift_definition (validate_task d))
    config ← lift (config_of d.provider_specific_config)
    lift (validate_config config)
    droplet ← create_own_droplet d
    p ← gets (λ w. w.provider)
    cell ← gets (λ w. w.next)
    modify (register (task_state p d (c.itoa droplet.id)))
    prepare_task fuel cell d

  -- `DeserializeTask`: a cell of its own, which the provider does not know.
  unfoldable pub deserialize_task : TaskState → DigitalOcean Task
  unfolding update_cell get_ip
  deserialize_task s = do
    t ← gets (λ w. w.next)
    modify (λ w. record w { cells = update_cell w.cells w.next s; next = suc w.next })
    (if c.has_override s.name then pure (record { cell = t; daemon = given s.name }) else (do
      addr ← get_ip c t
      request c (dial_docker addr)
      pure (record { cell = t; daemon = dialed addr })))

  unfoldable pub create_each_domain : List (String × String) → DigitalOcean (Unit {0})
  unfolding add_domain_id
  create_each_domain [] = pure tt
  create_each_domain ((name, addr) ∷ rest) = do
    id ← request c (create_domain c.domain name addr)
    modify (add_domain_id id)
    create_each_domain rest

  -- The map of domains is a list in the order in which it is ranged over.
  unfoldable pub create_domains : List (String × String) → DigitalOcean (Unit {0})
  unfolding create_each_domain
  create_domains domains = if str_eq c.domain "" then pure tt else create_each_domain domains

  unfoldable pub teardown_tasks : DigitalOcean (Unit {0})
  teardown_tasks = do p ← gets (λ w. w.provider); request c (delete_droplets_by_tag p.petri_tag)

  abbrev pub is_missing : Result Error (Unit {0}) → Bool
  is_missing (err resource_not_found) = true
  is_missing _ = false

  -- A firewall that is not found is gone; after any other answer it is deleted.
  unfoldable pub teardown_firewall : DigitalOcean (Unit {0})
  unfolding request
  teardown_firewall w =
      if is_missing (c.answer w.log (get_firewall w.provider.firewall_id))
      then (ok tt, (request c (get_firewall w.provider.firewall_id) w).1)
      else request c (delete_firewall w.provider.firewall_id)
          (request c (get_firewall w.provider.firewall_id) w).1

  unfoldable pub teardown_tag : DigitalOcean (Unit {0})
  teardown_tag = do p ← gets (λ w. w.provider); request c (delete_tag p.petri_tag)

  -- `errors.Join` starts from the new failure each time, so only the latest one is kept.
  abbrev pub latest :
      Result Error (Unit {0}) → ℕ → Result Error (Unit {0}) → Result Error (Unit {0})
  latest last id (ok u) = last
  latest last id (err e) = err (delete_domain_failed id)

  unfoldable pub delete_domains : Result Error (Unit {0}) → List ℕ → DigitalOcean (Unit {0})
  unfolding request
  delete_domains last [] = lift last
  delete_domains last (id ∷ ids) = λ w.
      delete_domains (latest last id (c.answer w.log (delete_domain c.domain id))) ids
        (request c (delete_domain c.domain id) w).1

  unfoldable pub teardown_domains : DigitalOcean (Unit {0})
  unfolding delete_domains
  teardown_domains = do
    p ← gets (λ w. w.provider)
    (if str_eq c.domain "" then pure tt else delete_domains (ok tt) p.domain_ids)

  unfoldable pub teardown : DigitalOcean (Unit {0})
  unfolding teardown_tasks teardown_firewall teardown_tag teardown_domains
  teardown = do teardown_tasks; teardown_firewall; teardown_tag; teardown_domains
