-- ===== src/Docker/Provider.antt =====
-- petri/core/provider/docker/provider.go: creating and restoring the provider, creating a task and
-- tearing everything down. Serialising is the identity on `ProviderState`; restoring starts with an
-- address allocator of its own, so the log of a restored provider is empty.
use Prim.Native.String.{◌++◌ as append}
use ironbird.Base.{ℕ, suc, String, false, Option, none, some, List, [], ◌∷◌, str_eq, if◌then◌else◌}
use ironbird.Base.Action.{Result, ok, err, pure, raise, lift, gets, modify, ◌>>=◌, ◌>>◌}
use ironbird.Definition.{
  TaskDefinition, DefinitionError, validate_task, is_ecr_image, undefined, stopped,
}
use ironbird.Docker.Types.{
  World, TaskState, VolumeState, ProviderState, Docker, Client, Error, bad_definition,
  empty_provider_name, no_ipam_config, bad_cidr, nil_dereference, NetworkInfo, ContainerOptions,
  ping, allocator_new, allocate, image_inspect, request, observe, update, insert,
}
use ironbird.Docker.Network.{
  pull_image, create_container, remove_container, init_network, ensure_network, destroy_network,
  next_available_ip, generate_port_bindings, create_volume, destroy_volume, set_volume_owner,
}

-- convertTaskDefinitionPortsToPortSet: each port once, as a key.
unfoldable pub add_port : String → List String → List String
add_port port [] = port ∷ []
add_port port (p ∷ ports) = if str_eq p port then p ∷ ports else p ∷ add_port port ports

unfoldable pub port_set : List String → List String
unfolding add_port
port_set [] = []
port_set (port ∷ ports) = add_port (append port "/tcp") (port_set ports)

unfoldable pub join_comma : List String → String
join_comma [] = ""
join_comma (p ∷ []) = p
join_comma (p ∷ q ∷ ps) = append p (append "," (join_comma (q ∷ ps)))

unfoldable pub value_of : String → List (String × String) → String
value_of key [] = ""
value_of key ((k, v) ∷ rest) = if str_eq k key then v else value_of key rest

unfoldable pub docker_auth : TaskDefinition → String
unfolding value_of
docker_auth d =
    if is_ecr_image d.image.image
    then elim d.provider_specific_config [ none ↦ "" | some config ↦ value_of "docker_auth" config ]
    else ""

unfoldable pub lift_definition : Result DefinitionError (Unit {0}) → Result Error (Unit {0})
lift_definition (ok u) = ok tt
lift_definition (err e) = err (bad_definition e)

-- The part of a task's state that is known before its container is created.
unfoldable pub draft_task : ProviderState → TaskDefinition → TaskState
draft_task p d = record {
  id = "";
  name = append p.name (append "-" d.name);
  volume = none;
  definition = d;
  status = undefined;
  ip_address = "";
  builder_image_name = p.builder_image_name;
  network_name = "";
  port_bindings = [];
}

-- The state of a task whose container is created.
abbrev pub stored_task :
    ProviderState
    → TaskDefinition
    → List (String × String)
    → Option VolumeState
    → String
    → String
    → TaskState
stored_task p d bindings volume ip id = record (draft_task p d) {
  id = id;
  volume = volume;
  status = stopped;
  network_name = p.network_name;
  ip_address = ip;
  port_bindings = bindings;
}

unfoldable pub container_options :
    ProviderState
    → TaskDefinition
    → TaskState
    → List (String × String)
    → List (String × String)
    → String
    → ContainerOptions
container_options p d t mounts bindings ip = record {
  name = t.name;
  image = d.image.image;
  entrypoint = d.entrypoint;
  command = d.command;
  environment = d.environment;
  labels =
      ("petri-provider", p.name)
      ∷ ("petri-ports", join_comma d.ports)
      ∷ ("petri-node-name", d.name)
      ∷ [];
  mounts = mounts;
  port_bindings = bindings;
  network = some p.network_name;
  address = some ip;
  auto_remove = false;
}

-- Store the finished state in a new cell, and the cell in the map under the container's id.
unfoldable pub register : TaskState → World → World
unfolding update insert
register t w = record w {
  cells = update w.cells w.next t;
  next = suc w.next;
  provider = record w.provider { task_states = insert t.id w.next w.provider.task_states };
}

module _ (c : Client) where
  -- An image that cannot be inspected is pulled.
  unfoldable pub image_outcome : TaskDefinition → Result Error (Unit {0}) → Docker (Unit {0})
  unfolding docker_auth
  image_outcome d (ok u) = pure tt
  image_outcome d (err e) = pull_image c d.image.image (docker_auth d)

  unfoldable pub ensure_image : TaskDefinition → Docker (Unit {0})
  unfolding image_outcome
  ensure_image d = do
    found ← observe (λ l. c.image_inspected l d.image.image) (image_inspect d.image.image)
    image_outcome d found

  -- The data volume and its mount, if the definition names a directory.
  unfoldable pub make_volume :
      TaskDefinition → TaskState → Docker (Option VolumeState × List (String × String))
  make_volume d t = if str_eq d.data_dir "" then pure (none, []) else (do
    let name = append t.name "-data"
    create_volume c (record { name = name; mount_path = d.data_dir; size = "10GB" })
    set_volume_owner c name d.image.uid d.image.gid
    pure (some (record { name = name; size = "10GB" }), (name, d.data_dir) ∷ []))

  -- `CreateTask` after the checks and the pulls; returns the task's cell.
  unfoldable pub place_task : ProviderState → TaskDefinition → Docker ℕ
  unfolding make_volume draft_task container_options register
  place_task p d = do
    bindings ← generate_port_bindings c (port_set d.ports)
    volume ← make_volume d (draft_task p d)
    ip ← next_available_ip c
    id ← create_container c (container_options p d (draft_task p d) volume.1 bindings ip)
    cell ← gets (λ w. w.next)
    modify (register (stored_task p d bindings volume.0 ip id))
    pure cell

  unfoldable pub create_task : TaskDefinition → Docker ℕ
  unfolding lift_definition ensure_image place_task port_set join_comma
  create_task d = do
    lift (lift_definition (validate_task d))
    p ← gets (λ w. w.provider)
    pull_image c p.builder_image_name ""
    ensure_image d
    place_task p d

  -- One task of `Teardown`: its container, then its volume.
  unfoldable pub teardown_task : ℕ → Docker (Unit {0})
  teardown_task t = do
    state ← gets (λ w. w.cells t)
    remove_container c state.id
    elim state.volume [ none ↦ pure tt | some v ↦ destroy_volume c v.name ]

  unfoldable pub teardown_tasks : List (String × ℕ) → Docker (Unit {0})
  unfolding teardown_task
  teardown_tasks [] = pure tt
  teardown_tasks ((k, t) ∷ rest) = do teardown_task t; teardown_tasks rest

  unfoldable pub teardown : Docker (Unit {0})
  unfolding teardown_tasks
  teardown = do tasks ← gets (λ w. w.provider.task_states); teardown_tasks tasks; destroy_network c

  unfoldable pub allocate_ip : String → Docker (Unit {0})
  allocate_ip ip = request (λ l. c.allocated l ip) (allocate ip)

  -- The allocator of a network. The source looks at its error only after it has used it, and a nil
  -- allocator is dereferenced there.
  unfoldable pub allocator_outcome : String → Result Error (Unit {0}) → Docker (Unit {0})
  unfolding allocate_ip
  allocator_outcome gateway (ok u) = allocate_ip gateway
  allocator_outcome gateway (err e) = raise nil_dereference

  unfoldable pub create_allocator : String → String → Docker (Unit {0})
  unfolding allocator_outcome
  create_allocator cidr gateway = do
    made ← observe (λ l. c.allocator_made l cidr) (allocator_new cidr)
    allocator_outcome gateway made

  unfoldable pub record_network : NetworkInfo → Docker (Unit {0})
  unfolding create_allocator
  record_network n = elim n.ipam [
    | [] ↦ raise no_ipam_config
    | config ∷ more ↦ elim (c.parse_cidr config.0) [
      | none ↦ raise bad_cidr
      | some cidr ↦ (do
        modify (λ w. record w {
          provider = record w.provider { network_cidr = cidr; network_gateway = config.1 };
        })
        create_allocator cidr config.1)
    ]
  ]

  unfoldable pub create_provider : String → Docker (Unit {0})
  unfolding record_network
  create_provider name = do
    request c.pinged ping
    (if str_eq name "" then raise empty_provider_name else pure tt)
    modify (λ w. record w {
      provider = record {
        task_states = [];
        name = name;
        network_id = "";
        network_name = append "petri-" name;
        network_cidr = "";
        network_gateway = "";
        builder_image_name = "busybox:latest";
      };
    })
    n ← init_network c
    modify (λ w. record w { provider = record w.provider { network_id = n.id } })
    record_network n

  -- The addresses of all tasks are taken again.
  unfoldable pub restore_addresses : List (String × ℕ) → Docker (Unit {0})
  unfolding allocate_ip
  restore_addresses [] = pure tt
  restore_addresses ((k, t) ∷ rest) = do
    state ← gets (λ w. w.cells t)
    allocate_ip state.ip_address
    restore_addresses rest

  unfoldable pub restore_network : String → Docker (Unit {0})
  unfolding restore_addresses
  restore_network cidr = do
    request (λ l. c.allocator_made l cidr) (allocator_new cidr)
    gateway ← gets (λ w. w.provider.network_gateway)
    allocate_ip gateway
    tasks ← gets (λ w. w.provider.task_states)
    restore_addresses tasks
    ensure_network c

  unfoldable pub restore_provider : Docker (Unit {0})
  unfolding restore_network
  restore_provider = do
    request c.pinged ping
    cidr ← gets (λ w. c.parse_cidr w.provider.network_cidr)
    elim cidr [ none ↦ raise bad_cidr | some net ↦ restore_network net ]
