-- ===== src/Docker/Network.antt =====
-- petri/core/provider/docker/network.go and volume.go (volumes): the network, addresses, ports and
-- volumes of the provider. The locks guard single steps of the model, so they are left out.
use Prim.Native.String.{◌++◌ as append}
use ironbird.Base.{
  zero, suc, String, Bool, true, false, not, none, some, List, [], ◌∷◌, str_eq, if◌then◌else◌,
}
use ironbird.Base.Action.{Result, ok, err, pure, raise, lift, gets, ◌>>=◌, ◌>>◌}
use ironbird.Definition.{VolumeDefinition, validate_volume, DefinitionError}
use ironbird.Docker.Types.{
  World, Docker, Client, Error, bad_definition, bad_ipam_count, id_mismatch, name_mismatch,
  cidr_mismatch, ctx_done, wait_error, bad_exit, is_not_found, NetworkOptions, NetworkInfo,
  ContainerOptions, WaitInfo, network_create, network_inspect, network_remove, open_port,
  close_port, allocate_next, volume_create, volume_inspect, volume_remove, container_create,
  container_start, container_wait, container_inspect, container_remove, image_pull, request,
  observe, ignore, ContainerInfo,
}

module _ (c : Client) where
  unfoldable pub pull_image : String → String → Docker (Unit {0})
  pull_image image auth = request (λ l. c.image_pulled l image auth) (image_pull image auth)

  unfoldable pub create_container : ContainerOptions → Docker String
  create_container o = request (λ l. c.container_created l o) (container_create o)

  unfoldable pub remove_container : String → Docker (Unit {0})
  remove_container id = request (λ l. c.container_removed l id) (container_remove id)

  unfoldable pub inspect_network : String → Docker NetworkInfo
  inspect_network id = request (λ l. c.network_inspected l id) (network_inspect id)

  -- "192.%d.%d" with two numbers drawn below 255
  unfoldable pub subnet_prefix : World → String
  subnet_prefix w =
      append "192."
        (append (c.ℕ_text (c.random_255 w.log 0)) (append "." (c.ℕ_text (c.random_255 w.log 1))))

  unfoldable pub network_options : World → NetworkOptions
  unfolding subnet_prefix
  network_options w = record {
    name = w.provider.network_name;
    label = w.provider.name;
    subnet = append (subnet_prefix w) ".0/24";
    gateway = append (subnet_prefix w) ".1";
  }

  unfoldable pub init_network : Docker NetworkInfo
  unfolding network_options inspect_network
  init_network = do
    options ← gets network_options
    id ← request (λ l. c.network_created l options) (network_create options)
    inspect_network id

  -- The tests of `ensureNetwork` on what the inspection returned.
  unfoldable pub same_network : World → NetworkInfo → Result Error (Unit {0})
  same_network w n =
      if not (str_eq n.id w.provider.network_id)
      then err id_mismatch
      else if not (str_eq n.name w.provider.network_name)
      then err name_mismatch
      else elim n.ipam [
        | [] ↦ err bad_ipam_count
        | config ∷ more ↦ elim more [
          | [] ↦ if not (str_eq config.0 w.provider.network_cidr) then err cidr_mismatch else ok tt
          | other ∷ others ↦ err bad_ipam_count
        ]
      ]

  unfoldable pub ensure_network : Docker (Unit {0})
  unfolding same_network inspect_network
  ensure_network = do
    id ← gets (λ w. w.provider.network_id)
    n ← inspect_network id
    w ← gets (λ w. w)
    lift (same_network w n)

  unfoldable pub destroy_network : Docker (Unit {0})
  destroy_network w =
      request (λ l. c.network_removed l w.provider.network_id)
        (network_remove w.provider.network_id) w

  unfoldable pub next_available_port : Docker String
  next_available_port = request c.port_opened open_port

  unfoldable pub next_available_ip : Docker String
  next_available_ip = request c.next_allocated allocate_next

  -- One binding for each port; its listener is closed at once.
  unfoldable pub generate_port_bindings : List String → Docker (List (String × String))
  unfolding next_available_port
  generate_port_bindings [] = pure []
  generate_port_bindings (port ∷ ports) = do
    host ← next_available_port
    request c.port_closed close_port
    rest ← generate_port_bindings ports
    pure ((port, host) ∷ rest)

  unfoldable pub invalid_volume : Result DefinitionError (Unit {0}) → Result Error (Unit {0})
  invalid_volume (ok u) = ok tt
  invalid_volume (err e) = err (bad_definition e)

  -- A volume that exists is used as it is.
  unfoldable pub existing_or_new : VolumeDefinition → Result Error String → Docker String
  existing_or_new v (ok name) = pure name
  existing_or_new v (err e) = do
    label ← gets (λ w. w.provider.name)
    request (λ l. c.volume_created l v.name label) (volume_create v.name label)

  unfoldable pub create_volume : VolumeDefinition → Docker String
  unfolding invalid_volume existing_or_new
  create_volume v = do
    lift (invalid_volume (validate_volume v))
    found ← observe (λ l. c.volume_inspected l v.name) (volume_inspect v.name)
    existing_or_new v found

  unfoldable pub destroy_volume : String → Docker (Unit {0})
  destroy_volume id = request (λ l. c.volume_removed l id) (volume_remove id)

  unfoldable pub owner_options : World → String → String → String → ContainerOptions
  owner_options w volume uid gid = record {
    name = append "petri-setowner-" (c.time_text w.log);
    image = w.provider.builder_image_name;
    entrypoint = "sh" ∷ "-c" ∷ [];
    command =
        "chown \"$2:$3\" \"$1\" && chmod 0700 \"$1\"" ∷ "_" ∷ "/mnt/dockervolume" ∷ uid ∷ gid ∷ [];
    environment = [];
    labels = ("petri-provider", w.provider.name) ∷ [];
    mounts = (volume, "/mnt/dockervolume") ∷ [];
    port_bindings = [];
    network = none;
    address = none;
    auto_remove = true;
  }

  -- A container that is gone already is not removed again.
  unfoldable pub after_inspection : String → Result Error ContainerInfo → Docker (Unit {0})
  unfolding remove_container
  after_inspection id (ok info) = remove_container id
  after_inspection id (err e) = if is_not_found e then pure tt else remove_container id

  -- The deferred removal of a container that was not seen to end.
  unfoldable pub clean_up : String → Docker (Unit {0})
  unfolding after_inspection
  clean_up id = do
    found ← observe (λ l. c.container_inspected l id) (container_inspect id)
    ignore (after_inspection id found)

  unfoldable pub fail_after : String → Error → Docker (Unit {0})
  unfolding clean_up
  fail_after id e = do clean_up id; raise e

  -- A container that has ended removes itself.
  unfoldable pub finished : WaitInfo → Result Error (Unit {0})
  finished i = elim i.failure [
    | some message ↦ err wait_error
    | none ↦ elim i.exit_code [ zero ↦ ok tt | suc n ↦ err bad_exit ]
  ]

  -- The `select`: a context that is done comes first here, where Go may choose.
  unfoldable pub wait_outcome : String → Bool → Result Error WaitInfo → Docker (Unit {0})
  unfolding fail_after finished
  wait_outcome id true answer = fail_after id ctx_done
  wait_outcome id false (err e) = fail_after id e
  wait_outcome id false (ok info) = lift (finished info)

  unfoldable pub start_outcome : String → Result Error (Unit {0}) → Docker (Unit {0})
  unfolding fail_after wait_outcome
  start_outcome id (err e) = fail_after id e
  start_outcome id (ok u) = do
    answer ← observe (λ l. c.container_waited l id) (container_wait id)
    done ← gets (λ w. c.ctx_canceled w.log)
    wait_outcome id done answer

  unfoldable pub set_volume_owner : String → String → String → Docker (Unit {0})
  unfolding start_outcome pull_image create_container owner_options
  set_volume_owner volume uid gid = do
    builder ← gets (λ w. w.provider.builder_image_name)
    pull_image builder ""
    options ← gets (λ w. owner_options w volume uid gid)
    id ← create_container options
    started ← observe (λ l. c.container_started l id) (container_start id)
    start_outcome id started
