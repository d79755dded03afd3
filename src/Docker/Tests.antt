-- ===== src/Docker/Tests.antt =====
-- A Docker that answers everything, with a pool of four addresses: runs, and the theorems at concrete
-- inputs.
use ironbird.Base.{
  ℕ, zero, suc, ◌≡◌, ◌≢◌, refl, inl, inr, String, Bool, true, false, none, some, List, [], ◌∷◌,
  ◌||◌, arith, leb, str_eq, eq_iff, if◌then◌else◌, Bool-cases, length, NotIn,
}
use ironbird.Base.Action.{Result, ok, err, modify, pure, ◌>>=◌}
use ironbird.Definition.{
  TaskDefinition, running, stopped, validate_task, validate_image, parse_uint, validate_ports,
  validate_port, validate_volume,
}
use ironbird.Docker.Types.{
  World, TaskState, ProviderState, Client, Error, client, out_of_fuel, allocate, request, observe,
  ignore,
}
use ironbird.Docker.Network.{
  init_network, inspect_network, remove_container, destroy_volume, destroy_network, ensure_network,
  pull_image, generate_port_bindings, create_volume, set_volume_owner, create_container,
  next_available_ip,
}
use ironbird.Docker.Task.{start, stop, wait_for_status}
use ironbird.Docker.Provider.{
  restore_provider, teardown, create_provider, record_network, create_allocator, allocator_outcome,
  allocate_ip,
}
use ironbird.Docker.Quiet.{taken, SameState}
use ironbird.Docker.Owned.{IsOwned, addresses}
use ironbird.Docker.Addresses.{
  AllocatesFresh, Operation, creates, starts, destroys, run, perform, run-IsOwned,
}
use ironbird.Docker.Restore.{restore_provider-IsOwned}
use ironbird.Docker.Waiting.{Recorded, start-Recorded, stop-Recorded}
use ironbird.Docker.Ending.{wait_for_status_ends}
use ironbird.Docker.Torn.{Torn, teardown-Torn}

abbrev among : String → List String → Bool
among x [] = false
among x (y ∷ ys) = str_eq x y || among x ys

NotIn_lem : (x : String) (ys : List String) → among x ys ≡ false → NotIn x ys
NotIn_lem x [] h = tt
NotIn_lem x (y ∷ ys) h = (ground (arith, eq_iff x y), NotIn_lem x ys (ground arith))

-- The first address that is not given out.
first_free : List String → List String → Result Error String
first_free [] given = err (client "no address left")
first_free (ip ∷ ips) given =
    let rest = first_free ips given in if among ip given then rest else ok ip

first_free_lem :
    (pool given : List String) (ip : String) → first_free pool given ≡ ok ip → NotIn ip given
unfolding first_free
first_free_lem [] given ip e = ground arith
first_free_lem (x ∷ pool) given ip e = elim (Bool-cases (among x given)) [
  | inl used ↦ first_free_lem pool given ip (rw used at e)
  | inr free ↦ NotIn_lem ip given (ground arith)
]

abbrev healthy : Client
healthy = record {
  pinged = λ l. ok tt;
  network_created = λ l o. ok "n1";
  network_inspected = λ l id.
      ok (record { id = "n1"; name = "petri-test"; ipam = ("192.1.2.0/24", "192.1.2.1") ∷ [] });
  network_removed = λ l id. ok tt;
  image_pulled = λ l i a. ok tt;
  image_inspected = λ l i. ok tt;
  container_created = λ l o. ok o.name;
  container_started = λ l id. ok tt;
  container_stopped = λ l id. ok tt;
  container_removed = λ l id. ok tt;
  container_inspected = λ l id. ok (record { name = id; status = "running" });
  container_waited = λ l id. ok (record { failure = none; exit_code = 0 });
  volume_created = λ l n v. ok n;
  volume_inspected = λ l n. ok n;
  volume_removed = λ l n. ok tt;
  port_opened = λ l. ok "40000";
  port_closed = λ l. ok tt;
  allocator_made = λ l cidr. ok tt;
  allocated = λ l ip. if among ip (taken l) then err (client "taken") else ok tt;
  next_allocated =
      λ l. first_free ("192.1.2.1" ∷ "192.1.2.2" ∷ "192.1.2.3" ∷ "192.1.2.4" ∷ []) (taken l);
  ctx_canceled = λ l. leb 60 (length l);
  random_255 = λ l n. n;
  time_text = λ l. "now";
  ℕ_text = λ n. "1";
  parse_cidr = λ s. some s;
}

healthy-AllocatesFresh : AllocatesFresh healthy
healthy-AllocatesFresh = record {
  next_fresh = λ l ip. first_free_lem _ (taken l) ip;
  given_fresh = λ l ip u e. NotIn_lem ip (taken l) (free_lem (among ip (taken l)) u e);
}
  where
    the_ok : Unit {0} → Result Error (Unit {0})
    the_ok u = ok u

    free_lem :
        (b : Bool) (u : Unit {0})
        → (if b then err (client "taken") else ok tt) ≡ the_ok u
        → b ≡ false
    free_lem true u e = ground arith
    free_lem false u e = refl

abbrev node : String → TaskDefinition
node name = record {
  name = name;
  image = record { image = "simapp"; uid = "1000"; gid = "1000" };
  ports = "26657" ∷ "9090" ∷ [];
  environment = [];
  data_dir = "/data";
  entrypoint = [];
  command = "start" ∷ [];
  args = [];
  provider_specific_config = none;
}

abbrev provider : List (String × ℕ) → ProviderState
provider tasks = record {
  task_states = tasks;
  name = "test";
  network_id = "n1";
  network_name = "petri-test";
  network_cidr = "192.1.2.0/24";
  network_gateway = "192.1.2.1";
  builder_image_name = "busybox:latest";
}

abbrev task : String → String → TaskState
task id ip = record {
  id = id;
  name = id;
  volume = some (record { name = id; size = "10GB" });
  definition = node id;
  status = stopped;
  ip_address = ip;
  builder_image_name = "busybox:latest";
  network_name = "petri-test";
  port_bindings = [];
}

-- A provider without tasks, whose gateway has its address.
abbrev fresh_world : World
fresh_world = record {
  log = allocate "192.1.2.1" (ok tt) ∷ [];
  cells = λ t. task "" "";
  next = 0;
  provider = provider [];
}

-- A provider with two tasks, as it is stored.
abbrev stored_world : World
stored_world = record {
  log = [];
  cells = λ t. elim t [ zero ↦ task "a" "192.1.2.2" | suc n ↦ task "b" "192.1.2.3" ];
  next = 2;
  provider = provider (("a", 0) ∷ ("b", 1) ∷ []);
}

abbrev operations : List Operation
operations =
    creates (node "a") ∷ creates (node "b") ∷ starts 9 0 ∷ destroys 0 ∷ creates (node "c") ∷ []

created :
    addresses (run healthy (creates (node "a") ∷ creates (node "b") ∷ []) fresh_world)
    ≡ ("192.1.2.1" ∷ "192.1.2.2" ∷ "192.1.2.3" ∷ [])
unfolding run perform first_free taken ◌>>=◌ validate_task validate_image parse_uint validate_ports
    validate_port pull_image request observe generate_port_bindings create_volume validate_volume
    set_volume_owner ignore create_container next_available_ip modify
created = refl

run-IsOwned_example :
    IsOwned (run healthy operations (create_provider healthy "test" stored_world).1)
unfolding create_provider init_network inspect_network record_network create_allocator
    allocator_outcome allocate_ip taken ◌>>=◌ request observe modify pure
run-IsOwned_example = run-IsOwned healthy healthy-AllocatesFresh "test" operations stored_world refl

restore_provider-IsOwned_example :
    IsOwned (restore_provider healthy stored_world).1
    × SameState stored_world (restore_provider healthy stored_world).1
unfolding restore_provider taken ◌>>=◌ request ensure_network
restore_provider-IsOwned_example =
    restore_provider-IsOwned healthy healthy-AllocatesFresh stored_world
      (omega arith, (omega arith, tt)) refl

start-Recorded_example :
    Recorded 0 running stored_world
      (start healthy 9 0 stored_world).0
      (start healthy 9 0 stored_world).1
start-Recorded_example = start-Recorded healthy 0 9 stored_world

stop-Recorded_example :
    Recorded 0 stopped stored_world
      (stop healthy 9 0 stored_world).0
      (stop healthy 9 0 stored_world).1
stop-Recorded_example = stop-Recorded healthy 0 9 stored_world

wait_for_status_ends_example :
    (wait_for_status healthy 61 0 stopped stored_world).0 ≢ err out_of_fuel
wait_for_status_ends_example =
    wait_for_status_ends healthy 0 60 stopped (λ l h. ground arith) (λ l id e p q. ground arith) 61
      stored_world (omega arith)

teardown-Torn_example : Torn stored_world (teardown healthy stored_world).1
unfolding teardown ◌>>=◌ request remove_container destroy_volume destroy_network
teardown-Torn_example = teardown-Torn healthy stored_world refl
