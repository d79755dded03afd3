-- ===== src/Docker/Task.antt =====
-- petri/core/provider/docker/task.go: the operations of one task, whose state is in the cell `t`.
-- A wait loop takes fuel; each round asks once for the status. `Modify` panics in the source and
-- `DialContext` is a dialer, so neither is here.
use Prim.Native.String.{◌++◌ as append}
use ironbird.Base.{
  ℕ, zero, suc, String, Bool, true, false, not, Option, none, some, List, [], ◌∷◌, ◌==◌, str_eq,
  if◌then◌else◌,
}
use ironbird.Base.Action.{Result, ok, err, pure, raise, gets, modify, ◌>>=◌, ◌>>◌}
use ironbird.Definition.{TaskStatus, undefined, running, stopped, paused, restarting}
use ironbird.Docker.Types.{
  World, TaskState, Docker, Client, Error, ctx_done, out_of_fuel, port_not_found, status_mismatch,
  name_mismatch, volume_mismatch, ContainerInfo, container_start, container_stop, container_remove,
  container_inspect, volume_inspect, sleep, request, update, delete,
}

abbrev pub status_code : TaskStatus → ℕ
status_code undefined = 0
status_code running = 1
status_code stopped = 2
status_code paused = 3
status_code restarting = 4

abbrev pub same_status : TaskStatus → TaskStatus → Bool
same_status a b = status_code a == status_code b

-- The switch of `GetStatus`.
unfoldable pub status_of : String → TaskStatus
status_of text =
    if str_eq text "created"
    then stopped
    else if str_eq text "running"
    then running
    else if str_eq text "paused"
    then paused
    else if str_eq text "restarting"
    then restarting
    else if str_eq text "removing"
    then stopped
    else if str_eq text "exited"
    then stopped
    else if str_eq text "dead"
    then stopped
    else undefined

unfoldable pub find_binding : String → List (String × String) → Option String
find_binding key [] = none
find_binding key ((k, host) ∷ rest) = if str_eq k key then some host else find_binding key rest

-- `state.PortBindings` has the key and a host port for it.
unfoldable pub get_external_address : TaskState → String → Result Error String
unfolding find_binding
get_external_address t port = elim (find_binding (append port "/tcp") t.port_bindings) [
  | none ↦ err port_not_found
  | some host ↦ ok (append "0.0.0.0:" host)
]

-- p.removeTask
unfoldable pub remove_task : String → World → World
remove_task id w = record w {
  provider = record w.provider { task_states = delete id w.provider.task_states };
}

unfoldable pub set_status : ℕ → TaskStatus → World → World
unfolding update
set_status t s w = record w { cells = update w.cells t (record (w.cells t) { status = s }) }

module _ (c : Client) where
  unfoldable pub inspect_container : String → Docker ContainerInfo
  inspect_container id = request (λ l. c.container_inspected l id) (container_inspect id)

  unfoldable pub get_status : ℕ → Docker TaskStatus
  unfolding inspect_container
  get_status t = do
    id ← gets (λ w. (w.cells t).id)
    info ← inspect_container id
    pure (status_of info.status)

  -- A round of `WaitForStatus` ends the loop or sleeps, and then calls the rest of the loop.
  unfoldable pub wait_round : ℕ → TaskStatus → Bool → Docker (Unit {0}) → Docker (Unit {0})
  unfolding get_status
  wait_round t desired true rest = raise ctx_done
  wait_round t desired false rest = do
    s ← get_status t
    (if same_status s desired
        then pure tt
        else do modify (λ w. record w { log = sleep ∷ w.log }); rest)

  unfoldable pub wait_for_status : ℕ → ℕ → TaskStatus → Docker (Unit {0})
  unfolding wait_round
  wait_for_status zero t desired = raise out_of_fuel
  wait_for_status (suc fuel) t desired = do
    let rest = wait_for_status fuel t desired
    done ← gets (λ w. c.ctx_canceled w.log)
    wait_round t desired done rest

  unfoldable pub start : ℕ → ℕ → Docker (Unit {0})
  start fuel t = do
    id ← gets (λ w. (w.cells t).id)
    request (λ l. c.container_started l id) (container_start id)
    wait_for_status fuel t running
    λ w. (ok tt, set_status t running w)

  unfoldable pub stop : ℕ → ℕ → Docker (Unit {0})
  stop fuel t = do
    id ← gets (λ w. (w.cells t).id)
    request (λ l. c.container_stopped l id) (container_stop id)
    wait_for_status fuel t stopped
    λ w. (ok tt, set_status t stopped w)

  unfoldable pub destroy : ℕ → Docker (Unit {0})
  destroy t = do
    id ← gets (λ w. (w.cells t).id)
    request (λ l. c.container_removed l id) (container_remove id)
    λ w. (ok tt, remove_task id w)

  unfoldable pub same_volume : String → String → Docker (Unit {0})
  same_volume name found = if not (str_eq found name) then raise volume_mismatch else pure tt

  unfoldable pub ensure_volume : TaskState → Docker (Unit {0})
  unfolding same_volume
  ensure_volume state = elim state.volume [
    | none ↦ pure tt
    | some v ↦ (do
      found ← request (λ l. c.volume_inspected l v.name) (volume_inspect v.name)
      same_volume v.name found)
  ]

  -- The container must have the status and the name that the state records, and its volume.
  unfoldable pub ensure_task : ℕ → Docker (Unit {0})
  unfolding inspect_container get_status ensure_volume
  ensure_task t = do
    state ← gets (λ w. w.cells t)
    info ← inspect_container state.id
    actual ← get_status t
    (if not (same_status actual state.status)
        then raise status_mismatch
        else if not (str_eq info.name (append "/" state.name))
        then raise name_mismatch
        else ensure_volume state)
