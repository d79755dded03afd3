-- ===== src/DigitalOcean/Task.antt =====
-- petri/core/provider/digitalocean/task.go, droplet.go and tailscale.go: the operations of one task. A
-- poll loop takes fuel, one unit for each poll; its deadline is counted by `expired`. Files on the droplet
-- and the dialers are not here; `Modify` and `DownloadDir` panic in the source.
use Prim.Native.String.{◌++◌ as append}
use ironbird.Base.{
  ℕ, zero, suc, String, Bool, true, false, not, Option, none, some, List, [], ◌∷◌, str_eq,
  if◌then◌else◌,
}
use ironbird.Base.Action.{Result, ok, err, pure, raise, lift, gets, modify, ◌>>=◌, ◌>>◌}
use ironbird.Definition.{TaskStatus, running, stopped}
use ironbird.Docker.Types.{delete}
use ironbird.Docker.Task.{status_of, same_status}
use ironbird.DigitalOcean.Types.{
  World, DigitalOcean, Task, Cloud, Error, no_peer, no_address, bad_task_id, no_container,
  timed_out, out_of_fuel, Peer, Droplet, Daemon, get_droplet, delete_droplet, tailscale_status,
  ping, close, container_list, container_start, container_stop, container_inspect, sleep, request,
  update_cell,
}

unfoldable pub find_peer : String → List Peer → Result Error Peer
find_peer host [] = err no_peer
find_peer host (p ∷ ps) = if str_eq p.host_name host then ok p else find_peer host ps

abbrev pub first_address : List String → Result Error String
first_address [] = err no_address
first_address (ip ∷ ips) = ok ip

-- A list of exactly one container.
abbrev pub only_container : List String → Result Error String
only_container (id ∷ []) = ok id
only_container _ = err no_container

abbrev pub to_id : Option ℕ → Result Error ℕ
to_id none = err bad_task_id
to_id (some n) = ok n

unfoldable pub set_status : ℕ → TaskStatus → World → World
unfolding update_cell
set_status t s w = record w { cells = update_cell w.cells t (record (w.cells t) { status = s }) }

-- p.removeTask
unfoldable pub remove_task : String → World → World
remove_task id w = record w {
  provider = record w.provider { task_states = delete id w.provider.task_states };
}

module _ (c : Cloud) where
  unfoldable pub get_tailscale_peer : ℕ → DigitalOcean Peer
  unfolding find_peer
  get_tailscale_peer t = do
    peers ← request c tailscale_status
    host ← gets (λ w. (w.cells t).tailscale_hostname)
    lift (find_peer host peers)

  unfoldable pub get_ip : ℕ → DigitalOcean String
  unfolding get_tailscale_peer
  get_ip t = do peer ← get_tailscale_peer t; lift (first_address peer.addresses)

  unfoldable pub get_external_address : ℕ → String → DigitalOcean String
  unfolding get_ip
  get_external_address t port = do addr ← get_ip t; pure (append addr (append ":" port))

  unfoldable pub droplet_of : ℕ → DigitalOcean Droplet
  droplet_of t = do
    id ← gets (λ w. c.atoi (w.cells t).id)
    n ← lift (to_id id)
    request c (get_droplet n)

  unfoldable pub get_private_ip : ℕ → DigitalOcean String
  unfolding droplet_of
  get_private_ip t = do d ← droplet_of t; lift d.private_ip

  unfoldable pub container_of : Daemon → DigitalOcean String
  container_of d = do ids ← request c (container_list d); lift (only_container ids)

  unfoldable pub get_status : Task → DigitalOcean TaskStatus
  unfolding droplet_of container_of status_of
  get_status t = do
    d ← droplet_of t.cell
    (if not (str_eq d.status "active") then pure stopped else (do
      id ← container_of t.daemon
      info ← request c (container_inspect t.daemon id)
      pure (status_of info.status)))

  -- util.WaitForCondition: the deadline, the pause, and then the condition.
  unfoldable pub wait_for_condition : ℕ → ℕ → ℕ → DigitalOcean Bool → DigitalOcean (Unit {0})
  wait_for_condition zero deadline pause condition = raise out_of_fuel
  wait_for_condition (suc fuel) deadline pause condition = do
    let rest = wait_for_condition fuel deadline pause condition
    over ← gets (λ w. c.expired w.log deadline)
    (if over
        then raise timed_out
        else (do request c (sleep pause); reached ← condition; (if reached then pure tt else rest)))

  unfoldable pub is_running : Task → DigitalOcean Bool
  unfolding get_status set_status
  is_running t = do
    s ← get_status t
    (if same_status s running
        then (do modify (set_status t.cell running); pure true)
        else pure false)

  unfoldable pub start : ℕ → Task → DigitalOcean (Unit {0})
  unfolding container_of wait_for_condition is_running
  start fuel t = do
    id ← container_of t.daemon
    request c (container_start t.daemon id)
    wait_for_condition fuel 300000 100 (is_running t)

  -- The status is recorded before the container is stopped.
  unfoldable pub stop : Task → DigitalOcean (Unit {0})
  unfolding container_of set_status
  stop t = do
    id ← container_of t.daemon
    modify (set_status t.cell stopped)
    request c (container_stop t.daemon id)

  unfoldable pub delete_own_droplet : ℕ → DigitalOcean (Unit {0})
  unfolding droplet_of
  delete_own_droplet t = do d ← droplet_of t; request c (delete_droplet d.id)

  unfoldable pub destroy_steps : ℕ → DigitalOcean (Unit {0})
  unfolding delete_own_droplet remove_task
  destroy_steps t = do
    delete_own_droplet t
    id ← gets (λ w. (w.cells t).id)
    modify (remove_task id)

  -- The Docker client is closed at the end, whatever happened.
  unfoldable pub destroy : Task → DigitalOcean (Unit {0})
  unfolding destroy_steps request
  destroy t w =
      ((destroy_steps t.cell w).0, (request c (close t.daemon) (destroy_steps t.cell w).1).1)

  -- A round of the wait for the Docker daemon.
  unfoldable pub docker_started : Task → DigitalOcean Bool
  unfolding droplet_of get_ip request
  docker_started t = do
    d ← droplet_of t.cell
    (if not (str_eq d.status "active") then pure false else (do
      get_ip t.cell
      λ w. (
        elim (c.answer w.log (ping t.daemon)) [ ok u ↦ ok true | err e ↦ ok false ],
        (request c (ping t.daemon) w).1,
      )))

  unfoldable pub wait_for_docker_start : ℕ → Task → DigitalOcean (Unit {0})
  unfolding wait_for_condition docker_started
  wait_for_docker_start fuel t = wait_for_condition fuel 600000 300 (docker_started t)
