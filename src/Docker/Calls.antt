-- ===== src/Docker/Calls.antt =====
-- petri/core/provider/docker: the calls that leave the state of the provider and of its tasks alone.
use ironbird.Base.{ℕ, zero, suc, String, Bool, true, false, List, [], ◌∷◌}
use ironbird.Base.Action.{Result, ok, err}
use ironbird.Definition.{TaskDefinition, TaskStatus, VolumeDefinition}
use ironbird.Docker.Types.{
  TaskState, Docker, Client, Error, ContainerOptions, ContainerInfo, WaitInfo,
}
use ironbird.Docker.Network.{
  pull_image, create_container, remove_container, ensure_network, next_available_ip,
  generate_port_bindings, create_volume, set_volume_owner, existing_or_new, after_inspection,
  fail_after, wait_outcome, start_outcome,
}
use ironbird.Docker.Task.{get_status, wait_round, wait_for_status}
use ironbird.Docker.Provider.{image_outcome, ensure_image, make_volume}
use ironbird.Docker.Quiet.{
  Quiet, Quiet-request, Quiet-pure, Quiet-raise, Quiet-lift, Quiet-gets, Quiet-if, Quiet-bind,
  Quiet-observe, Quiet-ignore, Quiet-logged,
}

module _ (c : Client) where
  pub pull_image-Quiet : (image auth : String) → Quiet (pull_image c image auth)
  unfolding pull_image
  pull_image-Quiet image auth = Quiet-request _ _

  pub create_container-Quiet : (o : ContainerOptions) → Quiet (create_container c o)
  unfolding create_container
  create_container-Quiet o = Quiet-request _ _

  pub remove_container-Quiet : (id : String) → Quiet (remove_container c id)
  unfolding remove_container
  remove_container-Quiet id = Quiet-request _ _

  pub next_available_ip-Quiet : Quiet (next_available_ip c)
  unfolding next_available_ip
  next_available_ip-Quiet = Quiet-request _ _

  pub ensure_network-Quiet : Quiet (ensure_network c)
  unfolding ensure_network
  ensure_network-Quiet = Quiet-bind _ _ (Quiet-gets _) (λ id.
      Quiet-bind _ _ (Quiet-request _ _) (λ n. Quiet-bind _ _ (Quiet-gets _) (λ w. Quiet-lift _)))

  pub generate_port_bindings-Quiet : (ports : List String) → Quiet (generate_port_bindings c ports)
  unfolding generate_port_bindings
  generate_port_bindings-Quiet [] = Quiet-pure _
  generate_port_bindings-Quiet (port ∷ ports) = Quiet-bind _ _ (Quiet-request _ _) (λ host.
      Quiet-bind _ _ (Quiet-request _ _)
        (λ u. Quiet-bind _ _ (generate_port_bindings-Quiet ports) (λ rest. Quiet-pure _)))

  existing_or_new-Quiet :
      (v : VolumeDefinition) (r : Result Error String) → Quiet (existing_or_new c v r)
  unfolding existing_or_new
  existing_or_new-Quiet v (ok name) = Quiet-pure _
  existing_or_new-Quiet v (err e) = Quiet-bind _ _ (Quiet-gets _) (λ label. Quiet-request _ _)

  create_volume-Quiet : (v : VolumeDefinition) → Quiet (create_volume c v)
  unfolding create_volume
  create_volume-Quiet v =
      Quiet-bind _ _ (Quiet-lift _)
        (λ u. Quiet-bind _ _ (Quiet-observe _ _) (λ found. existing_or_new-Quiet v found))

  after_inspection-Quiet :
      (id : String) (r : Result Error ContainerInfo) → Quiet (after_inspection c id r)
  unfolding after_inspection
  after_inspection-Quiet id (ok info) = Quiet-request _ _
  after_inspection-Quiet id (err e) = Quiet-if _ _ _ (Quiet-pure _) (Quiet-request _ _)

  fail_after-Quiet : (id : String) (e : Error) → Quiet (fail_after c id e)
  unfolding fail_after
  fail_after-Quiet id e =
      Quiet-bind _ _
        (Quiet-bind _ _ (Quiet-observe _ _)
          (λ found. Quiet-ignore _ (after_inspection-Quiet id found)))
        (λ u. Quiet-raise e)

  wait_outcome-Quiet :
      (id : String) (done : Bool) (r : Result Error WaitInfo) → Quiet (wait_outcome c id done r)
  unfolding wait_outcome
  wait_outcome-Quiet id true r = fail_after-Quiet id _
  wait_outcome-Quiet id false (err e) = fail_after-Quiet id e
  wait_outcome-Quiet id false (ok info) = Quiet-lift _

  start_outcome-Quiet : (id : String) (r : Result Error (Unit {0})) → Quiet (start_outcome c id r)
  unfolding start_outcome
  start_outcome-Quiet id (err e) = fail_after-Quiet id e
  start_outcome-Quiet id (ok u) =
      Quiet-bind _ _ (Quiet-observe _ _)
        (λ answer. Quiet-bind _ _ (Quiet-gets _) (λ done. wait_outcome-Quiet id done answer))

  set_volume_owner-Quiet : (volume uid gid : String) → Quiet (set_volume_owner c volume uid gid)
  unfolding set_volume_owner
  set_volume_owner-Quiet volume uid gid = Quiet-bind _ _ (Quiet-gets _) (λ builder.
      Quiet-bind _ _ (Quiet-request _ _) (λ u. Quiet-bind _ _ (Quiet-gets _) (λ options.
        Quiet-bind _ _ (Quiet-request _ _)
          (λ id. Quiet-bind _ _ (Quiet-observe _ _) (start_outcome-Quiet id)))))

  pub ensure_image-Quiet : (d : TaskDefinition) → Quiet (ensure_image c d)
  unfolding ensure_image
  ensure_image-Quiet d = Quiet-bind _ _ (Quiet-observe _ _) outcome
    where
      outcome : (r : Result Error (Unit {0})) → Quiet (image_outcome c d r)
      outcome (ok u) = Quiet-pure _
      outcome (err e) = pull_image-Quiet _ _

  pub make_volume-Quiet : (d : TaskDefinition) (t : TaskState) → Quiet (make_volume c d t)
  unfolding make_volume
  make_volume-Quiet d t = Quiet-if _ _ _ (Quiet-pure _) (
      Quiet-bind _ _ (create_volume-Quiet _)
        (λ n. Quiet-bind _ _ (set_volume_owner-Quiet _ _ _) (λ u. Quiet-pure _)))

  get_status-Quiet : (t : ℕ) → Quiet (get_status c t)
  unfolding get_status
  get_status-Quiet t =
      Quiet-bind _ _ (Quiet-gets _)
        (λ id. Quiet-bind _ _ (Quiet-request _ _) (λ info. Quiet-pure _))

  wait_round-Quiet :
      (t : ℕ) (desired : TaskStatus) (done : Bool) (rest : Docker (Unit {0}))
      → Quiet rest
      → Quiet (wait_round c t desired done rest)
  unfolding wait_round
  wait_round-Quiet t desired true rest q = Quiet-raise _
  wait_round-Quiet t desired false rest q =
      Quiet-bind _ _ (get_status-Quiet t)
        (λ s. Quiet-if _ _ _ (Quiet-pure _) (Quiet-bind _ _ (Quiet-logged _) (λ u. q)))

  pub wait_for_status-Quiet :
      (fuel t : ℕ) (desired : TaskStatus) → Quiet (wait_for_status c fuel t desired)
  unfolding wait_for_status
  wait_for_status-Quiet zero t desired = Quiet-raise _
  wait_for_status-Quiet (suc fuel) t desired =
      Quiet-bind _ _ (Quiet-gets _)
        (λ done. wait_round-Quiet t desired done _ (wait_for_status-Quiet fuel t desired))
