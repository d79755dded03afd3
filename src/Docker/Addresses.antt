-- ===== src/Docker/Addresses.antt =====
-- petri/core/provider/docker: no two tasks share an address, whatever is done in whatever order.
use ironbird.Base.{ℕ, ◌≡◌, refl, inl, String, List, [], ◌∷◌, NotIn}
use ironbird.Base.Action.{Result, ok, err, modify}
use ironbird.Definition.{TaskDefinition, running, stopped}
use ironbird.Docker.Types.{
  World, TaskState, ProviderState, Docker, Client, Error, Log, allocate_next, request,
}
use ironbird.Docker.Task.{start, stop, destroy}
use ironbird.Docker.Network.{next_available_ip}
use ironbird.Docker.Created.{create_provider-IsOwned}
use ironbird.Docker.Provider.{
  create_provider, create_task, place_task, draft_task, stored_task, register,
}
use ironbird.Docker.Quiet.{
  taken, SameState-log, Quiet, Quiet-request, Quiet-gets, Quiet-lift, Quiet-pure,
}
use ironbird.Docker.Calls.{
  pull_image-Quiet, create_container-Quiet, ensure_image-Quiet, make_volume-Quiet,
  generate_port_bindings-Quiet, wait_for_status-Quiet,
}
use ironbird.Base.Triple.{Post, Post-constant, Ensures, Ensures-bind}
use ironbird.Docker.Owned.{
  IsOwned, Ready, addresses, SameState-IsOwned, SameState-Ready, set_status-IsOwned,
  remove_task-IsOwned, register-IsOwned, fresh_lem,
}

-- What the allocator's documentation promises: it gives out no address that is given out already.
pub record AllocatesFresh (c : Client) : Type 0 where
  pub next_fresh : (l : Log) (ip : String) → c.next_allocated l ≡ ok ip → NotIn ip (taken l)
  pub given_fresh :
      (l : Log) (ip : String) (u : Unit {0}) → c.allocated l ip ≡ ok u → NotIn ip (taken l)

Ensures-known : {A : Type 0} (m : Docker A) → Quiet m → Ensures IsOwned IsOwned m (λ _. IsOwned)
Ensures-known m q = record {
  at = λ w o. Post-constant IsOwned IsOwned (m w).0 (m w).1 (λ h. h) (SameState-IsOwned (q.at w) o);
}

Ensures-Ready :
    {A : Type 0} (ip : String) (m : Docker A)
    → Quiet m
    → Ensures IsOwned (Ready ip) m (λ _. Ready ip)
Ensures-Ready ip m q = record {
  at = λ w r.
      Post-constant IsOwned (Ready ip) (m w).0 (m w).1 (λ h. h.known)
        (SameState-Ready ip (q.at w) r);
}

register-Ensures :
    (t : TaskState)
    → Ensures {E = Error} IsOwned (Ready t.ip_address) (modify (register t)) (λ _. IsOwned)
unfolding modify
register-Ensures t = record { at = λ w r. register-IsOwned t r }

module _ (c : Client) (fresh : AllocatesFresh c) where
  next_ip-Ready : Ensures IsOwned IsOwned (next_available_ip c) Ready
  unfolding next_available_ip request taken
  next_ip-Ready = record { at = λ w o. answered w o (c.next_allocated w.log) refl }
    where
      answered :
          (w : World)
          → IsOwned w
          → (r : Result Error String) → c.next_allocated w.log ≡ r
          → Post IsOwned Ready r (record w { log = allocate_next r ∷ w.log })
      answered w o (err e) h = SameState-IsOwned (SameState-log w _) o
      answered w o (ok ip) h = record {
        known = SameState-IsOwned (SameState-log w _) o;
        given = inl refl;
        unused = fresh_lem ip (taken w.log) (addresses w) (fresh.next_fresh w.log ip h) o.owned;
      }

  place_task-IsOwned :
      (p : ProviderState) (d : TaskDefinition)
      → Ensures IsOwned IsOwned (place_task c p d) (λ _. IsOwned)
  unfolding place_task
  place_task-IsOwned p d =
      Ensures-bind _ _ (Ensures-known _ (generate_port_bindings-Quiet c _)) (λ bindings.
        Ensures-bind _ _ (Ensures-known _ (make_volume-Quiet c d (draft_task p d))) (λ volume.
          Ensures-bind _ _ next_ip-Ready (λ ip.
            Ensures-bind _ _ (Ensures-Ready ip _ (create_container-Quiet c _)) (λ id.
              Ensures-bind _ _ (Ensures-Ready ip _ (Quiet-gets _)) (λ cell.
                Ensures-bind {Q = λ _. IsOwned} _ _
                  (register-Ensures (stored_task p d bindings volume.0 ip id))
                  (λ u. Ensures-known _ (Quiet-pure cell)))))))

  create_task-IsOwned :
      (d : TaskDefinition) → Ensures IsOwned IsOwned (create_task c d) (λ _. IsOwned)
  unfolding create_task
  create_task-IsOwned d = Ensures-bind _ _ (Ensures-known _ (Quiet-lift _)) (λ u.
      Ensures-bind _ _ (Ensures-known _ (Quiet-gets _)) (λ p.
        Ensures-bind _ _ (Ensures-known _ (pull_image-Quiet c _ _)) (λ u'.
          Ensures-bind _ _ (Ensures-known _ (ensure_image-Quiet c d))
            (λ u''. place_task-IsOwned p d))))

  start-IsOwned : (fuel t : ℕ) → Ensures IsOwned IsOwned (start c fuel t) (λ _. IsOwned)
  unfolding start
  start-IsOwned fuel t = Ensures-bind _ _ (Ensures-known _ (Quiet-gets _)) (λ id.
      Ensures-bind _ _ (Ensures-known _ (Quiet-request _ _)) (λ u.
        Ensures-bind _ _ (Ensures-known _ (wait_for_status-Quiet c fuel t running))
          (λ u'. record { at = λ w o. set_status-IsOwned t running o })))

  stop-IsOwned : (fuel t : ℕ) → Ensures IsOwned IsOwned (stop c fuel t) (λ _. IsOwned)
  unfolding stop
  stop-IsOwned fuel t = Ensures-bind _ _ (Ensures-known _ (Quiet-gets _)) (λ id.
      Ensures-bind _ _ (Ensures-known _ (Quiet-request _ _)) (λ u.
        Ensures-bind _ _ (Ensures-known _ (wait_for_status-Quiet c fuel t stopped))
          (λ u'. record { at = λ w o. set_status-IsOwned t stopped o })))

  destroy-IsOwned : (t : ℕ) → Ensures IsOwned IsOwned (destroy c t) (λ _. IsOwned)
  unfolding destroy
  destroy-IsOwned t = Ensures-bind _ _ (Ensures-known _ (Quiet-gets _)) (λ id.
      Ensures-bind _ _ (Ensures-known _ (Quiet-request _ _))
        (λ u. record { at = λ w o. remove_task-IsOwned id o }))

-- What a user of the provider and of its tasks may call.
pub data Operation : Type 0 where
  creates : TaskDefinition → Operation
  starts stops : ℕ → ℕ → Operation
  destroys : ℕ → Operation

unfoldable pub perform : Client → Operation → World → World
unfolding create_task start stop destroy
perform c (creates d) w = (create_task c d w).1
perform c (starts fuel t) w = (start c fuel t w).1
perform c (stops fuel t) w = (stop c fuel t w).1
perform c (destroys t) w = (destroy c t w).1

unfoldable pub run : Client → List Operation → World → World
unfolding perform
run c [] w = w
run c (o ∷ os) w = run c os (perform c o w)

Post-known :
    (A : Type 0) (r : Result Error A) (w : World) → Post IsOwned (λ _. IsOwned) r w → IsOwned w
Post-known A (ok a) w h = h
Post-known A (err e) w h = h

module _ (c : Client) (fresh : AllocatesFresh c) where
  perform-IsOwned : (o : Operation) (w : World) → IsOwned w → IsOwned (perform c o w)
  unfolding perform
  perform-IsOwned (creates d) w h = Post-known _ _ _ ((create_task-IsOwned c fresh d).at w h)
  perform-IsOwned (starts fuel t) w h = Post-known _ _ _ ((start-IsOwned c fresh fuel t).at w h)
  perform-IsOwned (stops fuel t) w h = Post-known _ _ _ ((stop-IsOwned c fresh fuel t).at w h)
  perform-IsOwned (destroys t) w h = Post-known _ _ _ ((destroy-IsOwned c fresh t).at w h)

  run-known : (os : List Operation) (w : World) → IsOwned w → IsOwned (run c os w)
  unfolding run
  run-known [] w h = h
  run-known (o ∷ os) w h = run-known os (perform c o w) (perform-IsOwned o w h)

  -- With an allocator that gives out no address twice: when a provider is created, in any state, and
  -- its creation succeeds, then after any creations, starts, stops and destructions of its tasks, failing
  -- or not, the addresses of its tasks and of its gateway are all different and were all given out by
  -- the allocator.
  pub run-IsOwned :
      (name : String) (os : List Operation) (w : World)
      → (create_provider c name w).0 ≡ ok tt
      → IsOwned (run c os (create_provider c name w).1)
  run-IsOwned name os w e = run-known os _ (create_provider-IsOwned c name w e)
