-- ===== src/Docker/Waiting.antt =====
-- petri/core/provider/docker/task.go: what starting and stopping a task promise, and that the wait for
-- a status ends.
use ironbird.Base.{
  ℕ, zero, suc, ◌≡◌, refl, inl, inr, String, Bool, true, false, ◌∷◌, arith, Bool-cases,
  if◌then◌else◌,
}
use mathlib.Core.Path.{subst}
use ironbird.Base.Action.{Result, ok, err, pure, raise, modify, continue, ◌>>=◌, ◌>>◌}
use ironbird.Definition.{TaskStatus, undefined, running, stopped, paused, restarting}
use ironbird.Docker.Types.{
  World, Docker, Client, Error, Log, ContainerInfo, container_inspect, sleep, request, update,
}
use ironbird.Docker.Task.{
  same_status, status_of, inspect_container, get_status, wait_round, wait_for_status, start, stop,
  set_status,
}
use ironbird.Docker.Quiet.{SameState, SameState-trans, SameState-log}
use ironbird.Base.Triple.{Post, Ensures, Ensures-bind}
use ironbird.Docker.Calls.{wait_for_status-Quiet}

same_status_lem : (a b : TaskStatus) → same_status a b ≡ true → a ≡ b
same_status_lem undefined undefined h = refl
same_status_lem running running h = refl
same_status_lem stopped stopped h = refl
same_status_lem paused paused h = refl
same_status_lem restarting restarting h = refl
same_status_lem _ _ h = ground arith

-- The last call inspected the container `id` and found the status `s`.
pub record Seen (id : String) (s : TaskStatus) (w : World) : Type 0 where
  pub info : ContainerInfo
  pub before : Log
  pub last : w.log ≡ container_inspect id (ok info) ∷ before
  pub status : status_of info.status ≡ s

Anything : World → Type 0
Anything w = Unit

-- The cell `t` has the container `id`.
abbrev Known : ℕ → String → World → Type 0
Known t id w = (w.cells t).id ≡ id

module _ (c : Client) (t : ℕ) (id : String) where
  get_status-Seen :
      Ensures Anything (Known t id) (get_status c t) (λ s w. Known t id w × Seen id s w)
  unfolding get_status request Anything ◌>>=◌ inspect_container
  get_status-Seen = record { at = λ w k. answered w k (c.container_inspected w.log (w.cells t).id) }
    where
      answered :
          (w : World)
          → Known t id w
          → (r : Result Error ContainerInfo)
          → Post Anything
              (λ s w. Known t id w × Seen id s w)
              (continue r
                (λ info. pure (status_of info.status))
                (record w { log = container_inspect (w.cells t).id r ∷ w.log })).0
              (continue r
                (λ info. pure (status_of info.status))
                (record w { log = container_inspect (w.cells t).id r ∷ w.log })).1
      answered w k (err e) = tt
      answered w k (ok info) = (
        k,
        record {
          info = info;
          before = w.log;
          last = λ i. container_inspect (k i) (ok info) ∷ w.log;
          status = refl;
        },
      )

  wait_round-Seen :
      (desired : TaskStatus) (done : Bool) (rest : Docker (Unit {0}))
      → Ensures Anything (Known t id) rest (λ _. Seen id desired)
      → Ensures Anything (Known t id) (wait_round c t desired done rest) (λ _. Seen id desired)
  unfolding wait_round modify raise pure Anything ◌>>=◌
  wait_round-Seen desired true rest h = record { at = λ w k. tt }
  wait_round-Seen desired false rest h = Ensures-bind _ _ get_status-Seen decided
    where
      decided :
          (s : TaskStatus)
          → Ensures Anything
              (λ w. Known t id w × Seen id s w)
              (if same_status s desired
                then pure tt
                else (modify (λ w. record w { log = sleep ∷ w.log }) >> rest))
              (λ _. Seen id desired)
      decided s = elim (Bool-cases (same_status s desired)) [
        | inl same ↦
            rw same (record {
              at = λ w k. subst (λ s'. Seen id s' w) (same_status_lem s desired same) k.1;
            })
        | inr other ↦ rw other (record { at = λ w k. h.at (record w { log = sleep ∷ w.log }) k.0 })
      ]

  wait_for_status-Seen :
      (fuel : ℕ) (desired : TaskStatus)
      → Ensures Anything (Known t id) (wait_for_status c fuel t desired) (λ _. Seen id desired)
  unfolding wait_for_status raise Anything ◌>>=◌
  wait_for_status-Seen zero desired = record { at = λ w k. tt }
  wait_for_status-Seen (suc fuel) desired = record {
    at = λ w k.
        (wait_round-Seen desired (c.ctx_canceled w.log) _ (wait_for_status-Seen fuel desired)).at w
          k;
  }

-- What a change of status promises: it is recorded once the container was seen to have it, and else
-- no task's recorded state changes.
abbrev pub Recorded : ℕ → TaskStatus → World → Result Error (Unit {0}) → World → Type 0
Recorded t s v (ok u) w = ((w.cells t).status ≡ s) × Seen (v.cells t).id s w
Recorded t s v (err e) w = SameState v w

module _ (c : Client) (t : ℕ) where
  wait_then-Recorded :
      (fuel : ℕ) (s : TaskStatus) (v w : World)
      → SameState v w
      → Recorded t s v
          (continue
            (wait_for_status c fuel t s w).0
            (λ u w'. (ok tt, set_status t s w'))
            (wait_for_status c fuel t s w).1).0
          (continue
            (wait_for_status c fuel t s w).0
            (λ u w'. (ok tt, set_status t s w'))
            (wait_for_status c fuel t s w).1).1
  unfolding set_status update Anything
  wait_then-Recorded fuel s v w same =
      waited (wait_for_status c fuel t s w).0 (wait_for_status c fuel t s w).1
        ((wait_for_status-Seen c t (v.cells t).id fuel s).at w (λ i. (same.cells i t).id))
        (SameState-trans same ((wait_for_status-Quiet c fuel t s).at w))
    where
      waited :
          (r : Result Error (Unit {0})) (w' : World)
          → Post Anything (λ _. Seen (v.cells t).id s) r w'
          → SameState v w'
          → Recorded t s v
              (continue r (λ u w'. (ok tt, set_status t s w')) w').0
              (continue r (λ u w'. (ok tt, set_status t s w')) w').1
      waited (ok u) w' seen same' = (
        ground arith,
        record { info = seen.info; before = seen.before; last = seen.last; status = seen.status },
      )
      waited (err e) w' seen same' = same'

  -- `r` is the answer to the call that starts or stops the container.
  answered-Recorded :
      (fuel : ℕ) (s : TaskStatus) (v w : World) (r : Result Error (Unit {0}))
      → SameState v w
      → Recorded t s v
          (continue r (λ u. wait_for_status c fuel t s >>= (λ u w. (ok tt, set_status t s w))) w).0
          (continue r (λ u. wait_for_status c fuel t s >>= (λ u w. (ok tt, set_status t s w))) w).1
  unfolding ◌>>=◌
  answered-Recorded fuel s v w (err e) same = same
  answered-Recorded fuel s v w (ok u) same = wait_then-Recorded fuel s v w same

  -- A start that succeeds has recorded the status running, and its last call found the task's container
  -- running; one that fails leaves the provider's state and the state of every task as they were.
  pub start-Recorded :
      (fuel : ℕ) (v : World) → Recorded t running v (start c fuel t v).0 (start c fuel t v).1
  unfolding start request ◌>>=◌
  start-Recorded fuel v =
      answered-Recorded fuel running v _ (c.container_started v.log (v.cells t).id)
        (SameState-log v _)

  -- A stop that succeeds has recorded the status stopped, and its last call found the task's container
  -- stopped; one that fails leaves the provider's state and the state of every task as they were.
  pub stop-Recorded :
      (fuel : ℕ) (v : World) → Recorded t stopped v (stop c fuel t v).0 (stop c fuel t v).1
  unfolding stop request ◌>>=◌
  stop-Recorded fuel v =
      answered-Recorded fuel stopped v _ (c.container_stopped v.log (v.cells t).id)
        (SameState-log v _)
