-- ===== src/Docker/Ending.antt =====
-- petri/core/provider/docker/task.go: the wait for a status ends once its context is done.
use ironbird.Base.{
  ℕ, zero, suc, ◌-◌, ◌≤◌, ◌<◌, ◌≡◌, ◌≢◌, ap, inl, inr, String, true, false, ◌∷◌, length, arith,
  Bool-cases,
}
use ironbird.Base.Action.{Result, ok, err, pure, raise, modify, ◌>>=◌, Result-cases}
use ironbird.Definition.{TaskStatus}
use ironbird.Docker.Types.{
  World, Client, Error, Log, ctx_done, out_of_fuel, container_inspect, sleep, request,
}
use ironbird.Docker.Task.{
  same_status, status_of, inspect_container, get_status, wait_round, wait_for_status,
}

error_of : Result Error (Unit {0}) → Error
error_of (ok u) = ctx_done
error_of (err e) = e

module _ (c : Client) (t n : ℕ) (desired : TaskStatus) where
  -- The context is done once `n` calls are made, and Docker does not report a lack of fuel. Then the
  -- wait with more fuel than calls are left before that ends: it finds the status or fails.
  pub wait_for_status_ends :
      ((l : Log) → n ≤ length l → c.ctx_canceled l ≡ true)
      → ((l : Log) (id : String) (e : Error) → c.container_inspected l id ≡ err e → e ≢ out_of_fuel)
      → (fuel : ℕ) (w : World) → n - length w.log < fuel
      → (wait_for_status c fuel t desired w).0 ≢ err out_of_fuel
  unfolding wait_for_status wait_round get_status inspect_container request raise pure modify ◌>>=◌
      error_of
  wait_for_status_ends done answers zero w h = λ e. omega arith
  wait_for_status_ends done answers (suc fuel) w h = elim (Bool-cases (c.ctx_canceled w.log)) [
    | inl canceled ↦ rw canceled (λ e. ground arith)
    | inr going ↦ elim (Result-cases (c.container_inspected w.log (w.cells t).id)) [
      | inr (e, failed) ↦
          rw (going, failed) (λ p. answers w.log (w.cells t).id e failed (ap error_of p))
      | inl (info, found) ↦ elim (Bool-cases (same_status (status_of info.status) desired)) [
        | inl same ↦ rw (going, found, same) (λ p. ground arith)
        | inr other ↦
            rw (going, found, other)
              (wait_for_status_ends done answers fuel
                (record w { log = sleep ∷ container_inspect (w.cells t).id (ok info) ∷ w.log })
                (left_lem (going_lem going)))
      ]
    ]
  ]
    where
      going_lem : c.ctx_canceled w.log ≡ false → length w.log < n
      going_lem going = ground (arith, done w.log)

      left_lem : length w.log < n → n - suc (suc (length w.log)) < fuel
      left_lem k = omega arith
