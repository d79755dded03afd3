-- ===== src/DigitalOcean/Steps.antt =====
-- petri/core/provider/digitalocean: the operations of a task keep what the provider needs.
use ironbird.Base.{ℕ, zero, suc, refl, String, Bool, true, false}
use ironbird.Base.Action.{Result, ok, err, modify}
use ironbird.Base.Triple.{Post, Post-constant}
use ironbird.Definition.{stopped, running}
use ironbird.Docker.Task.{same_status}
use ironbird.DigitalOcean.Types.{
  World, DigitalOcean, Task, Cloud, Error, timed_out, out_of_fuel, Daemon, get_droplet,
  delete_droplet, tailscale_status, close, container_list, container_start, container_stop,
  container_inspect, sleep,
}
use ironbird.DigitalOcean.Task.{
  get_tailscale_peer, get_ip, droplet_of, container_of, get_status, wait_for_condition, is_running,
  start, stop, delete_own_droplet, destroy_steps, destroy, set_status, remove_task,
}
use ironbird.DigitalOcean.Kept.{
  Kept, Steady, after, Kept-request, asking, done, lifting, raising, reading, changing, either,
}

module _ (c : Cloud) (tag : String) where
  abbrev pub Calm : {A : Type 0} → DigitalOcean A → Type 0
  Calm = Steady c tag

  -- The provider's tag, its domains and the log are as before.
  pub same : (f : World → World) → ((w : World) → Kept tag w → Kept tag (f w)) → Calm (modify f)
  same = changing c tag

  pub peer-Calm : (t : ℕ) → Calm (get_tailscale_peer c t)
  unfolding get_tailscale_peer
  peer-Calm t =
      after c tag (asking c tag tailscale_status (record { no_domain = λ r. refl; tagged = tt }))
        (λ peers. after c tag (reading c tag _) (λ host. lifting c tag _))

  pub ip-Calm : (t : ℕ) → Calm (get_ip c t)
  unfolding get_ip
  ip-Calm t = after c tag (peer-Calm t) (λ peer. lifting c tag _)

  pub droplet-Calm : (t : ℕ) → Calm (droplet_of c t)
  unfolding droplet_of
  droplet-Calm t = after c tag (reading c tag _) (λ id.
      after c tag (lifting c tag _)
        (λ n. asking c tag (get_droplet n) (record { no_domain = λ r. refl; tagged = tt })))

  container-Calm : (d : Daemon) → Calm (container_of c d)
  unfolding container_of
  container-Calm d =
      after c tag (asking c tag (container_list d) (record { no_domain = λ r. refl; tagged = tt }))
        (λ ids. lifting c tag _)

  status-Calm : (t : Task) → Calm (get_status c t)
  unfolding get_status
  status-Calm t = after c tag (droplet-Calm t.cell) (λ d. either c tag _ _ _ (done c tag stopped) (
      after c tag (container-Calm t.daemon) (λ id.
        after c tag
          (asking c tag (container_inspect t.daemon id)
            (record { no_domain = λ r. refl; tagged = tt }))
          (λ info. done c tag _))))

  pub wait-Calm :
      (fuel deadline pause : ℕ) (condition : DigitalOcean Bool)
      → Calm condition
      → Calm (wait_for_condition c fuel deadline pause condition)
  unfolding wait_for_condition
  wait-Calm zero deadline pause condition h = raising c tag out_of_fuel
  wait-Calm (suc fuel) deadline pause condition h = after c tag (reading c tag _) (λ over.
      either c tag over _ _ (raising c tag timed_out) (
        after c tag (asking c tag (sleep pause) (record { no_domain = λ r. refl; tagged = tt }))
          (λ u. after c tag h (λ reached.
            either c tag reached _ _ (done c tag tt) (wait-Calm fuel deadline pause condition h)))))

  set_status-Kept : (t : ℕ) (w : World) (k : Kept tag w) → Kept tag (set_status t running w)
  unfolding set_status
  set_status-Kept t w k = record { tag_is = k.tag_is; tagged = k.tagged; domains = k.domains }

  is_running-Calm : (t : Task) → Calm (is_running c t)
  unfolding is_running
  is_running-Calm t = after c tag (status-Calm t) (λ s.
      either c tag (same_status s running) _ _
        (after c tag (same _ (set_status-Kept t.cell)) (λ u. done c tag true)) (done c tag false))

  pub start-Calm : (fuel : ℕ) (t : Task) → Calm (start c fuel t)
  unfolding start
  start-Calm fuel t = after c tag (container-Calm t.daemon) (λ id.
      after c tag
        (asking c tag (container_start t.daemon id) (record { no_domain = λ r. refl; tagged = tt }))
        (λ u. wait-Calm fuel 300000 100 _ (is_running-Calm t)))

  pub stop-Calm : (t : Task) → Calm (stop c t)
  unfolding stop set_status
  stop-Calm t = after c tag (container-Calm t.daemon) (λ id.
      after c tag
        (same _ (λ w k. record { tag_is = k.tag_is; tagged = k.tagged; domains = k.domains }))
        (λ u.
          asking c tag (container_stop t.daemon id)
            (record { no_domain = λ r. refl; tagged = tt })))

  destroy_steps-Calm : (t : ℕ) → Calm (destroy_steps c t)
  unfolding destroy_steps delete_own_droplet remove_task
  destroy_steps-Calm t =
      after c tag
        (after c tag (droplet-Calm t)
          (λ d. asking c tag (delete_droplet d.id) (record { no_domain = λ r. refl; tagged = tt })))
        (λ u. after c tag (reading c tag _) (λ id.
          same _ (λ w k. record { tag_is = k.tag_is; tagged = k.tagged; domains = k.domains })))

  -- An action that keeps the world, whatever its result.
  pub kept : {A : Type 0} (m : DigitalOcean A) (w : World) → Calm m → Kept tag w → Kept tag (m w).1
  kept {A} m w h k = of (m w).0 (m w).1 (h.at w k)
    where
      of : (r : Result Error A) (w : World) → Post (Kept tag) (λ _. Kept tag) r w → Kept tag w
      of (ok a) w p = p
      of (err e) w p = p

  -- It is enough that the world is kept.
  pub calm_of :
      {A : Type 0} (m : DigitalOcean A) → ((w : World) → Kept tag w → Kept tag (m w).1) → Calm m
  calm_of m h = record {
    at = λ w k. Post-constant (Kept tag) (Kept tag) (m w).0 (m w).1 (λ p. p) (h w k);
  }

  pub destroy-Calm : (t : Task) → Calm (destroy c t)
  unfolding destroy
  destroy-Calm t = calm_of _ (λ w k.
      Kept-request c tag (close t.daemon) (destroy_steps c t.cell w).1
        (record { no_domain = λ r. refl; tagged = tt }) (kept _ w (destroy_steps-Calm t.cell) k))
