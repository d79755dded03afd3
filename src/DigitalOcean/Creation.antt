-- ===== src/DigitalOcean/Creation.antt =====
-- petri/core/provider/digitalocean: creating tasks and domains keeps what the provider needs.
use ironbird.Base.{ℕ, zero, suc, ◌≡◌, refl, ap, String, false, List, [], ◌∷◌, ◌++◌}
use ironbird.Base.Action.{Result, ok, err, gets, modify}
use ironbird.Base.Triple.{Post, Ensures, Ensures-bind}
use ironbird.Definition.{TaskDefinition}
use ironbird.DigitalOcean.Types.{
  World, ProviderState, DigitalOcean, Task, Cloud, Error, Daemon, create_droplet, create_domain,
  dial_docker, ping, image_inspect, image_pull, container_create, sleep, request,
}
use ironbird.DigitalOcean.Config.{droplet_request, get_command, resource_name}
use ironbird.DigitalOcean.Task.{docker_started, wait_for_docker_start}
use ironbird.DigitalOcean.Provider.{
  create_own_droplet, peer_found, connect_docker, pull_image, ensure_image, container_created,
  prepare_task, create_task, create_each_domain, create_domains, add_domain_id, register,
  registry_auth, on_failure, telemetry_commands, or_none,
}
use ironbird.DigitalOcean.Kept.{
  Kept, AllTagged, created_domains, after, Kept-request, asking, done, lifting, raising, reading,
  either,
}
use ironbird.DigitalOcean.Steps.{
  Calm, same, peer-Calm, ip-Calm, droplet-Calm, wait-Calm, kept, calm_of,
}

module _ (c : Cloud) (tag : String) where
  docker_started-Calm : (t : Task) → Calm c tag (docker_started c t)
  unfolding docker_started
  docker_started-Calm t = after c tag (droplet-Calm c tag t.cell) (λ d.
      either c tag _ _ _ (done c tag false) (
        after c tag (ip-Calm c tag t.cell) (λ addr. calm_of c tag _ (λ w k.
          Kept-request c tag (ping t.daemon) w (record { no_domain = λ r. refl; tagged = tt }) k))))

  on_failure-Kept :
      (r : Result Error (Unit {0})) (f : Error → DigitalOcean (Unit {0})) (w : World)
      → ((e : Error) → Calm c tag (f e))
      → Kept tag w
      → Kept tag (on_failure c r f w).1
  on_failure-Kept (ok u) f w h k = k
  on_failure-Kept (err e) f w h k = kept c tag (f e) w (h e) k

  pull-Calm :
      (retries : ℕ) (last : Error) (d : Daemon) (image auth : String)
      → Calm c tag (pull_image c retries last d image auth)
  unfolding pull_image
  pull-Calm zero last d image auth = raising c tag last
  pull-Calm (suc n) last d image auth = calm_of c tag _ (λ w k.
      on_failure-Kept (c.answer w.log (image_pull d image auth)) _ _
        (λ e.
          after c tag (asking c tag (sleep 2000) (record { no_domain = λ r. refl; tagged = tt }))
            (λ u. pull-Calm n e d image auth))
        (Kept-request c tag (image_pull d image auth) w
          (record { no_domain = λ r. refl; tagged = tt }) k))

  ensure_image-Calm : (d : Daemon) (def : TaskDefinition) → Calm c tag (ensure_image c d def)
  unfolding ensure_image
  ensure_image-Calm d def = calm_of c tag _ (λ w k.
      on_failure-Kept (c.answer w.log (image_inspect d def.image.image)) _ _
        (λ e. pull-Calm 5 e d def.image.image (registry_auth c def))
        (Kept-request c tag (image_inspect d def.image.image) w
          (record { no_domain = λ r. refl; tagged = tt }) k))

  connect-Calm : (name addr : String) → Calm c tag (connect_docker c name addr)
  unfolding connect_docker
  connect-Calm name addr = either c tag _ _ _ (done c tag _) (
      after c tag (asking c tag (dial_docker addr) (record { no_domain = λ r. refl; tagged = tt }))
        (λ u. done c tag _))

  prepare-Calm : (fuel t : ℕ) (d : TaskDefinition) → Calm c tag (prepare_task c fuel t d)
  unfolding prepare_task peer_found wait_for_docker_start container_created
  prepare-Calm fuel t d =
      after c tag
        (wait-Calm c tag fuel 900000 5000 _
          (calm_of c tag _ (λ w k. kept c tag _ w (peer-Calm c tag t) k)))
        (λ u. after c tag (ip-Calm c tag t) (λ addr. after c tag (reading c tag _) (λ name.
          after c tag (connect-Calm name addr) (λ daemon.
            after c tag
              (wait-Calm c tag fuel 600000 300 _
                (docker_started-Calm (record { cell = t; daemon = daemon })))
              (λ v. after c tag (ensure_image-Calm daemon d) (λ x.
                after c tag (reading c tag _) (λ p.
                  after c tag
                    (wait-Calm c tag fuel 30000 1000 _ (
                      calm_of c tag _ (λ w k.
                        Kept-request c tag (container_create daemon _) w
                          (record { no_domain = λ r. refl; tagged = tt }) k)))
                    (λ y. done c tag _))))))))

  -- The droplet is asked for with the tag of the provider's state, which is `tag`.
  droplet_with_tag :
      (d : TaskDefinition) (config : List (String × String)) (commands : List String)
      (p : ProviderState)
      → p.petri_tag ≡ tag
      → Calm c tag (request c (create_droplet (droplet_request p d config commands)))
  unfolding droplet_request
  droplet_with_tag d config commands p e =
      asking c tag (create_droplet (droplet_request p d config commands))
        (record { no_domain = λ r. refl; tagged = ap (λ t. t ∷ []) e })

  provider_tag :
      Ensures {E = Error}
        (Kept tag)
        (Kept tag)
        (gets (λ w. w.provider))
        (λ p w. Kept tag w × (p.petri_tag ≡ tag))
  unfolding gets
  provider_tag = record { at = λ w k. (k, k.tag_is) }

  create_own_droplet-Calm : (d : TaskDefinition) → Calm c tag (create_own_droplet c d)
  unfolding create_own_droplet
  create_own_droplet-Calm d = after c tag (lifting c tag _) (λ u.
      after c tag (lifting c tag _) (λ v. Ensures-bind _ _ provider_tag (λ p. record {
        at = λ w k.
            (after c tag (lifting c tag (telemetry_commands c c.telemetry p.name d.name))
                (λ telemetry.
                  droplet_with_tag d (or_none d.provider_specific_config)
                    (get_command c.tailscale (resource_name p d) ∷ telemetry) p k.1)).at
              w k.0;
      })))

  pub create_task-Calm : (fuel : ℕ) (d : TaskDefinition) → Calm c tag (create_task c fuel d)
  unfolding create_task register
  create_task-Calm fuel d = after c tag (lifting c tag _) (λ u.
      after c tag (lifting c tag _) (λ config. after c tag (lifting c tag _) (λ v.
        after c tag (create_own_droplet-Calm d) (λ droplet. after c tag (reading c tag _) (λ p.
          after c tag (reading c tag _) (λ cell.
            after c tag
              (same c tag _
                (λ w k. record { tag_is = k.tag_is; tagged = k.tagged; domains = k.domains }))
              (λ x. prepare-Calm fuel cell d)))))))

  -- The domain that was just created is not noted yet.
  record Pending (id : ℕ) (w : World) : Type 0 where
    tag_is : w.provider.petri_tag ≡ tag
    tagged : AllTagged tag w.log
    domains : w.provider.domain_ids ++ (id ∷ []) ≡ created_domains w.log

  request_domain-Pending :
      (name addr : String)
      → Ensures (Kept tag) (Kept tag) (request c (create_domain c.domain name addr)) Pending
  unfolding request
  request_domain-Pending name addr = record {
    at = λ w k. answered w k (c.answer w.log (create_domain c.domain name addr));
  }
    where
      answered :
          (w : World)
          → Kept tag w
          → (r : Result Error ℕ)
          → Post
              (Kept tag)
              Pending
              r
              (record w { log = (create_domain c.domain name addr, r) ∷ w.log })
      answered w k (ok id) = record {
        tag_is = k.tag_is;
        tagged = (tt, k.tagged);
        domains = ap (λ ids. ids ++ (id ∷ [])) k.domains;
      }
      answered w k (err e) = record {
        tag_is = k.tag_is;
        tagged = (tt, k.tagged);
        domains = k.domains;
      }

  note_domain-Kept :
      (id : ℕ)
      → Ensures {E = Error} (Kept tag) (Pending id) (modify (add_domain_id id)) (λ _. Kept tag)
  unfolding modify add_domain_id
  note_domain-Kept id = record {
    at = λ w p. record { tag_is = p.tag_is; tagged = p.tagged; domains = p.domains };
  }

  create_each_domain-Calm :
      (domains : List (String × String)) → Calm c tag (create_each_domain c domains)
  unfolding create_each_domain
  create_each_domain-Calm [] = done c tag tt
  create_each_domain-Calm (d ∷ ds) =
      Ensures-bind _ _ (request_domain-Pending d.0 d.1)
        (λ id. Ensures-bind _ _ (note_domain-Kept id) (λ u. create_each_domain-Calm ds))

  pub create_domains-Calm :
      (domains : List (String × String)) → Calm c tag (create_domains c domains)
  unfolding create_domains
  create_domains-Calm domains = either c tag _ _ _ (done c tag tt) (create_each_domain-Calm domains)
