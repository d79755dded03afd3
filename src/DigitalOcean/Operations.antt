-- ===== src/DigitalOcean/Operations.antt =====
-- petri/core/provider/digitalocean: a run of operations on a new provider.
use Prim.Native.String.{◌++◌ as append}
use ironbird.Base.{ℕ, refl, String, List, [], ◌∷◌}
use ironbird.Definition.{TaskDefinition}
use ironbird.DigitalOcean.Types.{World, TaskState, Task, Cloud, create_tag, create_firewall}
use ironbird.DigitalOcean.Config.{firewall_request}
use ironbird.DigitalOcean.Task.{start, stop, destroy}
use ironbird.DigitalOcean.Provider.{
  new_state, new_provider, set_firewall, create_task, create_domains,
}
use ironbird.DigitalOcean.Kept.{Kept, after, asking, lifting, reading}
use ironbird.DigitalOcean.Steps.{Calm, same, start-Calm, stop-Calm, kept, destroy-Calm}
use ironbird.DigitalOcean.Creation.{create_task-Calm, create_domains-Calm}

-- What is done with a provider and its tasks.
pub data Operation : Type 0 where
  creates : ℕ → TaskDefinition → Operation
  starts : ℕ → Task → Operation
  stops destroys : Task → Operation
  adds : List (String × String) → Operation

abbrev pub perform : Cloud → Operation → World → World
perform c (creates fuel d) w = (create_task c fuel d w).1
perform c (starts fuel t) w = (start c fuel t w).1
perform c (stops t) w = (stop c t w).1
perform c (destroys t) w = (destroy c t w).1
perform c (adds domains) w = (create_domains c domains w).1

abbrev pub run : Cloud → List Operation → World → World
run c [] w = w
run c (o ∷ os) w = run c os (perform c o w)

module _ (c : Cloud) (tag : String) where
  perform-Kept : (o : Operation) (w : World) → Kept tag w → Kept tag (perform c o w)
  perform-Kept (creates fuel d) w = kept c tag _ w (create_task-Calm c tag fuel d)
  perform-Kept (starts fuel t) w = kept c tag _ w (start-Calm c tag fuel t)
  perform-Kept (stops t) w = kept c tag _ w (stop-Calm c tag t)
  perform-Kept (destroys t) w = kept c tag _ w (destroy-Calm c tag t)
  perform-Kept (adds domains) w = kept c tag _ w (create_domains-Calm c tag domains)

  pub run-Kept : (os : List Operation) (w : World) → Kept tag w → Kept tag (run c os w)
  run-Kept [] w k = k
  run-Kept (o ∷ os) w k = run-Kept os (perform c o w) (perform-Kept o w k)

  new_provider-Calm : Calm c tag (new_provider c)
  unfolding new_provider set_firewall
  new_provider-Calm = after c tag (lifting c tag _) (λ u. after c tag (reading c tag _) (λ p.
      after c tag
        (asking c tag (create_tag p.petri_tag) (record { no_domain = λ r. refl; tagged = tt }))
        (λ v.
          after c tag
            (asking c tag (create_firewall (firewall_request p))
              (record { no_domain = λ r. refl; tagged = tt }))
            (λ id.
              same c tag _
                (λ w k. record { tag_is = k.tag_is; tagged = k.tagged; domains = k.domains })))))

-- A provider of the name, before anything is asked for.
abbrev pub fresh : String → (ℕ → TaskState) → World
fresh name cells = record { log = []; cells = cells; next = 0; provider = new_state name }

module _ (c : Cloud) where
  -- After a new provider is made and any operations are performed, whether they fail or not, the
  -- provider has the tag of its name, every droplet that was asked for has that tag and no other, and
  -- the provider's domains are the ones that were created, in their order.
  pub run-new_provider :
      (name : String) (cells : ℕ → TaskState) (os : List Operation)
      → Kept (append "petri-" name) (run c os (new_provider c (fresh name cells)).1)
  unfolding new_state
  run-new_provider name cells os = run-Kept c (append "petri-" name) os _ (
      kept c (append "petri-" name) (new_provider c) (fresh name cells)
        (new_provider-Calm c (append "petri-" name))
        (record { tag_is = refl; tagged = tt; domains = refl }))
