-- ===== src/DigitalOcean/Erased.antt =====
-- petri/core/provider/digitalocean/provider.go: a teardown that succeeds has deleted everything.
use Prim.Native.String.{◌++◌ as append}
use ironbird.Base.{
  ℕ, ◌≡◌, refl, inl, inr, String, Bool, true, false, List, [], ◌∷◌, arith, str_eq, if◌then◌else◌,
  In, All,
}
use mathlib.Core.Path.{subst}
use ironbird.Base.Action.{Result, ok, err, pure, lift}
use ironbird.Base.Triple.{Post, Ensures, Ensures-bind, Ensures-impl}
use ironbird.DigitalOcean.Types.{
  World, TaskState, ProviderState, Cloud, Error, delete_domain_failed, delete_droplets_by_tag,
  delete_domain, Log, request,
}
use ironbird.DigitalOcean.Provider.{latest, delete_domains, teardown_domains, teardown}
use ironbird.DigitalOcean.Kept.{Kept, AllTagged, created_domains}
use ironbird.DigitalOcean.Operations.{Operation, run, fresh, run-new_provider}
use ironbird.DigitalOcean.Provider.{new_provider}
use ironbird.DigitalOcean.Deleting.{
  DomainGone, FirewallGone, Erased, Anything, Lasting, Told, state-Told, tasks-Told, tag-Told,
  firewall-Told,
}

module _ (c : Cloud) (p : ProviderState) where
  -- Once a deletion has failed, the loop fails.
  delete_domains-fails :
      (e : Error) (ids : List ℕ)
      → Ensures {E = Error} Anything Anything (delete_domains c (err e) ids) (λ _ w. ⊥)
  unfolding delete_domains lift
  delete_domains-fails e [] = record { at = λ w h. tt }
  delete_domains-fails e (id ∷ ids) = record {
    at = λ w h.
        (answered (c.answer w.log (delete_domain c.domain id)) (delete_domains-fails e ids)
            (delete_domains-fails (delete_domain_failed id) ids)).at
          _ tt;
  }
    where
      answered :
          (r : Result Error (Unit {0}))
          → Ensures {E = Error} Anything Anything (delete_domains c (err e) ids) (λ _ w. ⊥)
          → Ensures {E = Error} Anything Anything
              (delete_domains c (err (delete_domain_failed id)) ids)
              (λ _ w. ⊥)
          → Ensures {E = Error} Anything Anything
              (delete_domains c (latest c (err e) id r) ids)
              (λ _ w. ⊥)
      answered (ok u) h k = h
      answered (err x) h k = k

  -- A loop that does not fail has deleted every domain.
  delete_domains-Told :
      (F : Log → Type 0)
      → Lasting F
      → (ids : List ℕ)
      → Ensures {E = Error} Anything
          (Told c p F)
          (delete_domains c (ok tt) ids)
          (λ _. Told c p (λ log. F log × All (DomainGone c.domain log) ids))
  unfolding delete_domains lift request
  delete_domains-Told F lasting [] = record { at = λ w h. (h.0, (h.1, tt)) }
  delete_domains-Told F lasting (id ∷ ids) = record {
    at = λ w h. answered w h (c.answer w.log (delete_domain c.domain id)) (
        delete_domains-Told (λ log. F log × DomainGone c.domain log id)
          (λ e log k. (lasting e log k.0, inr k.1)) ids);
  }
    where
      answered :
          (w : World)
          → Told c p F w
          → (r : Result Error (Unit {0}))
          → Ensures {E = Error} Anything
              (Told c p (λ log. F log × DomainGone c.domain log id))
              (delete_domains c (ok tt) ids)
              (λ _.
                Told c p
                  (λ log. (F log × DomainGone c.domain log id) × All (DomainGone c.domain log) ids))
          → Post Anything
              (λ _. Told c p (λ log. F log × All (DomainGone c.domain log) (id ∷ ids)))
              (delete_domains c
                (latest c (ok tt) id r)
                ids
                (record w { log = (delete_domain c.domain id, r) ∷ w.log })).0
              (delete_domains c
                (latest c (ok tt) id r)
                ids
                (record w { log = (delete_domain c.domain id, r) ∷ w.log })).1
      answered w h (ok u) rest =
          (Ensures-impl _ _ _ _ _ (λ a w k. (k.0, (k.1.0.0, (k.1.0.1, k.1.1)))) rest).at _
            (h.0, (lasting _ w.log h.1, inl refl))
      answered w h (err x) rest =
          (Ensures-impl _ _ _ _ _ (λ a w k. elim k [ ])
              (delete_domains-fails (delete_domain_failed id) ids)).at
            _ tt

  domains-Told :
      (F : Log → Type 0)
      → Lasting F
      → Ensures {E = Error} Anything (Told c p F) (teardown_domains c) (λ _.
        Told c p (λ log.
          F log × (str_eq c.domain "" ≡ false → All (DomainGone c.domain log) p.domain_ids)))
  unfolding teardown_domains pure
  domains-Told F lasting =
      Ensures-bind _ _ (state-Told c p F)
        (λ s. record { at = λ w h. chosen s h.1 (str_eq c.domain "") refl w h.0 })
    where
      chosen :
          (s : ProviderState)
          → s ≡ p
          → (b : Bool) → str_eq c.domain "" ≡ b
          → (w : World) → Told c p F w
          → Post Anything
              (λ _. Told c p (λ log.
                F log × (str_eq c.domain "" ≡ false → All (DomainGone c.domain log) p.domain_ids)))
              ((if b then pure tt else delete_domains c (ok tt) s.domain_ids) w).0
              ((if b then pure tt else delete_domains c (ok tt) s.domain_ids) w).1
      chosen s e true b w h = (h.0, (h.1, λ none'. elim (clash (str_eq c.domain "") b none') [ ]))
        where
          clash : (x : Bool) → x ≡ true → x ≡ false → ⊥
          clash x y z = ground arith
      chosen s e false b w h =
          (Ensures-impl _ _ _ _ _
              (λ a w k. (
                k.0,
                (
                  k.1.0,
                  λ given. subst (All (DomainGone c.domain w.log)) (λ i. (e i).domain_ids) k.1.1,
                ),
              ))
              (delete_domains-Told F lasting s.domain_ids)).at
            w h

  teardown-Told :
      Ensures {E = Error} Anything
        (Told c p (λ log. Unit {0}))
        (teardown c)
        (λ _ w. Erased c.domain p w.log)
  unfolding teardown
  teardown-Told = Ensures-bind _ _ (tasks-Told c p) (λ t.
      Ensures-bind _ _ (firewall-Told c p _ (λ e log h. inr h)) (λ f.
        Ensures-bind _ _ (tag-Told c p _ (λ e log h. (inr h.0, gone e log h.1))) (λ g.
          Ensures-impl _ _ _ _ _
            (λ a w k. record {
              droplets = k.1.0.0.0;
              firewall = k.1.0.0.1;
              tag = k.1.0.1;
              domains = k.1.1;
            })
            (domains-Told _ (λ e log h. ((inr h.0.0, gone e log h.0.1), inr h.1))))))
    where
      gone : Lasting (FirewallGone p.firewall_id)
      gone e log (inl h) = inl (inr h)
      gone e log (inr h) = inr (inr h)

module _ (c : Cloud) where
  -- A teardown that reports no error has deleted the droplets by the provider's tag, the tag, every
  -- domain of the provider if a root domain is configured, and the firewall, unless that was not found.
  pub teardown-Erased :
      (w : World) → (teardown c w).0 ≡ ok tt → Erased c.domain w.provider (teardown c w).1.log
  teardown-Erased w e =
      subst
        (λ (r : Result Error (Unit {0})).
          Post Anything (λ _ v. Erased c.domain w.provider v.log) r (teardown c w).1)
        e ((teardown-Told c w.provider).at w (refl, tt))

  -- A provider is made, operations are performed on it, whether they fail or not, and a teardown reports
  -- no error: then every droplet that was asked for has just the tag whose droplets the teardown has
  -- deleted; and if a root domain is configured, every domain that was created has been deleted.
  pub run-teardown :
      (name : String) (cells : ℕ → TaskState) (os : List Operation)
      → (teardown c (run c os (new_provider c (fresh name cells)).1)).0 ≡ ok tt
      → AllTagged (append "petri-" name) (run c os (new_provider c (fresh name cells)).1).log
        × In
            (delete_droplets_by_tag (append "petri-" name), ok tt)
            (teardown c (run c os (new_provider c (fresh name cells)).1)).1.log
        × (str_eq c.domain "" ≡ false
            → All
                (DomainGone c.domain
                  (teardown c (run c os (new_provider c (fresh name cells)).1)).1.log)
                (created_domains (run c os (new_provider c (fresh name cells)).1).log))
  run-teardown name cells os e =
      both (run c os (new_provider c (fresh name cells)).1) (run-new_provider c name cells os) e
    where
      both :
          (w : World)
          → Kept (append "petri-" name) w
          → (teardown c w).0 ≡ ok tt
          → AllTagged (append "petri-" name) w.log
            × In (delete_droplets_by_tag (append "petri-" name), ok tt) (teardown c w).1.log
            × (str_eq c.domain "" ≡ false
                → All (DomainGone c.domain (teardown c w).1.log) (created_domains w.log))
      both w k e =
          let gone = teardown-Erased w e in
          (
            k.tagged,
            subst (λ t. In (delete_droplets_by_tag t, ok tt) (teardown c w).1.log) k.tag_is
                gone.droplets,
            λ given.
                subst (All (DomainGone c.domain (teardown c w).1.log)) k.domains
                  (gone.domains given),
          )
