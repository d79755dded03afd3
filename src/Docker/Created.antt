-- ===== src/Docker/Created.antt =====
-- petri/core/provider/docker/provider.go: a provider that is created owns its gateway's address.
use mathlib.Core.Path.{subst}
use ironbird.Base.{
  ◌≡◌, refl, sym, inl, inr, Option-cases, String, Bool, true, false, List, [], ◌∷◌, All, In,
  Distinct, str_eq, if◌then◌else◌,
}
use ironbird.Base.Action.{Result, ok, err, pure, raise, modify}
use ironbird.Base.Triple.{Post, Ensures, Ensures-bind}
use ironbird.Docker.Types.{
  World, ProviderState, Docker, Client, Error, allocate, request, empty_provider_name,
}
use ironbird.Docker.Network.{init_network, inspect_network}
use ironbird.Docker.Provider.{
  allocate_ip, allocator_outcome, create_allocator, record_network, create_provider,
}
use ironbird.Docker.Quiet.{taken, Quiet, Quiet-request, Quiet-observe, Quiet-gets, Quiet-bind}
use ironbird.Docker.Owned.{IsOwned, Older, ips}

abbrev Anything : World → Type 0
Anything w = Unit

-- The provider has no task.
abbrev Bare : World → Type 0
Bare w = w.provider.task_states ≡ []

-- The provider has no task, and this gateway.
abbrev Gated : String → World → Type 0
Gated gateway w = (w.provider.network_gateway ≡ gateway) × Bare w

abbrev Yields : {A : Type 0} → (World → Type 0) → Docker A → (World → Type 0) → Type 0
Yields P m Q = Ensures Anything P m (λ a. Q)

bare-IsOwned : (w : World) → Bare w → In w.provider.network_gateway (taken w.log) → IsOwned w
bare-IsOwned w bare given = record {
  distinct = subst (λ m. Distinct (w.provider.network_gateway ∷ ips w.cells m)) (sym bare) (tt, tt);
  owned =
      subst (λ m. All (λ ip. In ip (taken w.log)) (w.provider.network_gateway ∷ ips w.cells m))
        (sym bare) (given, tt);
  older = subst (Older w.next) (sym bare) tt;
}

Post-quiet :
    {A : Type 0} (P : World → Type 0) (r : Result Error A) (w : World)
    → P w
    → Post Anything (λ a. P) r w
Post-quiet P (ok a) w p = p
Post-quiet P (err e) w p = tt

Yields-Bare : {A : Type 0} (m : Docker A) → Quiet m → Yields Bare m Bare
Yields-Bare m q = record {
  at = λ w p.
      Post-quiet Bare (m w).0 (m w).1
        (subst (λ (s : ProviderState). s.task_states ≡ []) (sym (q.at w).provider) p);
}

Yields-Gated : {A : Type 0} (g : String) (m : Docker A) → Quiet m → Yields (Gated g) m (Gated g)
Yields-Gated g m q = record {
  at = λ w p. Post-quiet (Gated g) (m w).0 (m w).1 (
      subst (λ (s : ProviderState). (s.network_gateway ≡ g) × (s.task_states ≡ []))
        (sym (q.at w).provider) p);
}

module _ (c : Client) where
  allocate_ip-IsOwned : (g : String) → Yields (Gated g) (allocate_ip c g) IsOwned
  unfolding allocate_ip request taken
  allocate_ip-IsOwned g = record { at = λ w p. answered w p (c.allocated w.log g) }
    where
      answered :
          (w : World)
          → Gated g w
          → (r : Result Error (Unit {0}))
          → Post Anything (λ a. IsOwned) r (record w { log = allocate g r ∷ w.log })
      answered w p (ok u) =
          bare-IsOwned (record w { log = allocate g (ok u) ∷ w.log }) p.1 (inl p.0)
      answered w p (err e) = tt

  create_allocator-IsOwned :
      (cidr g : String) → Yields (Gated g) (create_allocator c cidr g) IsOwned
  unfolding create_allocator allocator_outcome raise
  create_allocator-IsOwned cidr g =
      Ensures-bind _ _ (Yields-Gated g _ (Quiet-observe _ _)) (λ made. outcome made)
    where
      outcome : (r : Result Error (Unit {0})) → Yields (Gated g) (allocator_outcome c g r) IsOwned
      outcome (ok u) = allocate_ip-IsOwned g
      outcome (err e) = record { at = λ w p. tt }

  recorded :
      (id name : String) (ipam : List (String × String))
      → Yields Bare (record_network c (record { id = id; name = name; ipam = ipam })) IsOwned
  unfolding record_network raise modify
  recorded id name [] = record { at = λ w p. tt }
  recorded id name (config ∷ more) = elim (Option-cases (c.parse_cidr config.0)) [
    | inl bad ↦ rw (bad, record_network) (record { at = λ w p. tt })
    | inr (cidr, good) ↦
        rw (good, record_network)
          (Ensures-bind {Q = λ u. Gated config.1} _ _ (record { at = λ w p. (refl, p) })
            (λ u. create_allocator-IsOwned cidr config.1))
  ]

  init_network-Quiet : Quiet (init_network c)
  unfolding init_network inspect_network
  init_network-Quiet =
      Quiet-bind _ _ (Quiet-gets _)
        (λ options. Quiet-bind _ _ (Quiet-request _ _) (λ id. Quiet-request _ _))

  named : (b : Bool) → Yields Anything (if b then raise empty_provider_name else pure tt) Anything
  unfolding pure raise
  named true = record { at = λ w p. tt }
  named false = record { at = λ w p. tt }

  creation : (name : String) → Yields Anything (create_provider c name) IsOwned
  unfolding create_provider modify request
  creation name =
      Ensures-bind {Q = λ u. Anything} _ _
        (record { at = λ w p. Post-quiet Anything (c.pinged w.log) _ tt })
        (λ u. Ensures-bind _ _ (named (str_eq name "")) (λ u.
          Ensures-bind {Q = λ u. Bare} _ _ (record { at = λ w p. refl })
            (λ u. Ensures-bind _ _ (Yields-Bare _ init_network-Quiet) (λ n.
              Ensures-bind {Q = λ u. Bare} _ _ (record { at = λ w p. p })
                (λ u. recorded n.id n.name n.ipam)))))

  -- The address of the gateway is given out, and there are no tasks.
  pub create_provider-IsOwned :
      (name : String) (w : World)
      → (create_provider c name w).0 ≡ ok tt
      → IsOwned (create_provider c name w).1
  create_provider-IsOwned name w e =
      subst
        (λ (r : Result Error (Unit {0})).
          Post Anything (λ u. IsOwned) r (create_provider c name w).1)
        e ((creation name).at w tt)
