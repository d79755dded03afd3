-- ===== src/DigitalOcean/Deleting.antt =====
-- petri/core/provider/digitalocean/provider.go: the steps of a teardown, each with what it deletes.
use ironbird.Base.{
  ℕ, ◌≡◌, refl, sym, ◌⊎◌, inl, inr, String, true, false, ◌∷◌, arith, str_eq, Bool-cases, In, All,
}
use mathlib.Core.Path.{subst}
use ironbird.Base.Action.{Result, ok, err, gets}
use ironbird.Base.Triple.{Post, Ensures, Ensures-bind, Ensures-impl}
use ironbird.DigitalOcean.Types.{
  World, ProviderState, Cloud, Error, resource_not_found, Request, delete_droplets_by_tag,
  get_firewall, delete_firewall, delete_tag, delete_domain, Answer, Log, request,
}
use ironbird.DigitalOcean.Provider.{teardown_tasks, is_missing, teardown_firewall, teardown_tag}

-- The domain was deleted, and the firewall was deleted or not found.
abbrev pub DomainGone : String → Log → ℕ → Type 0
DomainGone root log id = In (delete_domain root id, ok tt) log

abbrev pub FirewallGone : String → Log → Type 0
FirewallGone id log =
    In (get_firewall id, err resource_not_found) log ⊎ In (delete_firewall id, ok tt) log

-- What a teardown of a provider in the state `p` has deleted.
pub record Erased (root : String) (p : ProviderState) (log : Log) : Type 0 where
  pub droplets : In (delete_droplets_by_tag p.petri_tag, ok tt) log
  pub firewall : FirewallGone p.firewall_id log
  pub tag : In (delete_tag p.petri_tag, ok tt) log
  pub domains : str_eq root "" ≡ false → All (DomainGone root log) p.domain_ids

abbrev pub Anything : World → Type 0
Anything w = Unit

abbrev pub Lasting : (Log → Type 0) → Type 0
Lasting F = (e : (q : Request) × Result Error (Answer q)) (log : Log) → F log → F (e ∷ log)

module _ (c : Cloud) (p : ProviderState) where
  -- The provider is in the state `p`, and more is known of the log.
  abbrev pub Told : (Log → Type 0) → World → Type 0
  Told F w = (w.provider ≡ p) × F w.log

  pub request-Told :
      (q : Request) (F : Log → Type 0)
      → Lasting F
      → Ensures {E = Error} Anything
          (Told F)
          (request c q)
          (λ a. Told (λ log. F log × In (q, ok a) log))
  unfolding request
  request-Told q F lasting = record { at = λ w h. answered w h (c.answer w.log q) }
    where
      answered :
          (w : World)
          → Told F w
          → (r : Result Error (Answer q))
          → Post Anything
              (λ a. Told (λ log. F log × In (q, ok a) log))
              r
              (record w { log = (q, r) ∷ w.log })
      answered w h (err e) = tt
      answered w h (ok a) = (h.0, (lasting (q, ok a) w.log h.1, inl refl))

  -- The state that is read is `p`.
  pub state-Told :
      (F : Log → Type 0)
      → Ensures {E = Error} Anything (Told F) (gets (λ w. w.provider)) (λ s w. Told F w × (s ≡ p))
  unfolding gets
  state-Told F = record { at = λ w h. (h, h.0) }

  pub tasks-Told :
      Ensures {E = Error} Anything
        (Told (λ log. Unit {0}))
        (teardown_tasks c)
        (λ _. Told (λ log. In (delete_droplets_by_tag p.petri_tag, ok tt) log))
  unfolding teardown_tasks
  tasks-Told = Ensures-bind _ _ (state-Told (λ log. Unit {0})) (λ s. record {
    at = λ w h.
        (Ensures-impl _ _ _ _ _
            (λ a w k. (
              k.0,
              subst (λ t. In (delete_droplets_by_tag t, ok tt) w.log) (λ i. (h.1 i).petri_tag)
                  k.1.1,
            ))
            (request-Told (delete_droplets_by_tag s.petri_tag) (λ log. Unit {0})
              (λ e log u. tt))).at
          w h.0;
  })

  pub tag-Told :
      (F : Log → Type 0)
      → Lasting F
      → Ensures {E = Error} Anything
          (Told F)
          (teardown_tag c)
          (λ _. Told (λ log. F log × In (delete_tag p.petri_tag, ok tt) log))
  unfolding teardown_tag
  tag-Told F lasting = Ensures-bind _ _ (state-Told F) (λ s. record {
    at = λ w h.
        (Ensures-impl _ _ _ _ _
            (λ a w k. (
              k.0,
              (k.1.0, subst (λ t. In (delete_tag t, ok tt) w.log) (λ i. (h.1 i).petri_tag) k.1.1),
            ))
            (request-Told (delete_tag s.petri_tag) F lasting)).at
          w h.0;
  })

  pub firewall-Told :
      (F : Log → Type 0)
      → Lasting F
      → Ensures {E = Error} Anything
          (Told F)
          (teardown_firewall c)
          (λ _. Told (λ log. F log × FirewallGone p.firewall_id log))
  unfolding teardown_firewall request
  firewall-Told F lasting = record {
    at = λ w h.
        elim (Bool-cases (is_missing c (c.answer w.log (get_firewall w.provider.firewall_id)))) [
          | inl missing ↦ rw missing (
            h.0,
            (
              lasting _ w.log h.1,
              inl (
                  inl (λ i. (
                    get_firewall (sym h.0 i).firewall_id,
                    sym (missing_lem (c.answer w.log (get_firewall w.provider.firewall_id)) missing)
                        i,
                  ))),
            ),
          )
          | inr present ↦ rw present (deleted w h)
        ];
  }
    where
      missing_lem :
          (r : Result Error (Unit {0})) → is_missing c r ≡ true → r ≡ err resource_not_found
      missing_lem (err resource_not_found) e = refl
      missing_lem _ e = ground arith

      deleted :
          (w : World)
          → Told F w
          → Post Anything
              (λ _. Told (λ log. F log × FirewallGone p.firewall_id log))
              (request c
                (delete_firewall w.provider.firewall_id)
                (request c (get_firewall w.provider.firewall_id) w).1).0
              (request c
                (delete_firewall w.provider.firewall_id)
                (request c (get_firewall w.provider.firewall_id) w).1).1
      deleted w h =
          (Ensures-impl _ _ _ _ _
              (λ a w' k. (
                k.0,
                (
                  k.1.0,
                  inr (
                      subst (λ id. In (delete_firewall id, ok tt) w'.log) (λ i. (h.0 i).firewall_id)
                        k.1.1),
                ),
              ))
              (request-Told (delete_firewall w.provider.firewall_id) F lasting)).at
            (request c (get_firewall w.provider.firewall_id) w).1 (h.0, lasting _ w.log h.1)
