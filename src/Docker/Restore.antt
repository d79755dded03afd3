-- ===== src/Docker/Restore.antt =====
-- petri/core/provider/docker/provider.go: a provider that is restored takes its addresses again.
use ironbird.Base.{
  ℕ, ◌≡◌, refl, sym, inl, inr, String, Option, none, some, List, [], ◌∷◌, All, All-impl, In, NotIn,
  Distinct,
}
use mathlib.Core.Path.{subst}
use ironbird.Base.Action.{Result, ok, err, pure, raise, gets}
use ironbird.Docker.Types.{World, TaskState, Docker, Client, Error, bad_cidr, allocate, request}
use ironbird.Docker.Provider.{allocate_ip, restore_addresses, restore_network, restore_provider}
use ironbird.Docker.Quiet.{
  taken, SameState, SameState-refl, SameState-trans, SameState-log, Quiet, Quiet-request,
  Quiet-gets,
}
use ironbird.Docker.Calls.{ensure_network-Quiet}
use ironbird.Base.Triple.{Post, Post-constant, Ensures, Ensures-bind}
use ironbird.Docker.Owned.{IsOwned, Older, ips, fresh_lem, SameState-IsOwned}
use ironbird.Docker.Addresses.{AllocatesFresh}

-- After an error nothing is promised.
abbrev Anything : World → Type 0
Anything w = Unit

-- The provider and the tasks of `v`, with the addresses `done` taken again.
record Restoring (v : World) (done : List String) (w : World) : Type 0 where
  same : SameState v w
  given : All (λ ip. In ip (taken w.log)) done
  distinct : Distinct done

-- The addresses in the order in which they are taken, the last one first.
abbrev collect : (ℕ → TaskState) → List String → List (String × ℕ) → List String
collect cells done [] = done
collect cells done ((k, t) ∷ m) = collect cells ((cells t).ip_address ∷ done) m

abbrev all_addresses : World → List String
all_addresses v = collect v.cells (v.provider.network_gateway ∷ []) v.provider.task_states

All-collect :
    (P : String → Type 0) (cells : ℕ → TaskState) (done : List String) (m : List (String × ℕ))
    → All P (collect cells done m)
    → All P done × All P (ips cells m)
All-collect P cells done [] a = (a, tt)
All-collect P cells done ((k, t) ∷ m) a =
    let rest = All-collect P cells ((cells t).ip_address ∷ done) m a in
    (rest.0.1, (rest.0.0, rest.1))

Distinct-collect :
    (cells : ℕ → TaskState) (done : List String) (m : List (String × ℕ))
    → Distinct (collect cells done m)
    → Distinct done × (Distinct (ips cells m) × All (λ y. NotIn y done) (ips cells m))
Distinct-collect cells done [] d = (d, (tt, tt))
Distinct-collect cells done ((k, t) ∷ m) d =
    let rest = Distinct-collect cells ((cells t).ip_address ∷ done) m d in
    (
      rest.0.1,
      (
        (All-impl (ips cells m) (λ y n e. n.0 (sym e)) rest.1.1, rest.1.0),
        (rest.0.0, All-impl (ips cells m) (λ y n. n.1) rest.1.1),
      ),
    )

module _ (v : World) where
  Restoring-Quiet :
      {A : Type 0} (done : List String) (m : Docker A)
      → Quiet m
      → Ensures Anything (Restoring v done) m (λ _. Restoring v done)
  Restoring-Quiet done m q = record {
    at = λ w r.
        Post-constant Anything (Restoring v done) (m w).0 (m w).1 (λ _. tt)
          (record {
            same = SameState-trans r.same (q.at w);
            given = All-impl done (q.at w).grows r.given;
            distinct = r.distinct;
          });
  }

  -- What is read from the state comes with what it is.
  Restoring-gets :
      {A : Type 0} (done : List String) (f : World → A) (a : A)
      → ((w : World) → SameState v w → f w ≡ a)
      → Ensures {E = Error} Anything
          (Restoring v done)
          (gets f)
          (λ b w. Restoring v done w × (b ≡ a))
  unfolding gets
  Restoring-gets done f a e = record { at = λ w r. (r, e w r.same) }

  Restoring-IsOwned :
      (w : World)
      → Older v.next v.provider.task_states
      → Restoring v (all_addresses v) w
      → IsOwned w
  Restoring-IsOwned w o r =
      SameState-IsOwned {v = record v { log = w.log }}
        (record {
          provider = r.same.provider;
          cells = r.same.cells;
          next = r.same.next;
          grows = λ ip h. h;
        })
        (record {
          distinct = (All-impl (ips v.cells m) (λ y n e. n.0 (sym e)) split.1.1, split.1.0);
          owned = (given.0.0, given.1);
          older = o;
        })
    where
      m : List (String × ℕ)
      m = v.provider.task_states

      split :
          Distinct (v.provider.network_gateway ∷ [])
          × (Distinct (ips v.cells m)
              × All (λ y. NotIn y (v.provider.network_gateway ∷ [])) (ips v.cells m))
      split = Distinct-collect v.cells (v.provider.network_gateway ∷ []) m r.distinct

      given :
          All (λ ip. In ip (taken w.log)) (v.provider.network_gateway ∷ [])
          × All (λ ip. In ip (taken w.log)) (ips v.cells m)
      given = All-collect _ v.cells (v.provider.network_gateway ∷ []) m r.given

module _ (c : Client) (fresh : AllocatesFresh c) (v : World) where
  allocate_ip-Restoring :
      (done : List String) (ip : String)
      → Ensures Anything (Restoring v done) (allocate_ip c ip) (λ _. Restoring v (ip ∷ done))
  unfolding allocate_ip request taken
  allocate_ip-Restoring done ip = record { at = λ w r. answered w r (c.allocated w.log ip) refl }
    where
      answered :
          (w : World)
          → Restoring v done w
          → (r : Result Error (Unit {0})) → c.allocated w.log ip ≡ r
          → Post Anything
              (λ _. Restoring v (ip ∷ done))
              r
              (record w { log = allocate ip r ∷ w.log })
      answered w h (err e) p = tt
      answered w h (ok u) p = record {
        same = SameState-trans h.same (SameState-log w _);
        given = (inl refl, All-impl done (λ x i. inr i) h.given);
        distinct =
            (fresh_lem ip (taken w.log) done (fresh.given_fresh w.log ip u p) h.given, h.distinct);
      }

  allocate_cell-Restoring :
      (done : List String) (t : ℕ) (state : TaskState)
      → Ensures Anything
          (λ w. Restoring v done w × (state ≡ v.cells t))
          (allocate_ip c state.ip_address)
          (λ _. Restoring v ((v.cells t).ip_address ∷ done))
  allocate_cell-Restoring done t state = record {
    at = λ w r.
        subst
          (λ (s : TaskState).
            Post Anything (λ _. Restoring v (s.ip_address ∷ done))
              (allocate_ip c state.ip_address w).0 (allocate_ip c state.ip_address w).1)
          r.1 ((allocate_ip-Restoring done state.ip_address).at w r.0);
  }

  restore_addresses-Restoring :
      (done : List String) (m : List (String × ℕ))
      → Ensures Anything
          (Restoring v done)
          (restore_addresses c m)
          (λ _. Restoring v (collect v.cells done m))
  unfolding restore_addresses pure
  restore_addresses-Restoring done [] = record { at = λ w r. r }
  restore_addresses-Restoring done ((k, t) ∷ m) =
      Ensures-bind _ _ (Restoring-gets v done (λ w. w.cells t) (v.cells t) (λ w s i. s.cells i t))
        (λ state.
          Ensures-bind {Q = λ _. Restoring v ((v.cells t).ip_address ∷ done)} _ _
            (allocate_cell-Restoring done t state)
            (λ u. restore_addresses-Restoring ((v.cells t).ip_address ∷ done) m))

  restore_network-Restoring :
      (cidr : String)
      → Ensures Anything
          (Restoring v [])
          (restore_network c cidr)
          (λ _. Restoring v (all_addresses v))
  unfolding restore_network
  restore_network-Restoring cidr =
      Ensures-bind _ _ (Restoring-Quiet v [] _ (Quiet-request _ _)) (λ u.
        Ensures-bind _ _
          (Restoring-gets v [] _ v.provider.network_gateway
            (λ w s i. (s.provider i).network_gateway))
          (λ gateway. Ensures-bind _ _ (allocate_gateway gateway) (λ u.
            Ensures-bind _ _
              (Restoring-gets v (v.provider.network_gateway ∷ []) _ v.provider.task_states
                (λ w s i. (s.provider i).task_states))
              (λ tasks.
                Ensures-bind _ _ (restore_tasks tasks)
                  (λ u. Restoring-Quiet v _ _ (ensure_network-Quiet c))))))
    where
      allocate_gateway :
          (gateway : String)
          → Ensures Anything
              (λ w. Restoring v [] w × (gateway ≡ v.provider.network_gateway))
              (allocate_ip c gateway)
              (λ _. Restoring v (v.provider.network_gateway ∷ []))
      allocate_gateway gateway = record {
        at = λ w r.
            subst
              (λ g.
                Post Anything (λ _. Restoring v (g ∷ [])) (allocate_ip c gateway w).0
                  (allocate_ip c gateway w).1)
              r.1 ((allocate_ip-Restoring [] gateway).at w r.0);
      }

      restore_tasks :
          (tasks : List (String × ℕ))
          → Ensures Anything
              (λ w.
                Restoring v (v.provider.network_gateway ∷ []) w × (tasks ≡ v.provider.task_states))
              (restore_addresses c tasks)
              (λ _. Restoring v (all_addresses v))
      restore_tasks tasks = record {
        at = λ w r.
            subst
              (λ m.
                Post Anything
                  (λ _. Restoring v (collect v.cells (v.provider.network_gateway ∷ []) m))
                  (restore_addresses c tasks w).0 (restore_addresses c tasks w).1)
              r.1 ((restore_addresses-Restoring (v.provider.network_gateway ∷ []) tasks).at w r.0);
      }

Restoring-start : (v : World) → Restoring v [] v
Restoring-start v = record { same = SameState-refl v; given = tt; distinct = tt }

module _ (c : Client) (fresh : AllocatesFresh c) where
  restore_provider-Ensures :
      (v : World)
      → Ensures Anything (Restoring v []) (restore_provider c) (λ _. Restoring v (all_addresses v))
  unfolding restore_provider raise
  restore_provider-Ensures v =
      Ensures-bind _ _ (Restoring-Quiet v [] _ (Quiet-request _ _))
        (λ u. Ensures-bind _ _ (Restoring-Quiet v [] _ (Quiet-gets _)) restored)
    where
      restored :
          (cidr : Option String)
          → Ensures {A = Unit {0}} Anything
              (Restoring v [])
              (elim cidr [ none ↦ raise bad_cidr | some net ↦ restore_network c net ])
              (λ _. Restoring v (all_addresses v))
      restored none = record { at = λ w r. tt }
      restored (some net) = restore_network-Restoring c fresh v net

  -- With an allocator that gives out no address twice: when restoring a provider succeeds, the tasks
  -- and the provider's state are the ones that were stored, and the addresses of the tasks and of the
  -- gateway are all different and are taken again. The tasks must stand in cells that are in use.
  pub restore_provider-IsOwned :
      (v : World)
      → Older v.next v.provider.task_states
      → (restore_provider c v).0 ≡ ok tt
      → IsOwned (restore_provider c v).1 × SameState v (restore_provider c v).1
  restore_provider-IsOwned v o e =
      (Restoring-IsOwned v (restore_provider c v).1 o restored, restored.same)
    where
      restored : Restoring v (all_addresses v) (restore_provider c v).1
      restored =
          subst
            (λ (r : Result Error (Unit {0})).
              Post Anything (λ _. Restoring v (all_addresses v)) r (restore_provider c v).1)
            e ((restore_provider-Ensures v).at v (Restoring-start v))
