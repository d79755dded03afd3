-- ===== src/Docker/Torn.antt =====
-- petri/core/provider/docker/provider.go: a teardown that succeeds has removed everything.
use ironbird.Base.{
  ℕ, ◌≡◌, refl, sym, inl, inr, String, Option, none, some, List, [], ◌∷◌, All, All-impl, In,
}
use mathlib.Core.Path.{subst}
use ironbird.Base.Action.{Result, ok, err, pure, gets, ◌>>=◌, ◌>>◌}
use ironbird.Docker.Types.{
  World, TaskState, VolumeState, Docker, Client, Error, Log, Call, container_remove, volume_remove,
  network_remove, request,
}
use ironbird.Docker.Network.{remove_container, destroy_volume, destroy_network}
use ironbird.Docker.Provider.{teardown_task, teardown_tasks, teardown}
use ironbird.Base.Triple.{Post, Ensures, Ensures-bind}

abbrev VolumeGone : Option VolumeState → Log → Type 0
VolumeGone none l = Unit
VolumeGone (some v) l = In (volume_remove v.name (ok tt)) l

-- The task's container and its volume were removed, without an error.
pub record TaskGone (s : TaskState) (l : Log) : Type 0 where
  pub container : In (container_remove s.id (ok tt)) l
  pub volume : VolumeGone s.volume l

-- All tasks and the network were removed.
pub record Torn (v w : World) : Type 0 where
  pub tasks : All (λ e. TaskGone (v.cells e.1) w.log) v.provider.task_states
  pub network : In (network_remove v.provider.network_id (ok tt)) w.log

VolumeGone-cons :
    (o : Option VolumeState) (e : Call) (l : Log) → VolumeGone o l → VolumeGone o (e ∷ l)
VolumeGone-cons none e l h = tt
VolumeGone-cons (some v) e l h = inr h

TaskGone-cons : (s : TaskState) (e : Call) (l : Log) → TaskGone s l → TaskGone s (e ∷ l)
TaskGone-cons s e l h = record {
  container = inr h.container;
  volume = VolumeGone-cons s.volume e l h.volume;
}

abbrev Anything : World → Type 0
Anything w = Unit

-- `v` with only calls added, after which the tasks `gone` are gone.
abbrev Progress : World → List (String × ℕ) → World → Type 0
Progress v gone w =
    ((w.cells ≡ v.cells) × (w.provider ≡ v.provider)) × All (λ e. TaskGone (v.cells e.1) w.log) gone

Progress-log :
    (v : World) (gone : List (String × ℕ)) (w : World) (e : Call)
    → Progress v gone w
    → Progress v gone (record w { log = e ∷ w.log })
Progress-log v gone w e p = (p.0, All-impl gone (λ g h. TaskGone-cons (v.cells g.1) e w.log h) p.1)

module _ (c : Client) (v : World) where
  remove_container-Progress :
      (gone : List (String × ℕ)) (id : String)
      → Ensures Anything
          (Progress v gone)
          (remove_container c id)
          (λ _ w. Progress v gone w × In (container_remove id (ok tt)) w.log)
  unfolding remove_container request
  remove_container-Progress gone id = record {
    at = λ w p. answered w p (c.container_removed w.log id);
  }
    where
      answered :
          (w : World)
          → Progress v gone w
          → (r : Result Error (Unit {0}))
          → Post Anything
              (λ _ w'. Progress v gone w' × In (container_remove id (ok tt)) w'.log)
              r
              (record w { log = container_remove id r ∷ w.log })
      answered w p (err e) = tt
      answered w p (ok u) = (Progress-log v gone w _ p, inl refl)

  remove_volume-Progress :
      (gone : List (String × ℕ)) (key : String) (t : ℕ) (o : Option VolumeState)
      → o ≡ (v.cells t).volume
      → Ensures {E = Error} Anything
          (λ w. Progress v gone w × In (container_remove (v.cells t).id (ok tt)) w.log)
          (elim o [ none ↦ pure tt | some s ↦ destroy_volume c s.name ])
          (λ _. Progress v ((key, t) ∷ gone))
  unfolding destroy_volume request pure
  remove_volume-Progress gone key t none e = record {
    at = λ w p.
        (p.0.0, (record { container = p.1; volume = subst (λ o. VolumeGone o w.log) e tt }, p.0.1));
  }
  remove_volume-Progress gone key t (some s) e = record {
    at = λ w p. answered w p (c.volume_removed w.log s.name);
  }
    where
      answered :
          (w : World)
          → Progress v gone w × In (container_remove (v.cells t).id (ok tt)) w.log
          → (r : Result Error (Unit {0}))
          → Post Anything
              (λ _. Progress v ((key, t) ∷ gone))
              r
              (record w { log = volume_remove s.name r ∷ w.log })
      answered w p (err x) = tt
      answered w p (ok u) = (
        p.0.0,
        (
          record {
            container = inr p.1;
            volume = subst (λ o. VolumeGone o (volume_remove s.name (ok tt) ∷ w.log)) e (inl refl);
          },
          (Progress-log v gone w _ p.0).1,
        ),
      )

  -- The two steps for a task whose state is `s`.
  abbrev remove_both : TaskState → Docker (Unit {0})
  remove_both s =
      remove_container c s.id >> elim s.volume [ none ↦ pure tt | some n ↦ destroy_volume c n.name ]

  remove_both-Progress :
      (gone : List (String × ℕ)) (key : String) (t : ℕ)
      → Ensures Anything
          (Progress v gone)
          (remove_both (v.cells t))
          (λ _. Progress v ((key, t) ∷ gone))
  remove_both-Progress gone key t =
      Ensures-bind _ _ (remove_container-Progress gone (v.cells t).id)
        (λ u. remove_volume-Progress gone key t (v.cells t).volume refl)

  teardown_task-Progress :
      (gone : List (String × ℕ)) (key : String) (t : ℕ)
      → Ensures Anything (Progress v gone) (teardown_task c t) (λ _. Progress v ((key, t) ∷ gone))
  unfolding teardown_task gets ◌>>=◌
  teardown_task-Progress gone key t = record {
    at = λ w p.
        subst
          (λ s.
            Post Anything (λ _. Progress v ((key, t) ∷ gone)) (remove_both s w).0
              (remove_both s w).1)
          (sym (λ i. p.0.0 i t)) ((remove_both-Progress gone key t).at w p);
  }

  -- The tasks in the order in which they go, the last one first.
  abbrev reverse_onto : List (String × ℕ) → List (String × ℕ) → List (String × ℕ)
  reverse_onto gone [] = gone
  reverse_onto gone (e ∷ es) = reverse_onto (e ∷ gone) es

  teardown_tasks-Progress :
      (gone tasks : List (String × ℕ))
      → Ensures Anything
          (Progress v gone)
          (teardown_tasks c tasks)
          (λ _. Progress v (reverse_onto gone tasks))
  unfolding teardown_tasks pure
  teardown_tasks-Progress gone [] = record { at = λ w p. p }
  teardown_tasks-Progress gone ((k, t) ∷ tasks) =
      Ensures-bind _ _ (teardown_task-Progress gone k t)
        (λ u. teardown_tasks-Progress ((k, t) ∷ gone) tasks)

  All-reverse_onto :
      (P : String × ℕ → Type 0) (gone tasks : List (String × ℕ))
      → All P (reverse_onto gone tasks)
      → All P gone × All P tasks
  All-reverse_onto P gone [] a = (a, tt)
  All-reverse_onto P gone (e ∷ es) a =
      let rest = All-reverse_onto P (e ∷ gone) es a in (rest.0.1, (rest.0.0, rest.1))

  destroy_network-Torn :
      Ensures Anything
        (Progress v (reverse_onto [] v.provider.task_states))
        (destroy_network c)
        (λ _. Torn v)
  unfolding destroy_network request
  destroy_network-Torn = record {
    at = λ w p. answered w p (c.network_removed w.log w.provider.network_id);
  }
    where
      answered :
          (w : World)
          → Progress v (reverse_onto [] v.provider.task_states) w
          → (r : Result Error (Unit {0}))
          → Post Anything
              (λ _. Torn v)
              r
              (record w { log = network_remove w.provider.network_id r ∷ w.log })
      answered w p (err e) = tt
      answered w p (ok u) = record {
        tasks =
            (All-reverse_onto _ [] v.provider.task_states
              (Progress-log v _ w (network_remove w.provider.network_id (ok tt)) p).1).1;
        network = inl (λ i. network_remove (sym p.0.1 i).network_id (ok tt));
      }

  teardown-Ensures : Ensures Anything (λ w. w ≡ v) (teardown c) (λ _. Torn v)
  unfolding teardown gets ◌>>=◌
  teardown-Ensures = record {
    at = λ w e.
        subst (λ x. Post Anything (λ _. Torn v) (teardown c x).0 (teardown c x).1) (sym e)
          ((Ensures-bind _ _ (teardown_tasks-Progress [] v.provider.task_states)
              (λ u. destroy_network-Torn)).at
            v ((refl, refl), tt));
  }

  -- A teardown that reports no error has removed the container and, if there is one, the volume of
  -- every task of the provider, and the provider's network.
  pub teardown-Torn : (teardown c v).0 ≡ ok tt → Torn v (teardown c v).1
  teardown-Torn e =
      subst (λ (r : Result Error (Unit {0})). Post Anything (λ _. Torn v) r (teardown c v).1) e
        (teardown-Ensures.at v refl)
