-- ===== src/Chain/Reached.antt =====
-- petri/cosmos/chain/chain.go: what a wait for a height and a teardown promise.
use ironbird.Base.{
  ℕ, zero, suc, ◌≤◌, ◌≡◌, refl, inl, inr, true, false, List, [], ◌∷◌, ◌++◌, arith, leb_iff,
  Bool-cases, In, All, All-append, All-impl, length,
}
use mathlib.Core.Path.{subst}
use ironbird.Base.Action.{Result, ok, err, Result-cases, pure, raise, continue, ◌>>=◌}
use ironbird.Base.Triple.{Post, Ensures, Ensures-bind, Ensures-impl}
use ironbird.Chain.Types.{Error, block_height, destroy, Log, Nodes, ask}
use ironbird.Chain.Create.{State}
use ironbird.Chain.Setup.{Codec, full_node, candidates, nth}
use ironbird.Chain.Waiting.{
  height, reached, wait_for_height, wait_for_startup, destroy_each, teardown_chain,
}

-- The last request asked a node for its height, which is at least `desired`.
pub record Reached (desired : ℕ) (log : Log) : Type 0 where
  pub node : ℕ
  pub found : ℕ
  pub before : Log
  pub last : log ≡ (block_height node, ok found) ∷ before
  pub enough : desired ≤ found

false-not-true : false ≡ true → ⊥
false-not-true p = ground arith

-- What a wait promises.
abbrev pub Waited : ℕ → Result Error (Unit {0}) → Log → Type 0
Waited desired (ok u) log = Reached desired log
Waited desired (err e) log = Unit

module _ (nodes : Nodes) (codec : Codec) (s : State) where
  height_lem :
      (desired : ℕ) (log : Log)
      → reached nodes codec s desired (height nodes codec s log).0 ≡ true
      → Reached desired (height nodes codec s log).1
  unfolding height full_node ask ◌>>=◌
  height_lem desired log h = chosen (nth from (nodes.random log (length from))) h
    where
      from : List ℕ
      from = candidates nodes codec s.nodes s.validators

      chosen :
          (r : Result Error ℕ)
          → reached nodes codec s desired (continue r (λ n. ask nodes (block_height n)) log).0
            ≡ true
          → Reached desired (continue r (λ n. ask nodes (block_height n)) log).1
      chosen (err e) h = elim (false-not-true h) [ ]
      chosen (ok n) h = answered (nodes.answer log (block_height n)) h
        where
          answered :
              (r : Result Error ℕ)
              → reached nodes codec s desired r ≡ true
              → Reached desired ((block_height n, r) ∷ log)
          answered (ok k) p = record {
            node = n;
            found = k;
            before = log;
            last = refl;
            enough = (leb_iff desired k).0 p;
          }
          answered (err e) p = elim (false-not-true p) [ ]

  wait_for_height-Waited :
      (fuel desired : ℕ) (log : Log)
      → Waited desired
          (wait_for_height nodes codec s fuel desired log).0
          (wait_for_height nodes codec s fuel desired log).1
  unfolding wait_for_height raise
  wait_for_height-Waited zero desired log = tt
  wait_for_height-Waited (suc fuel) desired log = elim (Bool-cases (nodes.ctx_done log)) [
    | inl over ↦ rw over tt
    | inr going ↦ elim (Bool-cases (reached nodes codec s desired (height nodes codec s log).0)) [
      | inl found ↦ rw (going, found) (height_lem desired log found)
      | inr missed ↦
          rw (going, missed) (wait_for_height-Waited fuel desired (height nodes codec s log).1)
    ]
  ]

  -- A wait for the start that reports no error ends with a request that found a node at a height of one
  -- or more, whatever failed before.
  pub wait_for_startup-Waited :
      (fuel inner : ℕ) (log : Log)
      → Waited 1
          (wait_for_startup nodes codec s fuel inner log).0
          (wait_for_startup nodes codec s fuel inner log).1
  unfolding wait_for_startup raise
  wait_for_startup-Waited zero inner log = tt
  wait_for_startup-Waited (suc fuel) inner log = elim (Bool-cases (nodes.ctx_done log)) [
    | inl over ↦ rw over tt
    | inr going ↦ elim (Result-cases (wait_for_height nodes codec s inner 1 log).0) [
      | inl (u, fine) ↦
          rw (going, fine)
            (subst (λ r. Waited 1 r (wait_for_height nodes codec s inner 1 log).1) fine
              (wait_for_height-Waited inner 1 log))
      | inr (e, bad) ↦
          rw (going, bad)
            (wait_for_startup-Waited fuel inner (wait_for_height nodes codec s inner 1 log).1)
    ]
  ]

  abbrev Destroyed : ℕ → Log → Type 0
  Destroyed n log = In (destroy n, ok tt) log

  destroy-Destroyed :
      (done : List ℕ) (n : ℕ)
      → Ensures {E = Error}
          (λ log. Unit {0})
          (λ log. All (λ n. Destroyed n log) done)
          (ask nodes (destroy n))
          (λ _ log. All (λ n. Destroyed n log) (n ∷ done))
  unfolding ask
  destroy-Destroyed done n = record { at = λ w h. answered w h (nodes.answer w (destroy n)) }
    where
      answered :
          (w : Log)
          → All (λ n. Destroyed n w) done
          → (r : Result Error (Unit {0}))
          → Post
              (λ log. Unit {0})
              (λ _ log. All (λ n. Destroyed n log) (n ∷ done))
              r
              ((destroy n, r) ∷ w)
      answered w h (err e) = tt
      answered w h (ok u) = (inl refl, All-impl done (λ n i. inr i) h)

  destroy_each-Destroyed :
      (done ns : List ℕ)
      → Ensures {E = Error}
          (λ log. Unit {0})
          (λ log. All (λ n. Destroyed n log) done)
          (destroy_each nodes codec s ns)
          (λ _ log. All (λ n. Destroyed n log) done × All (λ n. Destroyed n log) ns)
  unfolding destroy_each pure
  destroy_each-Destroyed done [] = record { at = λ w h. (h, tt) }
  destroy_each-Destroyed done (n ∷ ns) = Ensures-bind _ _ (destroy-Destroyed done n) (λ u.
      Ensures-impl _ _ _ _ _ (λ a w k. (k.0.1, (k.0.0, k.1)))
        (destroy_each-Destroyed (n ∷ done) ns))

  -- A teardown that reports no error has destroyed every validator and every node without an error.
  pub teardown_chain-Destroyed :
      (log : Log)
      → (teardown_chain nodes codec s log).0 ≡ ok tt
      → All (λ n. Destroyed n (teardown_chain nodes codec s log).1) (s.validators ++ s.nodes)
  unfolding teardown_chain
  teardown_chain-Destroyed log e =
      subst
        (λ r.
          Post {E = Error} {A = Unit} (λ log. Unit {0})
            (λ _ log. All (λ n. Destroyed n log) (s.validators ++ s.nodes)) r
            (teardown_chain nodes codec s log).1)
        e
        ((Ensures-bind _ _ (destroy_each-Destroyed [] s.validators) (λ u.
            Ensures-impl _ _ _ _ _ (λ a w k. All-append _ s.validators s.nodes k.0 k.1)
              (record { at = λ w h. (destroy_each-Destroyed s.validators s.nodes).at w h.1 }))).at
          log tt)
