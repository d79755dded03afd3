-- ===== src/Chain/Harmless.antt =====
-- petri/cosmos/chain: actions that start no node. They keep what is known of the earlier requests.
use ironbird.Base.{
  ℕ, ◌≡◌, refl, ◌⊎◌, inl, String, Bool, true, false, List, [], ◌∷◌, map, if◌then◌else◌, In, All,
}
use ironbird.Base.Action.{Result, ok, err, pure, raise, lift, ◌>>=◌}
use ironbird.Base.Triple.{Post, Ensures, Ensures-bind, Ensures-impl, Post-constant}
use ironbird.Chain.Types.{
  Error, Request, overwrite_genesis, set_chain_configs, start, Answer, Log, Nodes, Chain, ask,
}
use ironbird.Chain.Setup.{first_failure, together, group}

-- The node has the genesis file, and its configuration with the chain's identifier.
pub record Configured (chain_id genesis : String) (log : Log) (n : ℕ) : Type 0 where
  pub file : In (overwrite_genesis n genesis, ok tt) log
  pub address : String
  pub configs : In (set_chain_configs n chain_id address, ok tt) log

abbrev pub is_start : Request → Bool
is_start (start n) = true
is_start _ = false

-- A request is no start, or all members have the same genesis file and are configured.
abbrev pub Justified : String → List ℕ → Request → Log → Type 0
Justified chain_id members q log =
    (is_start q ≡ false) ⊎ ((genesis : String) × All (Configured chain_id genesis log) members)

abbrev pub Sound : String → List ℕ → Log → Type 0
Sound chain_id members [] = Unit
Sound chain_id members (e ∷ log) = Justified chain_id members e.0 log × Sound chain_id members log

-- What is known of a log, and stays known when there are more requests.
abbrev pub Lasting : (Log → Type 0) → Type 0
Lasting P = (e : (q : Request) × Result Error (Answer q)) (log : Log) → P log → P (e ∷ log)

module _ (chain_id : String) (members : List ℕ) where
  abbrev pub SoundLog : Log → Type 0
  SoundLog = Sound chain_id members

  -- The log is sound, and more is known.
  abbrev pub Told : (Log → Type 0) → Log → Type 0
  Told P log = SoundLog log × P log

  -- `Pre` is known whatever happens, and `P` beside a value.
  pub record Harmless {A : Type 0} (m : Chain A) : Type 1 where
    pub at :
        (Pre P : Log → Type 0)
        → Lasting Pre
        → Lasting P
        → ((log : Log) → P log → Pre log)
        → Ensures {E = Error} (Told Pre) (Told P) m (λ _. Told P)

  -- A request after which the log stays sound.
  pub ask-Told :
      (nodes : Nodes) (q : Request) (Pre P : Log → Type 0)
      → Lasting P
      → ((log : Log) → P log → Pre log)
      → ((log : Log) → P log → Justified chain_id members q log)
      → Ensures {E = Error}
          (Told Pre)
          (Told P)
          (ask nodes q)
          (λ a. Told (λ log. P log × In (q, ok a) log))
  unfolding ask
  ask-Told nodes q Pre P lasting pre just = record { at = λ w h. answered w h (nodes.answer w q) }
    where
      answered :
          (w : Log)
          → Told P w
          → (r : Result Error (Answer q))
          → Post (Told Pre) (λ a. Told (λ log. P log × In (q, ok a) log)) r ((q, r) ∷ w)
      answered w h (err e) = ((just w h.1, h.0), pre ((q, err e) ∷ w) (lasting (q, err e) w h.1))
      answered w h (ok a) = ((just w h.1, h.0), (lasting (q, ok a) w h.1, inl refl))

  pub Harmless-ask : (nodes : Nodes) (q : Request) → is_start q ≡ false → Harmless (ask nodes q)
  unfolding ask
  Harmless-ask nodes q h = record {
    at = λ Pre P stays lasting pre. record {
      at = λ w k. answered Pre P lasting pre w k (nodes.answer w q);
    };
  }
    where
      answered :
          (Pre P : Log → Type 0)
          → Lasting P
          → ((log : Log) → P log → Pre log)
          → (w : Log) → Told P w
          → (r : Result Error (Answer q)) → Post (Told Pre) (λ _. Told P) r ((q, r) ∷ w)
      answered Pre P lasting pre w k r =
          Post-constant (Told Pre) (Told P) r ((q, r) ∷ w) (λ t. (t.0, pre ((q, r) ∷ w) t.1))
            ((inl h, k.0), lasting (q, r) w k.1)

  pub Harmless-bind :
      {A B : Type 0} (m : Chain A) (f : A → Chain B)
      → Harmless m
      → ((a : A) → Harmless (f a))
      → Harmless (m >>= f)
  Harmless-bind m f hm hf = record {
    at = λ Pre P stays lasting pre.
        Ensures-bind m f (hm.at Pre P stays lasting pre) (λ a. (hf a).at Pre P stays lasting pre);
  }

  pub Harmless-pure : {A : Type 0} (a : A) → Harmless (pure a)
  unfolding pure
  Harmless-pure a = record { at = λ Pre P stays lasting pre. record { at = λ w k. k } }

  pub Harmless-raise : {A : Type 0} (e : Error) → Harmless {A = A} (raise e)
  unfolding raise
  Harmless-raise e = record {
    at = λ Pre P stays lasting pre. record { at = λ w k. (k.0, pre w k.1) };
  }

  pub Harmless-lift : {A : Type 0} (r : Result Error A) → Harmless (lift r)
  unfolding lift
  Harmless-lift r = record {
    at = λ Pre P stays lasting pre. record {
      at = λ w k. Post-constant (Told Pre) (Told P) r w (λ t. (t.0, pre w t.1)) k;
    };
  }

  -- Two jobs of a group, where the second keeps what the first makes true.
  pub together-Told :
      {A B : Type 0} (m : Chain A) (k : Chain B) (Err P Q R : Log → Type 0)
      → Ensures {E = Error} Err P m (λ _. Q)
      → Ensures {E = Error} Err Err k (λ _. Err)
      → Ensures {E = Error} Err Q k (λ _. R)
      → Ensures {E = Error} Err P (together m k) (λ _. R)
  unfolding together
  together-Told {A} {B} m k Err P Q R hm alone hk = record {
    at = λ w h. first (m w).0 (m w).1 (hm.at w h);
  }
    where
      either : (r : Result Error B) (w : Log) → Post Err (λ _. Err) r w → Err w
      either (ok b) w h = h
      either (err e) w h = h

      second :
          (a : A) (r : Result Error B) (w : Log)
          → Post Err (λ _. R) r w
          → Post Err (λ _. R) (first_failure (ok a) r) w
      second a (ok b) w h = h
      second a (err e) w h = h

      first :
          (r : Result Error A) (w : Log)
          → Post Err (λ _. Q) r w
          → Post Err (λ _. R) (first_failure r (k w).0) (k w).1
      first (ok a) w h = second a (k w).0 (k w).1 (hk.at w h)
      first (err e) w h = either (k w).0 (k w).1 (alone.at w h)

  pub Harmless-together :
      {A B : Type 0} (m : Chain A) (k : Chain B) → Harmless m → Harmless k → Harmless (together m k)
  Harmless-together m k hm hk = record {
    at = λ Pre P stays lasting pre.
        together-Told m k (Told Pre) (Told P) (Told P) (Told P) (hm.at Pre P stays lasting pre)
          (hk.at Pre Pre stays stays (λ log h. h)) (hk.at Pre P stays lasting pre);
  }

  pub Harmless-group :
      {X A : Type 0} (f : X → Chain A)
      → ((x : X) → Harmless (f x))
      → (xs : List X) → Harmless (group (map f xs))
  unfolding group
  Harmless-group f h [] = Harmless-pure []
  Harmless-group f h (x ∷ xs) =
      Harmless-bind _ _ (Harmless-together (f x) _ (h x) (Harmless-group f h xs))
        (λ all. Harmless-pure (all.0 ∷ all.1))

  pub Harmless-if :
      {A : Type 0} (b : Bool) (m k : Chain A)
      → Harmless m
      → Harmless k
      → Harmless (if b then m else k)
  Harmless-if true m k hm hk = hm
  Harmless-if false m k hm hk = hk

  -- A group in which each job makes something true that lasts, while `Pre` stays known: afterwards
  -- it is true for all.
  pub group-Told :
      {X A : Type 0} (f : X → Chain A) (Pre : Log → Type 0) (Q : X → Log → Type 0)
      → Lasting Pre
      → ((x : X) → Lasting (Q x))
      → ((x : X) (P : Log → Type 0)
          → Lasting P
          → ((log : Log) → P log → Pre log)
          → Ensures {E = Error} (Told Pre) (Told P) (f x) (λ _. Told (λ log. P log × Q x log)))
      → (xs : List X) (P : Log → Type 0) → Lasting P
      → ((log : Log) → P log → Pre log)
      → Ensures {E = Error}
          (Told Pre)
          (Told P)
          (group (map f xs))
          (λ _. Told (λ log. P log × All (λ x. Q x log) xs))
  unfolding group pure
  group-Told f Pre Q stays lasts step [] P lasting pre = record { at = λ w k. (k.0, (k.1, tt)) }
  group-Told f Pre Q stays lasts step (x ∷ xs) P lasting pre =
      Ensures-bind _ _
        (together-Told (f x) (group (map f xs)) (Told Pre) (Told P) (Told (λ log. P log × Q x log))
          (Told (λ log. P log × (Q x log × All (λ y. Q y log) xs))) (step x P lasting pre)
          (Ensures-impl _ _ _ _ _ (λ a w k. (k.0, k.1.0))
            (group-Told f Pre Q stays lasts step xs Pre stays (λ log h. h)))
          (Ensures-impl _ _ _ _ _ (λ a w k. (k.0, (k.1.0.0, (k.1.0.1, k.1.1))))
            (group-Told f Pre Q stays lasts step xs (λ log. P log × Q x log)
              (λ e log h. (lasting e log h.0, lasts x e log h.1)) (λ log h. pre log h.0))))
        (λ all. record { at = λ w k. k })
