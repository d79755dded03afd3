-- ===== src/Chain/Started.antt =====
-- petri/cosmos/chain/chain.go: no node of a chain starts before all of them are configured.
use ironbird.Base.{ℕ, refl, inl, inr, String, Bool, List, [], ◌++◌, In, All, All-impl}
use ironbird.Base.Action.{Result, ok, err, pure, ◌>>=◌, ◌>>◌}
use ironbird.Base.Triple.{Post, Ensures, Ensures-bind, Ensures-impl, Ensures-err}
use ironbird.Chain.Types.{
  Error, genesis_file, create_wallet, overwrite_genesis, set_chain_configs, set_persistent_peers,
  set_seed_node, start, Log, Nodes, Chain, ask,
}
use ironbird.Chain.Create.{State}
use ironbird.Chain.Peers.{as_comet_peer_string}
use ironbird.Chain.Setup.{
  Codec, ChainOptions, set_bootstrap, configure_node, configure_and_start, init,
}
use ironbird.Chain.Calm.{
  asking, next, lifting, comet_string-Calm, p2p_address-Calm, set_bootstrap-Calm, operations-Calm,
  setup_nodes-Calm, full_node-Calm, seed_mode-Calm,
}
use ironbird.Chain.Harmless.{Configured, Sound, Lasting, Told, Harmless, ask-Told, group-Told}

-- All members are configured with one genesis file.
abbrev pub AllConfigured : String → List ℕ → Log → Type 0
AllConfigured chain_id members log =
    (genesis : String) × All (Configured chain_id genesis log) members

Configured-cons :
    (chain_id genesis : String) (n : ℕ) → Lasting (λ log. Configured chain_id genesis log n)
Configured-cons chain_id genesis n e log c = record {
  file = inr c.file;
  address = c.address;
  configs = inr c.configs;
}

AllConfigured-cons :
    (chain_id : String) (members : List ℕ) → Lasting (AllConfigured chain_id members)
AllConfigured-cons chain_id members e log c =
    (c.0, All-impl members (λ n h. Configured-cons chain_id c.0 n e log h) c.1)

abbrev Nothing : Log → Type 0
Nothing log = Unit

abbrev pub StartedIn : ℕ → Log → Type 0
StartedIn n log = In (start n, ok tt) log

module _ (nodes : Nodes) (codec : Codec) (s : State) where
  abbrev id : String
  id = s.config.chain_id

  abbrev pub members_of : List ℕ
  members_of = s.validators ++ s.nodes

  configure_node-Configured :
      (genesis : String) (persistent seeds : List ℕ) (external : Bool) (n : ℕ) (P : Log → Type 0)
      → Lasting P
      → Ensures {E = Error}
          (Told id members_of Nothing)
          (Told id members_of P)
          (configure_node nodes codec s.config genesis persistent seeds external n)
          (λ _. Told id members_of (λ log. P log × Configured id genesis log n))
  unfolding configure_node
  configure_node-Configured genesis persistent seeds external n P lasting =
      Ensures-bind _ _
        (ask-Told id members_of nodes (overwrite_genesis n genesis) Nothing P lasting (λ log p. tt)
          (λ log p. inl refl))
        (λ u.
          Ensures-bind _ _
            ((p2p_address-Calm id members_of nodes codec external n).at Nothing _ nothing
              (λ e log h. (lasting e log h.0, inr h.1)) (λ log p. tt))
            (λ addr.
              Ensures-bind _ _
                (ask-Told id members_of nodes (set_chain_configs n id addr) Nothing _
                  (λ e log h. (lasting e log h.0, inr h.1)) (λ log p. tt) (λ log p. inl refl))
                (λ v.
                  Ensures-impl _ _ _ _ _
                    (λ a w k.
                      (k.0, (k.1.0.0, record { file = k.1.0.1; address = addr; configs = k.1.1 })))
                    (rest_calm.at Nothing _ nothing
                      (λ e log h. ((lasting e log h.0.0, inr h.0.1), inr h.1)) (λ log p. tt)))))
    where
      nothing : Lasting Nothing
      nothing e log h = tt

      rest_calm : Harmless id members_of (
          as_comet_peer_string nodes external persistent >>= (λ peers.
            ask nodes (set_persistent_peers n peers)
            >> (as_comet_peer_string nodes external seeds >>= (λ seed_peers.
                ask nodes (set_seed_node n seed_peers)
                >> set_bootstrap nodes codec s.config persistent seeds external n))))
      rest_calm =
          next id members_of nodes (comet_string-Calm id members_of nodes external persistent)
            (λ peers.
              next id members_of nodes
                (asking id members_of nodes (set_persistent_peers n peers) refl)
                (λ u.
                  next id members_of nodes (comet_string-Calm id members_of nodes external seeds)
                    (λ seed_peers.
                      next id members_of nodes
                        (asking id members_of nodes (set_seed_node n seed_peers) refl)
                        (λ v.
                          set_bootstrap-Calm id members_of nodes codec s.config persistent seeds
                            external n))))

  Nothing-Lasting : Lasting Nothing
  Nothing-Lasting e log h = tt

  start-Told :
      (n : ℕ) (P : Log → Type 0)
      → Lasting P
      → ((log : Log) → P log → AllConfigured id members_of log)
      → Ensures {E = Error}
          (Told id members_of (AllConfigured id members_of))
          (Told id members_of P)
          (ask nodes (start n))
          (λ _. Told id members_of (λ log. P log × StartedIn n log))
  start-Told n P lasting pre =
      ask-Told id members_of nodes (start n) (AllConfigured id members_of) P lasting pre
        (λ log p. inr (pre log p))

  -- After the groups, all members have been started.
  configure_and_start-Told :
      (genesis : String) (seeds : List ℕ)
      → Ensures {E = Error}
          (Told id members_of Nothing)
          (Told id members_of Nothing)
          (configure_and_start nodes codec s genesis seeds)
          (λ _. Told id members_of (λ log. All (λ n. StartedIn n log) members_of))
  unfolding configure_and_start pure AllConfigured-cons
  configure_and_start-Told genesis seeds =
      Ensures-bind _ _
        (group-Told id members_of _ Nothing (λ n log. Configured id genesis log n) Nothing-Lasting
          (Configured-cons id genesis)
          (λ n P lasting pre.
            configure_node-Configured genesis _ seeds s.use_external_addresses n P lasting)
          members_of Nothing Nothing-Lasting (λ log p. tt))
        (λ u.
          Ensures-bind _ _
            (Ensures-impl _ _ _ _ _ (λ a w k. (k.0, (genesis, k.1.1)))
              ((seed_mode-Calm id members_of nodes codec seeds).at Nothing _ Nothing-Lasting
                (λ e log h. (tt, (AllConfigured-cons id members_of e log (genesis, h.1)).1))
                (λ log p. tt)))
            (λ v.
              Ensures-bind _ _
                (Ensures-err _ _ _ _ _ (λ w k. (k.0, tt))
                  (group-Told id members_of _ (AllConfigured id members_of) StartedIn
                    (AllConfigured-cons id members_of) (λ n e log h. inr h) start-Told members_of
                    (AllConfigured id members_of) (AllConfigured-cons id members_of) (λ log p. p)))
                (λ all. record { at = λ w k. (k.0, k.1.1) })))

  init-Told :
      (opts : ChainOptions)
      → Ensures {E = Error}
          (Told id members_of Nothing)
          (Told id members_of Nothing)
          (init nodes codec s opts)
          (λ _. Told id members_of (λ log. All (λ n. StartedIn n log) members_of))
  unfolding init pure
  init-Told opts = Ensures-bind _ _ (calm (lifting id members_of nodes _)) (λ u.
      Ensures-bind _ _ (calm (setup_nodes-Calm id members_of nodes codec s opts.wallet_config))
        (λ wallets. Ensures-bind _ _ (calm (full_node-Calm id members_of nodes codec s)) (λ full.
          Ensures-bind _ _
            (calm
              (asking id members_of nodes (create_wallet full "faucet" opts.wallet_config) refl))
            (λ faucet. Ensures-bind _ _ (calm (lifting id members_of nodes _)) (λ first.
              Ensures-bind _ _
                (calm (
                  operations-Calm id members_of nodes codec s.config opts first s.validators wallets
                    faucet _))
                (λ v.
                  Ensures-bind _ _ (calm (asking id members_of nodes (genesis_file first) refl))
                    (λ written. Ensures-bind _ _ (calm (lifting id members_of nodes _)) (λ genesis.
                      Ensures-bind _ _ (calm (lifting id members_of nodes _)) (λ seeds.
                        Ensures-bind _ _ (configure_and_start-Told genesis seeds)
                          (λ w. ending _))))))))))
    where
      calm :
          {A : Type 0} {m : Chain A}
          → Harmless id members_of m
          → Ensures {E = Error}
              (Told id members_of Nothing)
              (Told id members_of Nothing)
              m
              (λ _. Told id members_of Nothing)
      calm h = h.at Nothing Nothing Nothing-Lasting Nothing-Lasting (λ log p. tt)

      ending :
          {A : Type 0} (a : A)
          → Ensures {E = Error}
              (Told id members_of Nothing)
              (Told id members_of (λ log. All (λ n. StartedIn n log) members_of))
              (pure a)
              (λ _. Told id members_of (λ log. All (λ n. StartedIn n log) members_of))
      ending a = record { at = λ w k. k }

  -- What an initialisation promises, with or without a new state.
  abbrev pub Initialised : Result Error State → Log → Type 0
  Initialised (ok new) log = Sound id members_of log × All (λ n. StartedIn n log) members_of
  Initialised (err e) log = Sound id members_of log

  -- When an initialisation starts a node, every validator and node of the chain has got one and the same
  -- genesis file and its configuration with the chain's identifier, each without an error; and an
  -- initialisation that succeeds has started all of them.
  pub init-Initialised :
      (opts : ChainOptions)
      → Initialised (init nodes codec s opts []).0 (init nodes codec s opts []).1
  init-Initialised opts = finished (init nodes codec s opts []).0 ((init-Told opts).at [] (tt, tt))
    where
      finished :
          (r : Result Error State)
          → Post
              (Told id members_of Nothing)
              (λ _. Told id members_of (λ log. All (λ n. StartedIn n log) members_of))
              r
              (init nodes codec s opts []).1
          → Initialised r (init nodes codec s opts []).1
      finished (ok new) h = h
      finished (err e) h = h.0
