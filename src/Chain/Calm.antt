-- ===== src/Chain/Calm.antt =====
-- petri/cosmos/chain: the steps of the initialisation that start no node.
use ironbird.Base.{ℕ, ◌≡◌, refl, String, Bool, true, false, not, List, [], ◌∷◌}
use ironbird.Base.Action.{Result, pure, lift, ◌>>=◌}
use ironbird.Base.Triple.{Post-constant}
use ironbird.Genesis.{Coin, Balance, Account, build_balances}
use ironbird.Chain.Types.{
  WalletConfig, ChainConfig, Error, no_base_mnemonic, index_out_of_range, script_failed, Wallet,
  Request, genesis_file, ip, private_ip, node_id, peer_id, setup_validator, setup_node,
  set_seed_mode, overwrite_genesis, copy_gentx, run_command, external_address, set_bootstrap_peers,
  Nodes, Chain, ask,
}
use ironbird.Chain.Create.{State}
use ironbird.Chain.Peers.{
  peer_host_external, peer_host_internal, peer_host_private, comet_host, comet_peers,
  as_comet_peer_string, bootstrap_host, as_lib_p2p_bootstrap_peers, compose_lib_p2p_bootstrap_peers,
}
use ironbird.Chain.Setup.{
  Codec, ChainOptions, update_genesis_balances, fund_validator, add_accounts, validator_lines,
  execute_genesis_operations, p2p_address, set_bootstrap, full_node, seed_mode, setup_nodes,
}
use ironbird.Chain.Harmless.{
  is_start, Told, Harmless, Harmless-ask, Harmless-bind, Harmless-pure, Harmless-raise,
  Harmless-lift, Harmless-together, Harmless-group, Harmless-if,
}

module _ (chain_id : String) (members : List ℕ) (nodes : Nodes) where
  abbrev pub Calm : {A : Type 0} → Chain A → Type 1
  Calm = Harmless chain_id members

  pub asking : (q : Request) → is_start q ≡ false → Calm (ask nodes q)
  asking = Harmless-ask chain_id members nodes

  pub next :
      {A B : Type 0} {m : Chain A} {f : A → Chain B}
      → Calm m
      → ((a : A) → Calm (f a))
      → Calm (m >>= f)
  next hm hf = Harmless-bind chain_id members _ _ hm hf

  pub done : {A : Type 0} (a : A) → Calm (pure a)
  done = Harmless-pure chain_id members

  pub lifting : {A : Type 0} (r : Result Error A) → Calm (lift r)
  lifting = Harmless-lift chain_id members

  host_internal-Calm : (n : ℕ) → Calm (peer_host_internal nodes n)
  unfolding peer_host_internal
  host_internal-Calm n = next (asking (ip n) refl) (λ addr. done _)

  comet_host-Calm : (external : Bool) (n : ℕ) → Calm (comet_host nodes external n)
  unfolding peer_host_external
  comet_host-Calm true n = asking (external_address n "26656") refl
  comet_host-Calm false n = host_internal-Calm n

  comet_peers-Calm : (external : Bool) (ns : List ℕ) → Calm (comet_peers nodes external ns)
  unfolding comet_peers
  comet_peers-Calm external [] = done []
  comet_peers-Calm external (n ∷ ns) = next (asking (node_id n) refl) (λ id.
      next (comet_host-Calm external n)
        (λ host. next (comet_peers-Calm external ns) (λ others. done _)))

  pub comet_string-Calm :
      (external : Bool) (ns : List ℕ) → Calm (as_comet_peer_string nodes external ns)
  unfolding as_comet_peer_string
  comet_string-Calm external ns = next (comet_peers-Calm external ns) (λ peers. done _)

  bootstrap_host-Calm : (docker : Bool) (n : ℕ) → Calm (bootstrap_host nodes docker n)
  unfolding peer_host_private
  bootstrap_host-Calm true n = host_internal-Calm n
  bootstrap_host-Calm false n = next (asking (private_ip n) refl) (λ addr. done _)

  bootstrap_peers-Calm :
      (docker : Bool) (ns : List ℕ) → Calm (as_lib_p2p_bootstrap_peers nodes docker ns)
  unfolding as_lib_p2p_bootstrap_peers
  bootstrap_peers-Calm docker [] = done []
  bootstrap_peers-Calm docker (n ∷ ns) = next (bootstrap_host-Calm docker n) (λ host.
      next (asking (peer_id n) refl)
        (λ id. next (bootstrap_peers-Calm docker ns) (λ others. done _)))

  compose-Calm :
      (external : Bool) (sets : List (List ℕ))
      → Calm (compose_lib_p2p_bootstrap_peers nodes external sets)
  unfolding compose_lib_p2p_bootstrap_peers
  compose-Calm external [] = done []
  compose-Calm external (set ∷ sets) =
      next (bootstrap_peers-Calm (not external) set)
        (λ peers. next (compose-Calm external sets) (λ others. done _))

  fund-Calm :
      (codec : Codec) (accounts : List Account) (bals : List Balance) (v : ℕ)
      → Calm (fund_validator nodes codec accounts bals v)
  unfolding fund_validator update_genesis_balances
  fund-Calm codec accounts bals v = next (asking (genesis_file v) refl) (λ old.
      next (lifting _) (λ g.
        next
          (next (lifting _)
            (λ bank. next (lifting _) (λ new. next (lifting _) (λ written. done _))))
          (λ funded. next (lifting _) (λ new. asking (overwrite_genesis v new) refl))))

  add_accounts-Calm :
      (codec : Codec) (w : WalletConfig) (amounts : List Coin) (mnemonic : String) (count : ℕ)
      (validators : List ℕ)
      → Calm (add_accounts nodes codec w amounts mnemonic count validators)
  unfolding add_accounts
  add_accounts-Calm codec w amounts mnemonic count validators =
      Harmless-if chain_id members _ _ _
        (Harmless-if chain_id members _ _ _ (Harmless-raise chain_id members no_base_mnemonic) (
          next (lifting _) (λ accounts.
            next
              (Harmless-group chain_id members _
                (fund-Calm codec accounts (build_balances accounts amounts)) validators)
              (λ all. done tt))))
        (done tt)

  validator_lines-Calm :
      (codec : Codec) (c : ChainConfig) (amount : String) (first : ℕ) (vs : List ℕ)
      (ws : List Wallet)
      → Calm (validator_lines nodes codec c amount first vs ws)
  unfolding validator_lines
  validator_lines-Calm codec c amount first [] ws = done ""
  validator_lines-Calm codec c amount first (v ∷ vs) [] =
      Harmless-raise chain_id members index_out_of_range
  validator_lines-Calm codec c amount first (v ∷ vs) (w ∷ ws) =
      next (asking (copy_gentx v first) refl)
        (λ u. next (validator_lines-Calm codec c amount first vs ws) (λ rest. done _))

  pub operations-Calm :
      (codec : Codec) (c : ChainConfig) (opts : ChainOptions) (first : ℕ) (validators : List ℕ)
      (wallets : List Wallet) (faucet : Wallet) (amounts : List Coin)
      → Calm (execute_genesis_operations nodes codec c opts first validators wallets faucet amounts)
  unfolding execute_genesis_operations
  operations-Calm codec c opts first validators wallets faucet amounts =
      next (validator_lines-Calm codec c _ first _ _) (λ lines.
        next (asking (run_command first _) refl) (λ out.
          next
            (Harmless-if chain_id members _ _ _ (Harmless-raise chain_id members script_failed)
              (done tt))
            (λ u.
              add_accounts-Calm codec opts.wallet_config amounts opts.base_mnemonic
                opts.additional_accounts validators)))

  pub p2p_address-Calm :
      (codec : Codec) (external : Bool) (n : ℕ) → Calm (p2p_address nodes codec external n)
  unfolding p2p_address
  p2p_address-Calm codec true n = asking (external_address n "26656") refl
  p2p_address-Calm codec false n = next (asking (ip n) refl) (λ addr. done _)

  pub set_bootstrap-Calm :
      (codec : Codec) (c : ChainConfig) (persistent seeds : List ℕ) (external : Bool) (n : ℕ)
      → Calm (set_bootstrap nodes codec c persistent seeds external n)
  unfolding set_bootstrap
  set_bootstrap-Calm codec c persistent seeds external n =
      Harmless-if chain_id members _ _ _
        (next (compose-Calm external (seeds ∷ persistent ∷ []))
          (λ peers. asking (set_bootstrap_peers n peers) refl))
        (done tt)

  pub setup_nodes-Calm :
      (codec : Codec) (s : State) (w : WalletConfig) → Calm (setup_nodes nodes codec s w)
  unfolding setup_nodes
  setup_nodes-Calm codec s w =
      next
        (Harmless-together chain_id members _ _
          (Harmless-group chain_id members _ (λ v. asking (setup_validator v w _ _) refl)
            s.validators)
          (Harmless-group chain_id members _ (λ n. asking (setup_node n) refl) s.nodes))
        (λ all. done _)

  pub full_node-Calm : (codec : Codec) (s : State) → Calm (full_node nodes codec s)
  unfolding full_node
  full_node-Calm codec s = record {
    at = λ Pre P stays lasting pre. record {
      at = λ w k.
          Post-constant (Told chain_id members Pre) (Told chain_id members P)
            (full_node nodes codec s w).0 w (λ t. (t.0, pre w t.1)) k;
    };
  }

  pub seed_mode-Calm : (codec : Codec) (seeds : List ℕ) → Calm (seed_mode nodes codec seeds)
  seed_mode-Calm codec [] = done tt
  seed_mode-Calm codec (n ∷ ns) = asking (set_seed_mode n) refl
