-- ===== src/Chain/Setup.antt =====
-- petri/cosmos/chain/chain.go: the initialisation of a chain, from the setup of its nodes to their start.
-- The wallets and the genesis file's JSON are the parameter `Codec`. `init` returns the new state; after
-- a failure its caller drops the chain. The power of ten of the decimals is exact up to 18 of them.
use ironbird.Base.Int.{ℤ, pos, ◌*ℤ◌}
use Prim.Native.String.{◌++◌ as append}
use ironbird.Base.{
  ℕ, zero, suc, ◌+◌, ◌^◌, ◌==◌, String, Bool, true, false, not, ◌&&◌, Option, none, some, List, [],
  ◌∷◌, ◌++◌, map, length, ltb, str_eq, if◌then◌else◌,
}
use ironbird.Base.Texts.{join}
use ironbird.Base.Action.{Result, ok, err, pure, raise, lift, ◌>>=◌, ◌>>◌}
use ironbird.Genesis.{Coin, Balance, Account, BankGenesis, Decimal, build_balances, update_bank}
use ironbird.Chain.Types.{
  WalletConfig, ChainConfig, Error, failed, no_seed_node, script_failed, no_base_mnemonic,
  index_out_of_range, Wallet, Output, setup_validator, setup_node, genesis_file, ip, set_seed_mode,
  start, create_wallet, overwrite_genesis, copy_gentx, run_command, external_address,
  set_chain_configs, set_persistent_peers, set_seed_node, set_bootstrap_peers, Nodes, Chain, ask,
  rounds,
}
use ironbird.Chain.Config.{
  validate_options, get_genesis_balance, get_genesis_delegation, use_lib_p2p,
}
use ironbird.Chain.Create.{State}
use ironbird.Chain.Peers.{as_comet_peer_string, compose_lib_p2p_bootstrap_peers}

-- A genesis file: the accounts, the bank's part as it is written, and the rest.
pub record GenesisFile : Type 0 where
  pub accounts : List Account
  pub bank : String
  pub rest : String

pub record Codec : Type 0 where
  pub dec : Decimal
  pub new_wallet : WalletConfig → String → String → String → Result Error Wallet
  pub read_genesis : String → Result Error GenesisFile
  pub write_genesis : GenesisFile → Result Error String
  pub read_bank : String → Result Error BankGenesis
  pub write_bank : BankGenesis → Result Error String

pub record ChainOptions : Type 0 where
  pub modify_genesis : Option (String → Result Error String)
  pub has_node_creator : Bool
  pub wallet_config : WalletConfig
  pub additional_accounts : ℕ
  pub base_mnemonic : String

-- Two jobs of an errgroup: both run, and the first failure counts.
abbrev pub first_failure : {A B : Type 0} → Result Error A → Result Error B → Result Error (A × B)
first_failure (err e) r = err e
first_failure (ok a) (err e) = err e
first_failure (ok a) (ok b) = ok (a, b)

unfoldable pub together : {A B : Type 0} → Chain A → Chain B → Chain (A × B)
together m k log = (first_failure (m log).0 (k (m log).1).0, (k (m log).1).1)

unfoldable pub group : {A : Type 0} → List (Chain A) → Chain (List A)
unfolding together
group [] = pure []
group (m ∷ ms) = do all ← together m (group ms); pure (all.0 ∷ all.1)

abbrev pub nth : List ℕ → ℕ → Result Error ℕ
nth [] i = err index_out_of_range
nth (n ∷ ns) zero = ok n
nth (n ∷ ns) (suc i) = nth ns i

unfoldable pub additional_account_passphrase : Decimal → WalletConfig → ℕ → String
additional_account_passphrase dec w index =
    if (index == 0) && str_eq w.signing_algorithm "eth_secp256k1" then "" else dec.print (pos index)

unfoldable pub genesis_words : ChainConfig → List String → List String
genesis_words c words = if c.use_genesis_sub_command then "genesis" ∷ words else words

unfoldable pub bin_command : ChainConfig → List String → List String
bin_command c words = (c.binary_name ∷ words) ++ ("--home" ∷ c.home_dir ∷ [])

-- A line of the genesis script.
unfoldable pub script_line : ChainConfig → List String → String
unfolding genesis_words bin_command join
script_line c words = append (join " " (bin_command c (genesis_words c words))) "\n"

unfoldable pub coin_texts : Decimal → List Coin → List String
coin_texts dec [] = []
coin_texts dec (c ∷ cs) = append (dec.print c.amount) c.denom ∷ coin_texts dec cs

unfoldable pub add_account : ChainConfig → String → String → String
unfolding script_line
add_account c address amount =
    script_line c ("add-genesis-account" ∷ address ∷ amount ∷ "--keyring-backend" ∷ "test" ∷ [])

module _ (codec : Codec) where
  -- `count` accounts from the index `i` on.
  unfoldable pub build_accounts : WalletConfig → String → ℕ → ℕ → ℕ → Result Error (List Account)
  unfolding additional_account_passphrase
  build_accounts w mnemonic first i zero = ok []
  build_accounts w mnemonic first i (suc count) =
      let rest = build_accounts w mnemonic first (suc i) count in
      elim (codec.new_wallet w (append "additionalaccount" (codec.dec.print (pos i))) mnemonic
        (additional_account_passphrase codec.dec w i)) [
          | err e ↦ err e
          | ok wallet ↦ (elim rest [
            | err e ↦ err e
            | ok accounts ↦ ok (
                (record {
                  kind = "/cosmos.auth.v1beta1.BaseAccount";
                  address = wallet.address;
                  account_number = codec.dec.print (pos (first + i));
                  sequence = "0";
                })
                ∷ accounts)
          ])
        ]

  abbrev pub lift_bank : Result String BankGenesis → Result Error BankGenesis
  lift_bank (ok b) = ok b
  lift_bank (err text) = err (failed text)

  unfoldable pub update_genesis_accounts : List Account → GenesisFile → GenesisFile
  update_genesis_accounts accounts g = record g { accounts = g.accounts ++ accounts }

  unfoldable pub update_genesis_balances : List Balance → GenesisFile → Chain GenesisFile
  unfolding update_bank
  update_genesis_balances bals g = do
    bank ← lift (codec.read_bank g.bank)
    new ← lift (lift_bank (update_bank codec.dec bals bank))
    written ← lift (codec.write_bank new)
    pure (record g { bank = written })

module _ (nodes : Nodes) (codec : Codec) where
  -- One validator's genesis file with the additional accounts.
  unfoldable pub fund_validator : List Account → List Balance → ℕ → Chain (Unit {0})
  unfolding update_genesis_accounts update_genesis_balances
  fund_validator accounts bals v = do
    old ← ask nodes (genesis_file v)
    g ← lift (codec.read_genesis old)
    funded ← update_genesis_balances codec bals (update_genesis_accounts codec accounts g)
    new ← lift (codec.write_genesis funded)
    ask nodes (overwrite_genesis v new)

  unfoldable pub add_accounts : WalletConfig → List Coin → String → ℕ → List ℕ → Chain (Unit {0})
  unfolding build_accounts build_balances fund_validator group
  add_accounts w amounts mnemonic count validators =
      if ltb 0 (rounds count)
      then if str_eq mnemonic "" then raise no_base_mnemonic else (do
        accounts ← lift (build_accounts codec w mnemonic (length validators + 1) 0 (rounds count))
        group (map (fund_validator accounts (build_balances accounts amounts)) validators)
        pure tt)
      else pure tt

  -- The lines for the validators after the first, whose gentx is copied to the first.
  unfoldable pub validator_lines : ChainConfig → String → ℕ → List ℕ → List Wallet → Chain String
  unfolding add_account
  validator_lines c amount first [] wallets = pure ""
  validator_lines c amount first (v ∷ vs) [] = raise index_out_of_range
  validator_lines c amount first (v ∷ vs) (w ∷ ws) = do
    ask nodes (copy_gentx v first)
    rest ← validator_lines c amount first vs ws
    pure (append (add_account c w.address amount) rest)

  abbrev pub tail_of : {A : Type 0} → List A → List A
  tail_of [] = []
  tail_of (x ∷ xs) = xs

  abbrev pub check_exit : Output → Chain (Unit {0})
  check_exit out = if not (out.exit_code == 0) then raise script_failed else pure tt

  unfoldable pub execute_genesis_operations :
      ChainConfig → ChainOptions → ℕ → List ℕ → List Wallet → Wallet → List Coin → Chain (Unit {0})
  unfolding coin_texts add_account validator_lines script_line add_accounts join
  execute_genesis_operations c opts first validators wallets faucet amounts = do
    let amount = join "," (coin_texts codec.dec amounts)
    lines ← validator_lines c amount first (tail_of validators) (tail_of wallets)
    let script = append "#!/bin/sh\nset -e\n" (
        append (add_account c faucet.address amount)
          (append lines (script_line c ("collect-gentxs" ∷ []))))
    out ← ask nodes (run_command first ("/bin/sh" ∷ "-c" ∷ script ∷ []))
    check_exit out
    add_accounts opts.wallet_config amounts opts.base_mnemonic opts.additional_accounts validators

  unfoldable pub p2p_address : Bool → ℕ → Chain String
  p2p_address true n = ask nodes (external_address n "26656")
  p2p_address false n = do addr ← ask nodes (ip n); pure (append addr ":26656")

  unfoldable pub set_bootstrap : ChainConfig → List ℕ → List ℕ → Bool → ℕ → Chain (Unit {0})
  unfolding compose_lib_p2p_bootstrap_peers use_lib_p2p
  set_bootstrap c persistent seeds external n =
      if use_lib_p2p c
      then (do
        peers ← compose_lib_p2p_bootstrap_peers nodes external (seeds ∷ persistent ∷ [])
        ask nodes (set_bootstrap_peers n peers))
      else pure tt

  unfoldable pub configure_node :
      ChainConfig → String → List ℕ → List ℕ → Bool → ℕ → Chain (Unit {0})
  unfolding p2p_address as_comet_peer_string set_bootstrap
  configure_node c genesis persistent seeds external n = do
    ask nodes (overwrite_genesis n genesis)
    addr ← p2p_address external n
    ask nodes (set_chain_configs n c.chain_id addr)
    peers ← as_comet_peer_string nodes external persistent
    ask nodes (set_persistent_peers n peers)
    seed_peers ← as_comet_peer_string nodes external seeds
    ask nodes (set_seed_node n seed_peers)
    set_bootstrap c persistent seeds external n

  -- One of the nodes, or of the validators if there is no node.
  abbrev pub candidates : List ℕ → List ℕ → List ℕ
  candidates [] validators = validators
  candidates (n ∷ ns) validators = n ∷ ns

  unfoldable pub full_node : State → Chain ℕ
  full_node s log =
      let from = candidates s.nodes s.validators in (nth from (nodes.random log (length from)), log)

  abbrev pub seeds_of : ChainConfig → List ℕ → Result Error (List ℕ)
  seeds_of c [] = if c.set_seed_node then err no_seed_node else ok []
  seeds_of c (n ∷ ns) = if c.set_seed_node then ok (n ∷ []) else ok []

  abbrev pub modified : Option (String → Result Error String) → String → Result Error String
  modified none g = ok g
  modified (some f) g = f g

  abbrev pub seed_mode : List ℕ → Chain (Unit {0})
  seed_mode [] = pure tt
  seed_mode (n ∷ ns) = ask nodes (set_seed_mode n)

  abbrev pub coin_of : ChainConfig → ℤ → Coin
  coin_of c amount = record { denom = c.denom; amount = amount *ℤ pos (10 ^ c.decimals) }

  -- The first group: every validator and every node is set up.
  unfoldable pub setup_nodes : State → WalletConfig → Chain (List Wallet)
  unfolding group get_genesis_balance get_genesis_delegation
  setup_nodes s w = do
    all ←
        together
          (group (
            map
              (λ v. ask nodes (
                setup_validator v w (coin_of s.config (get_genesis_balance s.config) ∷ [])
                  (coin_of s.config (get_genesis_delegation s.config))))
              s.validators))
          (group (map (λ n. ask nodes (setup_node n)) s.nodes))
    pure all.0

  -- The second and the third group: every node is configured, and then every node is started.
  unfoldable pub configure_and_start : State → String → List ℕ → Chain (Unit {0})
  unfolding configure_node group
  configure_and_start s genesis seeds = do
    let persistent = if s.config.set_persistent_peers then s.nodes ++ s.validators else []
    group (
        map (configure_node s.config genesis persistent seeds s.use_external_addresses)
          (s.validators ++ s.nodes))
    seed_mode seeds
    group (map (λ n. ask nodes (start n)) (s.validators ++ s.nodes))
    pure tt

  unfoldable pub init : State → ChainOptions → Chain State
  unfolding setup_nodes full_node execute_genesis_operations configure_and_start validate_options
  init s opts = do
    lift (validate_options opts.wallet_config opts.has_node_creator)
    wallets ← setup_nodes s opts.wallet_config
    full ← full_node s
    faucet ← ask nodes (create_wallet full "faucet" opts.wallet_config)
    first ← lift (nth s.validators 0)
    execute_genesis_operations s.config opts first s.validators wallets faucet
        (coin_of s.config (get_genesis_balance s.config) ∷ [])
    written ← ask nodes (genesis_file first)
    genesis ← lift (modified opts.modify_genesis written)
    seeds ← lift (seeds_of s.config s.nodes)
    configure_and_start s genesis seeds
    pure (record s { validator_wallets = map some wallets; faucet_wallet = some faucet })
