-- ===== src/Activity/Configured.antt =====
-- activities/testnet/testnet.go: which launch requests make a chain that the chain's code accepts.
use ironbird.Base.{
  ℕ, ◌+◌, ◌%◌, ◌^◌, ◌≡◌, ◌↔◌, refl, sym, ap, ◌==◌, String, Bool, true, false, List, arith, str_eq,
  if◌then◌else◌,
}
use ironbird.Base.Action.{Result, ok, err}
use ironbird.Workflow.Types.{LaunchTestnetRequest}
use ironbird.Definition.{DefinitionError, validate_image}
use ironbird.Chain.Types.{
  Section, ChainConfig, WalletConfig, Error, name_empty, denom_empty, no_decimals,
  binary_name_empty, gas_prices_empty,
}
use ironbird.Chain.Config.{
  validate_chain, validate_size, validate_wallet, lift_image, fail_if, and_then,
  get_genesis_balance, get_genesis_delegation,
}
use ironbird.Base.Int.{ℤ, pos, ◌*ℤ◌}
use ironbird.Activity.{
  int64_of, ChainImage, image_of, cosmos_config, evm_config, wallet_config, construct_chain_config,
}

-- What a request and its base image have to provide for a chain of the kind.
pub record Buildable (kind : String) (req : LaunchTestnetRequest Section) (image : ChainImage)
    : Type 0 where
  pub name : str_eq req.name "" ≡ false
  pub size : validate_size kind (cosmos_config req image) ≡ ok tt
  pub binary_name : str_eq image.binary_name "" ≡ false
  pub gas_prices : str_eq image.gas_prices "" ≡ false
  pub image_valid :
      validate_image (record { image = req.image; uid = image.uid; gid = image.gid }) ≡ ok tt

module _ (kind : String) (req : LaunchTestnetRequest Section) (image : ChainImage) where
  cosmos_config-Valid :
      Buildable kind req image → validate_chain kind (cosmos_config req image) ≡ ok tt
  unfolding cosmos_config validate_chain validate_size lift_image
  cosmos_config-Valid b = rw (b.name, b.size, b.binary_name, b.gas_prices, b.image_valid) refl

  evm_config-Valid :
      Buildable kind req image
      → validate_chain kind (evm_config req (cosmos_config req image)) ≡ ok tt
  unfolding cosmos_config evm_config validate_chain validate_size lift_image
  evm_config-Valid b = rw (b.name, b.size, b.binary_name, b.gas_prices, b.image_valid) refl

fail_if-ok :
    (b : Bool) (e : Error) (rest : Result Error (Unit {0}))
    → fail_if b e rest ≡ ok tt
    → (b ≡ false) × (rest ≡ ok tt)
fail_if-ok true e rest h = ground arith
fail_if-ok false e rest h = (refl, h)

and_then-ok :
    (r rest : Result Error (Unit {0})) → and_then r rest ≡ ok tt → (r ≡ ok tt) × (rest ≡ ok tt)
and_then-ok (ok u) rest h = (refl, h)
and_then-ok (err e) rest h = ground arith

lift_image-ok : (r : Result DefinitionError (Unit {0})) → lift_image r ≡ ok tt → r ≡ ok tt
unfolding lift_image
lift_image-ok (ok u) h = refl
lift_image-ok (err e) h = ground arith

validate_chain-ok :
    (kind : String) (c : ChainConfig)
    → validate_chain kind c ≡ ok tt
    → (str_eq c.name "" ≡ false)
      × (validate_size kind c ≡ ok tt)
      × (str_eq c.binary_name "" ≡ false)
      × (str_eq c.gas_prices "" ≡ false)
      × (validate_image c.image ≡ ok tt)
unfolding validate_chain
validate_chain-ok kind c h =
    let name = fail_if-ok (str_eq c.name "") name_empty _ h in
    let denom = fail_if-ok (str_eq c.denom "") denom_empty _ name.1 in
    let decimals = fail_if-ok (c.decimals == 0) no_decimals _ denom.1 in
    let size = and_then-ok (validate_size kind c) _ decimals.1 in
    let binary = fail_if-ok (str_eq c.binary_name "") binary_name_empty _ size.1 in
    let gas = fail_if-ok (str_eq c.gas_prices "") gas_prices_empty _ binary.1 in
    let image = and_then-ok (lift_image (validate_image c.image)) _ gas.1 in
    (name.0, size.0, binary.0, gas.0, lift_image-ok _ image.0)

module _ (kind : String) (req : LaunchTestnetRequest Section) (image : ChainImage) where
  cosmos_config-Buildable :
      validate_chain kind (cosmos_config req image) ≡ ok tt → Buildable kind req image
  unfolding cosmos_config
  cosmos_config-Buildable h =
      let c = validate_chain-ok kind (cosmos_config req image) h in
      record { name = c.0; size = c.1; binary_name = c.2; gas_prices = c.3; image_valid = c.4 }

  evm_config-Buildable :
      validate_chain kind (evm_config req (cosmos_config req image)) ≡ ok tt
      → Buildable kind req image
  unfolding cosmos_config evm_config validate_size
  evm_config-Buildable h =
      let c = validate_chain-ok kind (evm_config req (cosmos_config req image)) h in
      record { name = c.0; size = c.1; binary_name = c.2; gas_prices = c.3; image_valid = c.4 }

-- 10 ^ 25 times int64(NumOfValidators + 2).
abbrev pub evm_amount : LaunchTestnetRequest Section → ℤ
evm_amount req = pos (10 ^ 25) *ℤ int64_of ((req.num_of_validators + 2) % 2 ^ 64)

-- What the chain's code reads from the configurations that a request is turned into.
pub record Configured (kind : String) (req : LaunchTestnetRequest Section) (image : ChainImage)
    (c : ChainConfig × WalletConfig) : Type 0 where
  pub accepted : (validate_chain kind c.0 ≡ ok tt) ↔ Buildable kind req image
  pub wallet : validate_wallet c.1 ≡ ok tt
  pub evm : c.0.is_evm_chain ≡ req.is_evm_chain
  pub delegation :
      get_genesis_delegation c.0 ≡ (if req.is_evm_chain then evm_amount req else pos 5000000)
  pub balance :
      get_genesis_balance c.0 ≡ (if req.is_evm_chain then evm_amount req else pos 100000000)

module _ (hd_path : ℕ → String) (kind : String) (req : LaunchTestnetRequest Section)
    (image : ChainImage) where
  configured :
      (b : Bool)
      → req.is_evm_chain ≡ b
      → Configured kind req image (
          if b
          then (evm_config req (cosmos_config req image), wallet_config hd_path "eth_secp256k1" 60)
          else (cosmos_config req image, wallet_config hd_path "secp256k1" 118))
  unfolding evm_config cosmos_config validate_wallet get_genesis_delegation get_genesis_balance
  configured true e = record {
    accepted = (evm_config-Buildable kind req image, evm_config-Valid kind req image);
    wallet = refl;
    evm = sym e;
    delegation = ap (λ x. if x then evm_amount req else pos 5000000) (sym e);
    balance = ap (λ x. if x then evm_amount req else pos 100000000) (sym e);
  }
  configured false e = record {
    accepted = (cosmos_config-Buildable kind req image, cosmos_config-Valid kind req image);
    wallet = refl;
    evm = sym e;
    delegation = ap (λ x. if x then evm_amount req else pos 5000000) (sym e);
    balance = ap (λ x. if x then evm_amount req else pos 100000000) (sym e);
  }

-- A chain that a launch request is turned into passes the validation of the chain's code exactly when the
-- request has a name, sizes for the kind of provider and a valid image, and its base image a binary and
-- gas prices; the wallet configuration always passes. On an EVM chain both the delegation of a validator
-- and its balance are 10 ^ 25 times the number of validators and 2, where that number is added as an
-- uint64 and then read as an int64; on other chains they are the values that the getters return without a
-- configured one, 5000000 and 100000000.
pub construct_chain_config-Configured :
    (hd_path : ℕ → String) (kind : String) (req : LaunchTestnetRequest Section)
    (chains : List (String × ChainImage))
    → Configured kind req
        (image_of req.base_image chains)
        (construct_chain_config hd_path req chains)
unfolding construct_chain_config
construct_chain_config-Configured hd_path kind req chains =
    configured hd_path kind req (image_of req.base_image chains) req.is_evm_chain refl
