-- ===== src/Chain/Create.antt =====
-- petri/cosmos/chain/chain.go: creating a chain. The jobs of an errgroup run one after the other in the
-- order in which they are started; all of them run, and the first failure is the group's.
-- Numbers are written by the parameter `Decimal`.
use ironbird.Base.Int.{pos}
use Prim.Native.String.{◌++◌ as append}
use ironbird.Base.{
  ℕ, zero, suc, ◌+◌, String, Bool, true, false, Option, none, some, List, [], ◌∷◌, ◌++◌, str_eq,
  if◌then◌else◌,
}
use ironbird.Base.Action.{Result, ok, err, pure, lift, ◌>>=◌, ◌>>◌}
use ironbird.Definition.{TaskDefinition}
use ironbird.Messages.{RegionConfig}
use ironbird.Genesis.{Decimal}
use ironbird.Chain.Types.{
  WalletConfig, ChainConfig, NodeConfig, Modifier, Error, Wallet, create_node, Nodes, Chain, ask,
  rounds,
}
use ironbird.Chain.Config.{digital_ocean_type, validate_chain, validate_options}

pub record State : Type 0 where
  pub config : ChainConfig
  pub use_external_addresses : Bool
  pub validators : List ℕ
  pub nodes : List ℕ
  pub validator_wallets : List (Option Wallet)
  pub faucet_wallet : Option Wallet

-- Assignment to a key of a map, and the map of a definition, which may be nil.
unfoldable pub assign : String → String → List (String × String) → List (String × String)
assign key v [] = (key, v) ∷ []
assign key v ((k, w) ∷ m) = if str_eq k key then (key, v) ∷ m else (k, w) ∷ assign key v m

unfoldable pub has_entry : String → List (String × String) → Bool
has_entry key [] = false
has_entry key ((k, w) ∷ m) = if str_eq k key then true else has_entry key m

abbrev pub or_new : Option (List (String × String)) → List (String × String)
or_new none = []
or_new (some m) = m

unfoldable pub with_size : List (String × String) → List (String × String)
unfolding assign has_entry
with_size m = if has_entry "size" m then m else assign "size" "s-4vcpu-8gb" m

unfoldable pub apply_region_config : RegionConfig → TaskDefinition → TaskDefinition
unfolding assign with_size
apply_region_config r d = record d {
  provider_specific_config = some (
      with_size (
        assign "image_id" "210084437"
          (assign "region" r.name (or_new d.provider_specific_config))));
}

unfoldable pub create_regional_node_options : Option Modifier → RegionConfig → Option Modifier
unfolding apply_region_config
create_regional_node_options none r = some (λ d c. apply_region_config r d)
create_regional_node_options (some modify) r = some (λ d c. apply_region_config r (modify d c))

-- A node to create.
pub record Job : Type 0 where
  pub is_validator : Bool
  pub config : NodeConfig
  pub modifier : Option Modifier

module _ (dec : Decimal) where
  -- `count` jobs from the index `i` on; a name ends with the region.
  unfoldable pub jobs_from :
      Bool → ChainConfig → String → String → Option Modifier → ℕ → ℕ → List Job
  jobs_from is_validator c kind ending modifier i zero = []
  jobs_from is_validator c kind ending modifier i (suc count) =
      (record {
        is_validator = is_validator;
        config = record {
          name = append c.name (append kind (append (dec.print (pos i)) ending));
          index = i;
          chain_config = c;
        };
        modifier = modifier;
      })
      ∷ jobs_from is_validator c kind ending modifier (suc i) count

  unfoldable pub regional_jobs :
      ChainConfig → Option Modifier → ℕ → ℕ → List RegionConfig → List Job
  unfolding jobs_from create_regional_node_options
  regional_jobs c base vi ni [] = []
  regional_jobs c base vi ni (r ∷ rs) =
      jobs_from true c "-validator-" (append "-" r.name) (create_regional_node_options base r) vi
        (rounds r.num_validators)
      ++ (jobs_from false c "-node-" (append "-" r.name) (create_regional_node_options base r) ni
            (rounds r.num_nodes)
          ++ regional_jobs c base (vi + rounds r.num_validators) (ni + rounds r.num_nodes) rs)

  unfoldable pub local_jobs : ChainConfig → Option Modifier → List Job
  unfolding jobs_from
  local_jobs c base =
      jobs_from true c "-validator-" "" base 0 (rounds c.num_validators)
      ++ jobs_from false c "-node-" "" base 0 (rounds c.num_nodes)

  abbrev pub jobs_of : String → ChainConfig → Option Modifier → List Job
  jobs_of kind c base =
      if str_eq kind digital_ocean_type
      then regional_jobs c base 0 0 c.region_config
      else local_jobs c base

-- The validators and the nodes that are made.
abbrev pub Made : Type 0
Made = List ℕ × List ℕ

abbrev pub add_made : Bool → ℕ → Made → Made
add_made true n made = (made.0 ++ (n ∷ []), made.1)
add_made false n made = (made.0, made.1 ++ (n ∷ []))

unfoldable pub no_wallets : List ℕ → List (Option Wallet)
no_wallets [] = []
no_wallets (v ∷ vs) = none ∷ no_wallets vs

module _ (nodes : Nodes) where
  -- After a failure the other jobs run too.
  unfoldable pub keep_going : Bool → Result Error ℕ → Made → (Made → Chain Made) → Chain Made
  keep_going is_validator (ok n) made f = f (add_made is_validator n made)
  keep_going is_validator (err e) made f = λ log. (err e, (f made log).1)

  unfoldable pub create_nodes : List Job → Made → Chain Made
  unfolding keep_going ask
  create_nodes [] made = pure made
  create_nodes (j ∷ js) made = λ log.
      keep_going j.is_validator (nodes.answer log (create_node j.config j.modifier)) made
        (create_nodes js) (ask nodes (create_node j.config j.modifier) log).1

  -- `kind` is the provider's type, and `has_creator` says that the options have a creator of nodes.
  unfoldable pub create_chain :
      Decimal → String → ChainConfig → WalletConfig → Bool → Option Modifier → Chain State
  unfolding create_nodes no_wallets regional_jobs local_jobs validate_chain validate_options
  create_chain dec kind c wallet has_creator base = do
    lift (validate_chain kind c)
    lift (validate_options wallet has_creator)
    made ← create_nodes (jobs_of dec kind c base) ([], [])
    pure (record {
      config = c;
      use_external_addresses = str_eq kind digital_ocean_type;
      validators = made.0;
      nodes = made.1;
      validator_wallets = no_wallets made.0;
      faucet_wallet = none;
    })
