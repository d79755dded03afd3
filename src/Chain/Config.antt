-- ===== src/Chain/Config.antt =====
-- petri/core/types/chain.go and wallet.go: validation of a chain's configuration, and its defaults.
use ironbird.Base.Int.{ℤ, pos}
use ironbird.Base.{
  ◌==◌, String, Bool, true, false, not, ◌&&◌, ◌||◌, Option, none, some, List, [], ◌∷◌, ltb, str_eq,
  if◌then◌else◌,
}
use ironbird.Base.Action.{Result, ok, err}
use ironbird.Definition.{DefinitionError, validate_image}
use ironbird.Messages.{RegionConfig}
use ironbird.Chain.Types.{
  Setting, table, flag, Section, find_setting, WalletConfig, ChainConfig, Error, bad_image,
  region_empty, region_not_supported, negative_validators, negative_nodes, name_empty, denom_empty,
  no_decimals, no_regions, no_validators, bad_provider_type, binary_name_empty, gas_prices_empty,
  bech32_prefix_empty, coin_type_empty, chain_id_empty, no_derivation_fn, no_generation_fn,
  no_hd_path, no_signing_algorithm, no_node_creator, is_negative,
}

abbrev pub digital_ocean_type : String
digital_ocean_type = "DigitalOcean"

abbrev pub docker_type : String
docker_type = "Docker"

abbrev pub fail_if : Bool → Error → Result Error (Unit {0}) → Result Error (Unit {0})
fail_if true e rest = err e
fail_if false e rest = rest

unfoldable pub is_valid_region : String → Bool
is_valid_region r =
    str_eq r "nyc1"
    || (str_eq r "nyc2"
        || (str_eq r "nyc3"
            || (str_eq r "atl1"
                || (str_eq r "sfo2" || (str_eq r "ams3" || (str_eq r "fra1" || str_eq r "sgp1"))))))

unfoldable pub validate_region : RegionConfig → Result Error (Unit {0})
unfolding is_valid_region
validate_region r = fail_if (str_eq r.name "") region_empty (
    fail_if (not (is_valid_region r.name)) region_not_supported (
      fail_if (is_negative r.num_validators) negative_validators
        (fail_if (is_negative r.num_nodes) negative_nodes (ok tt))))

-- The loop over the regions; the number is taken as an int.
unfoldable pub validate_regions : Bool → List RegionConfig → Result Error (Unit {0})
unfolding validate_region
validate_regions has_validators [] = fail_if (not has_validators) no_validators (ok tt)
validate_regions has_validators (r ∷ rs) =
    let rest =
      validate_regions
        (has_validators || (not (is_negative r.num_validators) && ltb 0 r.num_validators)) rs in
    elim (validate_region r) [ err e ↦ err e | ok u ↦ rest ]

unfoldable pub validate_distribution : List RegionConfig → Result Error (Unit {0})
unfolding validate_regions
validate_distribution [] = err no_regions
validate_distribution (r ∷ rs) = validate_regions false (r ∷ rs)

-- The part that depends on the provider.
unfoldable pub validate_size : String → ChainConfig → Result Error (Unit {0})
unfolding validate_distribution
validate_size kind c =
    if str_eq kind digital_ocean_type
    then validate_distribution c.region_config
    else if str_eq kind docker_type
    then fail_if (c.num_validators == 0) no_validators (ok tt)
    else err bad_provider_type

unfoldable pub lift_image : Result DefinitionError (Unit {0}) → Result Error (Unit {0})
lift_image (ok u) = ok tt
lift_image (err e) = err (bad_image e)

abbrev pub and_then : Result Error (Unit {0}) → Result Error (Unit {0}) → Result Error (Unit {0})
and_then (ok u) rest = rest
and_then (err e) rest = err e

unfoldable pub validate_chain : String → ChainConfig → Result Error (Unit {0})
unfolding validate_size lift_image validate_image
validate_chain kind c = fail_if (str_eq c.name "") name_empty (
    fail_if (str_eq c.denom "") denom_empty (
      fail_if (c.decimals == 0) no_decimals (
        and_then (validate_size kind c) (
          fail_if (str_eq c.binary_name "") binary_name_empty (
            fail_if (str_eq c.gas_prices "") gas_prices_empty (
              and_then (lift_image (validate_image c.image)) (
                fail_if (str_eq c.bech32_prefix "") bech32_prefix_empty (
                  fail_if (str_eq c.coin_type "") coin_type_empty
                    (fail_if (str_eq c.chain_id "") chain_id_empty (ok tt))))))))))

unfoldable pub validate_wallet : WalletConfig → Result Error (Unit {0})
validate_wallet w = fail_if (not w.has_derivation_fn) no_derivation_fn (
    fail_if (not w.has_generation_fn) no_generation_fn (
      fail_if (str_eq w.bech32_prefix "") bech32_prefix_empty (
        and_then (elim w.hd_path [ none ↦ err no_hd_path | some p ↦ ok tt ])
          (fail_if (str_eq w.signing_algorithm "") no_signing_algorithm (ok tt)))))

unfoldable pub validate_options : WalletConfig → Bool → Result Error (Unit {0})
unfolding validate_wallet
validate_options w has_creator =
    and_then (validate_wallet w) (fail_if (not has_creator) no_node_creator (ok tt))

abbrev pub or_else : ℤ → Option ℤ → ℤ
or_else d none = d
or_else d (some n) = n

unfoldable pub get_genesis_balance : ChainConfig → ℤ
get_genesis_balance c = or_else (pos 100000000) c.genesis_balance

unfoldable pub get_genesis_delegation : ChainConfig → ℤ
get_genesis_delegation c = or_else (pos 5000000) c.genesis_delegation

-- The section under a key, and the flag under a key.
abbrev pub as_section : Option Setting → Option Section
as_section (some (table s)) = some s
as_section _ = none

abbrev pub as_flag : Option Setting → Bool
as_flag (some (flag b)) = b
as_flag _ = false

abbrev pub section_of : String → Option Section → Option Section
section_of key none = none
section_of key (some s) = as_section (find_setting key s)

abbrev pub flag_of : String → Option Section → Bool
flag_of key none = false
flag_of key (some s) = as_flag (find_setting key s)

unfoldable pub use_lib_p2p : ChainConfig → Bool
unfolding find_setting
use_lib_p2p c = flag_of "enabled" (section_of "libp2p" (section_of "p2p" c.custom_consensus_config))
