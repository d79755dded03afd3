-- ===== src/Chain/Populated.antt =====
-- petri/cosmos/chain/chain.go: a chain that is created has the nodes that its configuration asks for.
use ironbird.Base.{
  ℕ, ◌+◌, ◌<◌, ◌≡◌, refl, ◌⊎◌, inl, inr, String, Bool, true, false, not, ◌&&◌, ◌||◌, Option, none,
  List, [], ◌∷◌, arith, length, ltb, str_eq, eq_iff, Bool-cases,
}
use mathlib.Core.Path.{subst}
use ironbird.Base.Action.{Result, ok, err, Result-cases, pure, lift}
use ironbird.Base.Triple.{Post, Ensures, Ensures-bind}
use ironbird.Messages.{RegionConfig}
use ironbird.Genesis.{Decimal}
use ironbird.Chain.Types.{
  WalletConfig, ChainConfig, Modifier, Error, Log, Nodes, is_negative, rounds,
}
use ironbird.Chain.Config.{
  digital_ocean_type, validate_region, validate_regions, validate_distribution, validate_size,
  validate_chain, validate_options,
}
use ironbird.Chain.Create.{State, Made, no_wallets, create_chain, jobs_of}
use ironbird.Chain.Counted.{
  region_validators, wanted_validators, wanted_nodes, count_jobs, count_regional, count_local,
  Anything, Grown, create_nodes-Grown,
}

-- A validated configuration for DigitalOcean asks for a validator.
validate_regions-positive :
    (has : Bool) (rs : List RegionConfig)
    → validate_regions has rs ≡ ok tt
    → has ≡ false
    → 0 < region_validators rs
unfolding validate_regions validate_region
validate_regions-positive has [] e h = ground arith
validate_regions-positive has (r ∷ rs) e h = elim (Result-cases (validate_region r)) [
  | inr (x, bad) ↦ elim (err-not-ok (rw (bad, validate_regions) at e)) [ ]
  | inl (u, fine) ↦
      elim (Bool-cases (not (is_negative r.num_validators) && ltb 0 r.num_validators)) [
        | inl some' ↦ ground arith
        | inr none' ↦ more (
            validate_regions-positive
              (has || (not (is_negative r.num_validators) && ltb 0 r.num_validators)) rs
              (rw (fine, validate_regions) at e) (ground arith))
      ]
]
  where
    err-not-ok : {x : Error} → Path (Result Error Unit) (err x) (ok tt) → ⊥
    err-not-ok p = ground arith

    more : {n : ℕ} → 0 < n → 0 < rounds r.num_validators + n
    more p = omega arith

validate_chain-size :
    (kind : String) (c : ChainConfig) → validate_chain kind c ≡ ok tt → validate_size kind c ≡ ok tt
unfolding validate_chain
validate_chain-size kind c e = ground arith

validate_distribution-positive :
    (rs : List RegionConfig) → validate_distribution rs ≡ ok tt → 0 < region_validators rs
unfolding validate_distribution
validate_distribution-positive [] e = ground arith
validate_distribution-positive (r ∷ rs) e = validate_regions-positive false (r ∷ rs) e refl

-- The number of validators is positive unless a Docker chain asks for a negative one.
wanted_positive :
    (kind : String) (c : ChainConfig)
    → validate_size kind c ≡ ok tt
    → (kind ≡ digital_ocean_type) ⊎ (is_negative c.num_validators ≡ false)
    → 0 < wanted_validators kind c
unfolding validate_size
wanted_positive kind c e h = elim (Bool-cases (str_eq kind digital_ocean_type)) [
  | inl remote ↦
      rw remote (validate_distribution-positive c.region_config (rw (remote, validate_size) at e))
  | inr local ↦ elim h [
    | inl same ↦ ground (arith, eq_iff kind digital_ocean_type)
    | inr positive ↦ rw local (ground arith)
  ]
]

-- The chain has the nodes that are asked for.
pub record Populated (kind : String) (c : ChainConfig) (s : State) : Type 0 where
  pub validators : length s.validators ≡ wanted_validators kind c
  pub nodes : length s.nodes ≡ wanted_nodes kind c
  pub some_validator :
      (kind ≡ digital_ocean_type) ⊎ (is_negative c.num_validators ≡ false) → 0 < length s.validators

module _ (nodes : Nodes) (dec : Decimal) (kind : String) (c : ChainConfig) where
  -- What the jobs of the configuration add up to.
  jobs_wanted :
      (base : Option Modifier)
      → (count_jobs true (jobs_of dec kind c base) ≡ wanted_validators kind c)
        × (count_jobs false (jobs_of dec kind c base) ≡ wanted_nodes kind c)
  jobs_wanted base = elim (Bool-cases (str_eq kind digital_ocean_type)) [
    | inl remote ↦ rw remote (count_regional dec c base 0 0 c.region_config)
    | inr local ↦ rw local (count_local dec c base)
  ]

  lift_lem :
      (r : Result Error (Unit {0}))
      → Ensures {E = Error} Anything Anything (lift r) (λ u log. r ≡ ok tt)
  unfolding lift
  lift_lem (ok u) = record { at = λ w h. refl }
  lift_lem (err e) = record { at = λ w h. tt }

  create_chain-Ensures :
      (wallet : WalletConfig) (has : Bool) (base : Option Modifier)
      → Ensures {E = Error} Anything Anything
          (create_chain nodes dec kind c wallet has base)
          (λ s log. Populated kind c s)
  unfolding create_chain pure
  create_chain-Ensures wallet has base = Ensures-bind _ _ (lift_lem (validate_chain kind c)) (λ u.
      record {
        at = λ w valid.
            (Ensures-bind _ _ (lift_lem (validate_options wallet has)) (λ v. record {
              at = λ w' fine.
                  (Ensures-bind _ _ (create_nodes-Grown nodes (jobs_of dec kind c base) ([], []))
                      (λ made. record { at = λ log g. populated valid made log g })).at
                    w' tt;
            })).at
              w tt;
      })
    where
      populated :
          validate_chain kind c ≡ ok tt
          → (made : Made) (log : Log) → Grown ([], []) (jobs_of dec kind c base) made log
          → Populated kind c (record {
            config = c;
            use_external_addresses = str_eq kind digital_ocean_type;
            validators = made.0;
            nodes = made.1;
            validator_wallets = no_wallets made.0;
            faucet_wallet = none;
          })
      populated valid made log g = record {
        validators = omega (arith, g.0, (jobs_wanted base).0);
        nodes = omega (arith, g.1, (jobs_wanted base).1);
        some_validator = λ h. omega (
          arith,
          g.0,
          (jobs_wanted base).0,
          wanted_positive kind c (validate_chain-size kind c valid) h,
        );
      }

  -- A chain that is created has as many validators and nodes as its configuration asks for, by region
  -- on DigitalOcean; and it has a validator, unless it is not on DigitalOcean and asks for a negative
  -- number of them.
  pub create_chain-Populated :
      (wallet : WalletConfig) (has : Bool) (base : Option Modifier) (log : Log) (s : State)
      → (create_chain nodes dec kind c wallet has base log).0 ≡ ok s
      → Populated kind c s
  create_chain-Populated wallet has base log s e =
      subst
        (λ r.
          Post {E = Error} Anything (λ s log. Populated kind c s) r
            (create_chain nodes dec kind c wallet has base log).1)
        e ((create_chain-Ensures wallet has base).at log tt)
