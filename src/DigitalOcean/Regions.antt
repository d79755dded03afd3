-- ===== src/DigitalOcean/Regions.antt =====
-- petri/cosmos/chain/chain.go and petri/core/provider/digitalocean/types.go: the configuration that a
-- regional chain gives to a node's task is one that the provider accepts.
use ironbird.Base.{
  ◌≡◌, ◌≢◌, refl, ap, ◌∙◌, ◌⊎◌, inl, inr, String, true, false, Option, none, some, List, [], ◌∷◌,
  arith, str_eq, eq_iff, Bool-cases,
}
use ironbird.Base.Action.{ok}
use ironbird.Definition.{TaskDefinition, digits}
use ironbird.Messages.{RegionConfig}
use ironbird.Docker.Provider.{value_of}
use ironbird.Chain.Types.{NodeConfig, Modifier}
use ironbird.Chain.Config.{validate_region}
use ironbird.Chain.Create.{
  assign, has_entry, with_size, or_new, apply_region_config, create_regional_node_options,
}
use ironbird.DigitalOcean.Config.{validate_config, is_int}
use ironbird.DigitalOcean.Provider.{or_none}

value_of-assign_same :
    (key v : String) (m : List (String × String)) → value_of key (assign key v m) ≡ v
unfolding value_of assign
value_of-assign_same key v [] = ground (arith, eq_iff key key)
value_of-assign_same key v ((k, w) ∷ m) = elim (Bool-cases (str_eq k key)) [
  | inl same ↦ ground (arith, eq_iff key key)
  | inr other ↦ rw other (ground (arith, value_of-assign_same key v m))
]

value_of-assign_other :
    (key other v : String) (m : List (String × String))
    → str_eq other key ≡ false
    → value_of key (assign other v m) ≡ value_of key m
unfolding value_of assign
value_of-assign_other key other v [] h = rw h refl
value_of-assign_other key other v ((k, w) ∷ m) h = elim (Bool-cases (str_eq k other)) [
  | inl same ↦ ground (arith, eq_iff k other)
  | inr differ ↦ rw differ (ground (arith, value_of-assign_other key other v m h))
]

has_entry-assign_other :
    (key other v : String) (m : List (String × String))
    → str_eq other key ≡ false
    → has_entry key (assign other v m) ≡ has_entry key m
unfolding has_entry assign
has_entry-assign_other key other v [] h = rw h refl
has_entry-assign_other key other v ((k, w) ∷ m) h = elim (Bool-cases (str_eq k other)) [
  | inl same ↦ ground (arith, eq_iff k other)
  | inr differ ↦ rw differ (ground (arith, has_entry-assign_other key other v m h))
]

false-not-true : false ≡ true → ⊥
false-not-true e = ground arith

-- The map with the region and the image.
abbrev placed : RegionConfig → List (String × String) → List (String × String)
placed r m = assign "image_id" "210084437" (assign "region" r.name m)

-- A size that is given is not empty.
abbrev pub SizeFits : List (String × String) → Type 0
SizeFits m = (value_of "size" m ≢ "") ⊎ (has_entry "size" m ≡ false)

module _ (r : RegionConfig) (m : List (String × String)) where
  placed_region : value_of "region" (placed r m) ≡ r.name
  placed_region = ground (
    arith,
    value_of-assign_other "region" "image_id" "210084437" (assign "region" r.name m) refl,
    value_of-assign_same "region" r.name m,
  )

  placed_size : value_of "size" (placed r m) ≡ value_of "size" m
  placed_size = ground (
    arith,
    value_of-assign_other "size" "image_id" "210084437" (assign "region" r.name m) refl,
    value_of-assign_other "size" "region" r.name m refl,
  )

  placed_has_size : has_entry "size" (placed r m) ≡ has_entry "size" m
  placed_has_size = ground (
    arith,
    has_entry-assign_other "size" "image_id" "210084437" (assign "region" r.name m) refl,
    has_entry-assign_other "size" "region" r.name m refl,
  )

  sized_other :
      (key : String)
      → str_eq "size" key ≡ false
      → value_of key (with_size (placed r m)) ≡ value_of key (placed r m)
  unfolding with_size
  sized_other key h = elim (Bool-cases (has_entry "size" (placed r m))) [
    | inl given ↦ rw given refl
    | inr missing ↦ rw missing (value_of-assign_other key "size" "s-4vcpu-8gb" (placed r m) h)
  ]

  sized_size : SizeFits m → value_of "size" (with_size (placed r m)) ≢ ""
  unfolding with_size
  sized_size fits = elim (Bool-cases (has_entry "size" (placed r m))) [
    | inl given ↦ rw given (kept fits given)
    | inr missing ↦
        rw (missing, value_of-assign_same "size" "s-4vcpu-8gb" (placed r m))
          (λ e. false-not-true ((eq_iff "s-4vcpu-8gb" "").1 e))
  ]
    where
      kept : SizeFits m → has_entry "size" (placed r m) ≡ true → value_of "size" (placed r m) ≢ ""
      kept (inl full) given = λ e. full (ground (arith, placed_size, e))
      kept (inr none') given = λ e. ground (arith, placed_has_size)

  placed_image : value_of "image_id" (placed r m) ≡ "210084437"
  placed_image = value_of-assign_same "image_id" "210084437" (assign "region" r.name m)

region_named : (r : RegionConfig) → validate_region r ≡ ok tt → str_eq r.name "" ≡ false
unfolding validate_region
region_named r e = ground arith

-- What a modifier of definitions does, or none.
abbrev pub effective : Option Modifier → TaskDefinition → NodeConfig → TaskDefinition
effective none d node = d
effective (some modify) d node = modify d node

config_valid :
    (m : List (String × String))
    → str_eq (value_of "region" m) "" ≡ false
    → str_eq (value_of "size" m) "" ≡ false
    → value_of "image_id" m ≡ "210084437"
    → validate_config m ≡ ok tt
unfolding validate_config is_int digits
config_valid m a b e = rw (a, b, e) refl

not_equal : (s t : String) → s ≢ t → str_eq s t ≡ false
not_equal s t h = elim (Bool-cases (str_eq s t)) [
  | inl same ↦ elim (h ((eq_iff s t).0 same)) [ ]
  | inr differ ↦ differ
]

apply_region_config-Valid :
    (r : RegionConfig) (d : TaskDefinition)
    → validate_region r ≡ ok tt
    → SizeFits (or_new d.provider_specific_config)
    → (validate_config (or_none (apply_region_config r d).provider_specific_config) ≡ ok tt)
      × (value_of "region" (or_none (apply_region_config r d).provider_specific_config) ≡ r.name)
unfolding apply_region_config
apply_region_config-Valid r d valid fits =
    let m = or_new d.provider_specific_config in
    let region = sized_other r m "region" refl ∙ placed_region r m in
    (
      config_valid (with_size (placed r m)) (ap (λ s. str_eq s "") region ∙ region_named r valid)
          (not_equal (value_of "size" (with_size (placed r m))) "" (sized_size r m fits))
          (sized_other r m "image_id" refl ∙ placed_image r m),
      region,
    )

-- For a region that is valid, and unless an empty size is given by the definition, after the node's own
-- modifier if there is one, the configuration that a regional chain makes passes the provider's
-- validation and names the region.
pub create_regional_node_options-Valid :
    (base : Option Modifier) (r : RegionConfig) (d : TaskDefinition) (node : NodeConfig)
    → validate_region r ≡ ok tt
    → SizeFits (or_new (effective base d node).provider_specific_config)
    → (validate_config (
          or_none (effective (create_regional_node_options base r) d node).provider_specific_config)
        ≡ ok tt)
      × (value_of "region" (
            or_none
              (effective (create_regional_node_options base r) d node).provider_specific_config)
          ≡ r.name)
unfolding create_regional_node_options
create_regional_node_options-Valid none r d node valid fits =
    apply_region_config-Valid r d valid fits
create_regional_node_options-Valid (some modify) r d node valid fits =
    apply_region_config-Valid r (modify d node) valid fits
