-- ===== src/Service/Templates.antt =====
-- server/services/workflow/workflow.go: what a template keeps of a request, and what it loses.
use ironbird.Base.{
  ℕ, ◌^◌, ◌<◌, ◌≡◌, refl, ◌⊎◌, inl, inr, String, false, Option, none, some, List, [], ◌∷◌, arith,
  str_eq, eq_iff, Bool-cases,
}
use ironbird.Service.Requests.{
  PbGenesisKv, PbRegionConfig, PbChainConfig, CreateWorkflowRequest, Coding, int_of_int32,
  int32_of_int, regions_of_proto, regions_to_proto, parse_json_config, marshal_json_config,
  genesis_of_proto, genesis_text, genesis_to_proto, chain_of_proto, chain_to_proto,
  load_tests_of_proto, load_tests_to_proto, convert_proto_to_workflow_request,
  convert_workflow_request_to_proto,
}

int32_lem : (x : ℕ) → x < 2 ^ 32 → int32_of_int (int_of_int32 x) ≡ x
unfolding int32_of_int int_of_int32
int32_lem x h = ground arith

regions_lem : (rs : List PbRegionConfig) → regions_to_proto (regions_of_proto rs) ≡ rs
unfolding regions_to_proto regions_of_proto
regions_lem [] = refl
regions_lem (r ∷ rs) = λ i. r ∷ regions_lem rs i

-- What comes back of a chain: all but its version, and an empty one for none.
abbrev pub kept_chain : Option PbChainConfig → PbChainConfig
kept_chain (some k) = record k { version = "" }
kept_chain none = record {
  name = "";
  num_of_nodes = 0;
  num_of_validators = 0;
  genesis_modifications = [];
  image = "";
  custom_app_config = "";
  custom_consensus_config = "";
  custom_client_config = "";
  set_seed_node = false;
  set_persistent_peers = false;
  region_configs = [];
  version = "";
}

module _ {Spec Json : Type 0} (c : Coding Spec Json) where
  -- The text is empty or the encoding of the object that it is decoded to.
  abbrev pub ConfigKept : String → Type 0
  ConfigKept s = (s ≡ "") ⊎ ((j : Json) × (c.object_of s ≡ some j) × (c.object_text j ≡ some s))

  -- No load test, or one of a known kind that is encoded as it was.
  abbrev pub SpecKept : String → Type 0
  SpecKept s =
      (s ≡ "")
      ⊎ ((spec : Spec) × (c.spec_of s ≡ some spec)
          × (c.spec_text spec ≡ some s)
          × ((c.kind spec ≡ "eth") ⊎ (c.kind spec ≡ "cosmos")))

  config_lem : (s : String) → ConfigKept s → marshal_json_config c (parse_json_config c s) ≡ s
  unfolding marshal_json_config parse_json_config
  config_lem s (inl e) = ground (arith, eq_iff s "")
  config_lem s (inr (j, d, e)) = elim (Bool-cases (str_eq s "")) [
    | inl empty ↦ config_lem_empty (ground (arith, eq_iff s ""))
    | inr full ↦ rw (full, d, e) refl
  ]
    where
      config_lem_empty : s ≡ "" → marshal_json_config c (parse_json_config c s) ≡ s
      config_lem_empty z = ground (arith, eq_iff s "")

  genesis_lem : (gs : List PbGenesisKv) → genesis_to_proto c (genesis_of_proto c gs) ≡ gs
  unfolding genesis_to_proto genesis_of_proto genesis_text
  genesis_lem [] = refl
  genesis_lem (g ∷ gs) = λ i. g ∷ genesis_lem gs i

  empty_lem :
      {s : String}
      → s ≡ ""
      → load_tests_to_proto c (load_tests_of_proto c s).0 (load_tests_of_proto c s).1 ≡ s
  unfolding load_tests_to_proto load_tests_of_proto
  empty_lem {s} z = ground (arith, eq_iff s "")

  spec_lem :
      (s : String)
      → SpecKept s
      → load_tests_to_proto c (load_tests_of_proto c s).0 (load_tests_of_proto c s).1 ≡ s
  unfolding load_tests_to_proto load_tests_of_proto
  spec_lem s (inl e) = empty_lem e
  spec_lem s (inr (spec, d, e, inl k)) = elim (Bool-cases (str_eq s "")) [
    | inl empty ↦ empty_lem (ground (arith, eq_iff s ""))
    | inr full ↦ rw (full, d, k, e) refl
  ]
  spec_lem s (inr (spec, d, e, inr k)) = elim (Bool-cases (str_eq s "")) [
    | inl empty ↦ empty_lem (ground (arith, eq_iff s ""))
    | inr full ↦ rw (full, d, k, e) refl
  ]

  -- The three configurations of the chain, if there is a chain.
  abbrev pub ChainKept : Option PbChainConfig → Type 0
  ChainKept none = Unit
  ChainKept (some k) =
      ConfigKept k.custom_app_config
      × ConfigKept k.custom_consensus_config
      × ConfigKept k.custom_client_config

  -- The JSON, the load test and the number of wallets of a request survive their encodings.
  pub record IsConvertible (req : CreateWorkflowRequest) : Type 0 where
    pub chain : ChainKept req.chain_config
    pub spec : SpecKept req.encoded_load_test_spec
    pub int32 : req.num_wallets < 2 ^ 32

  chain_lem :
      (o : Option PbChainConfig)
      → ChainKept o
      → chain_to_proto c (chain_of_proto c o) ≡ kept_chain o
  unfolding chain_to_proto chain_of_proto marshal_json_config genesis_to_proto regions_to_proto
  chain_lem none h = refl
  chain_lem (some k) h = λ i. record k {
    version = "";
    genesis_modifications = genesis_lem k.genesis_modifications i;
    region_configs = regions_lem k.region_configs i;
    custom_app_config = config_lem k.custom_app_config h.0 i;
    custom_consensus_config = config_lem k.custom_consensus_config h.1 i;
    custom_client_config = config_lem k.custom_client_config h.2 i;
  }

  -- A request that becomes a template's request and then a request again, when its JSON, its load test
  -- and its number of wallets survive their encodings, is as before but for the version of the chain,
  -- the base mnemonic and the version of catalyst, which are lost, and a missing chain, in whose place
  -- an empty one comes back.
  pub template_round_trip :
      (req : CreateWorkflowRequest)
      → IsConvertible req
      → convert_workflow_request_to_proto c (convert_proto_to_workflow_request c req) ≡ record req {
        chain_config = some (kept_chain req.chain_config);
        base_mnemonic = "";
        catalyst_version = "";
      }
  unfolding convert_workflow_request_to_proto convert_proto_to_workflow_request
  template_round_trip req h = λ i. record req {
    chain_config = some (chain_lem req.chain_config h.chain i);
    encoded_load_test_spec = spec_lem req.encoded_load_test_spec h.spec i;
    num_wallets = int32_lem req.num_wallets h.int32 i;
    base_mnemonic = "";
    catalyst_version = "";
  }
