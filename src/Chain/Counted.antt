-- ===== src/Chain/Counted.antt =====
-- petri/cosmos/chain/chain.go: how many nodes a run of the jobs makes.
use Prim.Native.String.{◌++◌ as append}
use ironbird.Base.{
  ℕ, zero, suc, ◌+◌, ◌≡◌, refl, ap, ◌∙◌, String, Bool, true, false, Option, List, [], ◌∷◌, ◌++◌,
  arith, length, length-append, str_eq, if◌then◌else◌,
}
use ironbird.Base.Action.{Result, ok, err, pure}
use ironbird.Base.Triple.{Post, Post-impl, Ensures}
use ironbird.Messages.{RegionConfig}
use ironbird.Genesis.{Decimal}
use ironbird.Chain.Types.{ChainConfig, Modifier, Error, create_node, Log, Nodes, ask, rounds}
use ironbird.Chain.Config.{digital_ocean_type}
use ironbird.Chain.Create.{
  Job, Made, jobs_from, regional_jobs, local_jobs, keep_going, add_made, create_nodes,
  create_regional_node_options,
}

-- What the configuration asks for.
abbrev pub region_validators : List RegionConfig → ℕ
region_validators [] = 0
region_validators (r ∷ rs) = rounds r.num_validators + region_validators rs

abbrev pub region_nodes : List RegionConfig → ℕ
region_nodes [] = 0
region_nodes (r ∷ rs) = rounds r.num_nodes + region_nodes rs

abbrev pub wanted_validators : String → ChainConfig → ℕ
wanted_validators kind c =
    if str_eq kind digital_ocean_type
    then region_validators c.region_config
    else rounds c.num_validators

abbrev pub wanted_nodes : String → ChainConfig → ℕ
wanted_nodes kind c =
    if str_eq kind digital_ocean_type then region_nodes c.region_config else rounds c.num_nodes

abbrev one : Bool → Bool → ℕ
one true true = 1
one false false = 1
one _ _ = 0

abbrev pub count_jobs : Bool → List Job → ℕ
count_jobs v [] = 0
count_jobs v (j ∷ js) = one v j.is_validator + count_jobs v js

count_jobs-append :
    (v : Bool) (xs ys : List Job) → count_jobs v (xs ++ ys) ≡ count_jobs v xs + count_jobs v ys
count_jobs-append v [] ys = omega arith
count_jobs-append v (x ∷ xs) ys = omega (arith, count_jobs-append v xs ys)

module _ (dec : Decimal) (c : ChainConfig) where
  count_jobs-from :
      (v w : Bool) (kind ending : String) (base : Option Modifier) (i count : ℕ)
      → count_jobs v (jobs_from dec w c kind ending base i count)
        ≡ (if w then if v then count else 0 else if v then 0 else count)
  unfolding jobs_from
  count_jobs-from true true kind ending base i zero = refl
  count_jobs-from true false kind ending base i zero = refl
  count_jobs-from false true kind ending base i zero = refl
  count_jobs-from false false kind ending base i zero = refl
  count_jobs-from true true kind ending base i (suc count) =
      omega (arith, count_jobs-from true true kind ending base (suc i) count)
  count_jobs-from true false kind ending base i (suc count) =
      omega (arith, count_jobs-from true false kind ending base (suc i) count)
  count_jobs-from false true kind ending base i (suc count) =
      omega (arith, count_jobs-from false true kind ending base (suc i) count)
  count_jobs-from false false kind ending base i (suc count) =
      omega (arith, count_jobs-from false false kind ending base (suc i) count)

  -- Some validators' jobs, some nodes' jobs, and more.
  count_mixed :
      (v : Bool) (ending : String) (modifier : Option Modifier) (vi ni n m : ℕ) (more : List Job)
      → count_jobs v (
          jobs_from dec true c "-validator-" ending modifier vi n
          ++ (jobs_from dec false c "-node-" ending modifier ni m ++ more))
        ≡ (if v then n else m) + count_jobs v more
  count_mixed v ending modifier vi ni n m more =
      count_jobs-append v (jobs_from dec true c "-validator-" ending modifier vi n) _
      ∙ (ap (λ k. count_jobs v (jobs_from dec true c "-validator-" ending modifier vi n) + k)
            (count_jobs-append v (jobs_from dec false c "-node-" ending modifier ni m) more)
          ∙ summed (count_jobs v more) v (count_jobs-from v true "-validator-" ending modifier vi n)
              (count_jobs-from v false "-node-" ending modifier ni m))
    where
      summed :
          {a b : ℕ} (k : ℕ) (v : Bool)
          → a ≡ (if v then n else 0)
          → b ≡ (if v then 0 else m)
          → a + (b + k) ≡ (if v then n else m) + k
      summed k true p q = omega (arith, p, q)
      summed k false p q = omega (arith, p, q)

  pub count_regional :
      (base : Option Modifier) (vi ni : ℕ) (rs : List RegionConfig)
      → (count_jobs true (regional_jobs dec c base vi ni rs) ≡ region_validators rs)
        × (count_jobs false (regional_jobs dec c base vi ni rs) ≡ region_nodes rs)
  unfolding regional_jobs
  count_regional base vi ni [] = (refl, refl)
  count_regional base vi ni (r ∷ rs) =
      let rest = count_regional base (vi + rounds r.num_validators) (ni + rounds r.num_nodes) rs in
      let modifier = create_regional_node_options base r in
      (
        omega (
          arith,
          rest.0,
          count_mixed true (append "-" r.name) modifier vi ni (rounds r.num_validators)
              (rounds r.num_nodes) _,
        ),
        omega (
          arith,
          rest.1,
          count_mixed false (append "-" r.name) modifier vi ni (rounds r.num_validators)
              (rounds r.num_nodes) _,
        ),
      )

  pub count_local :
      (base : Option Modifier)
      → (count_jobs true (local_jobs dec c base) ≡ rounds c.num_validators)
        × (count_jobs false (local_jobs dec c base) ≡ rounds c.num_nodes)
  unfolding local_jobs
  count_local base = (
    omega (
      arith,
      count_jobs-append true
          (jobs_from dec true c "-validator-" "" base 0 (rounds c.num_validators)) _,
      count_jobs-from true true "-validator-" "" base 0 (rounds c.num_validators),
      count_jobs-from true false "-node-" "" base 0 (rounds c.num_nodes),
    ),
    omega (
      arith,
      count_jobs-append false
          (jobs_from dec true c "-validator-" "" base 0 (rounds c.num_validators)) _,
      count_jobs-from false true "-validator-" "" base 0 (rounds c.num_validators),
      count_jobs-from false false "-node-" "" base 0 (rounds c.num_nodes),
    ),
  )

abbrev pub Anything : Log → Type 0
Anything log = Unit

-- The lists have grown by a validator and a node for each such job.
abbrev pub Grown : Made → List Job → Made → Log → Type 0
Grown made js r log =
    (length r.0 ≡ length made.0 + count_jobs true js)
    × (length r.1 ≡ length made.1 + count_jobs false js)

module _ (nodes : Nodes) where
  pub create_nodes-Grown :
      (js : List Job) (made : Made)
      → Ensures {E = Error} Anything Anything (create_nodes nodes js made) (Grown made js)
  unfolding create_nodes pure
  create_nodes-Grown [] made = record { at = λ log u. (omega arith, omega arith) }
  create_nodes-Grown (j ∷ js) made = record {
    at = λ log u.
        answered (create_nodes-Grown js) j.is_validator refl
          (nodes.answer log (create_node j.config j.modifier))
          (ask nodes (create_node j.config j.modifier) log).1;
  }
    where
      grown :
          (v : Bool) (n : ℕ)
          → j.is_validator ≡ v
          → (made' : Made) (log : Log) → Grown (add_made v n made) js made' log
          → Grown made (j ∷ js) made' log
      grown true n e made' log h = (
        omega (arith, h.0, length-append made.0 (n ∷ []), ap (one true) e),
        omega (arith, h.1, ap (one false) e),
      )
      grown false n e made' log h = (
        omega (arith, h.0, ap (one true) e),
        omega (arith, h.1, length-append made.1 (n ∷ []), ap (one false) e),
      )

      answered :
          ((made : Made) → Ensures Anything Anything (create_nodes nodes js made) (Grown made js))
          → (v : Bool) → j.is_validator ≡ v
          → (r : Result Error ℕ) (log : Log)
          → Post Anything
              (Grown made (j ∷ js))
              (keep_going nodes v r made (create_nodes nodes js) log).0
              (keep_going nodes v r made (create_nodes nodes js) log).1
      answered rest v e (err x) log = tt
      answered rest v e (ok n) log =
          Post-impl _ _ _ (create_nodes nodes js (add_made v n made) log).0
            (create_nodes nodes js (add_made v n made) log).1
            (λ made' h. grown v n e made' (create_nodes nodes js (add_made v n made) log).1 h)
            ((rest (add_made v n made)).at log tt)
