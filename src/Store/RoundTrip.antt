-- ===== src/Store/RoundTrip.antt =====
-- server/db/sqlite.go: a workflow that is created is read back as it was.
use ironbird.Base.{ℕ, ◌≡◌, refl, String, false, Option, none, some, List, if◌then◌else◌}
use ironbird.Base.Action.{ok, pure, raise, gets, modify, ◌>>=◌}
use ironbird.Workflow.Types.{Node}
use ironbird.Store.{
  Workflow, Row, Db, Codec, marshal, unmarshal, has_row, insert_row, is_empty_json,
}
use ironbird.Store.Rows.{find_row-append}
use ironbird.Store.Access.{
  create_workflow, insert_checked, get_workflow, decode_found, decode_row, wallets_json,
  wallets_of_json, load_test_spec_json,
}

module _ {Wallets Config Links : Type 0} (codec : Codec Wallets Config Links) where
  -- What is encoded is decoded to itself.
  pub record IsInverse : Type 0 where
    pub nodes :
        (ns : List Node) (t : String) → codec.nodes_text ns ≡ some t → codec.nodes_of t ≡ some ns
    pub wallets :
        (w : Wallets) (t : String) → codec.wallets_text w ≡ some t → codec.wallets_of t ≡ some w
    pub config :
        (c : Config) (t : String) → codec.config_text c ≡ some t → codec.config_of t ≡ some c
    pub links : (l : Links) (t : String) → codec.links_text l ≡ some t → codec.links_of t ≡ some l

  abbrev pub WalletsKept : Option Wallets → Type 0
  WalletsKept none = Unit
  WalletsKept (some w) = (t : String) × (codec.wallets_text w ≡ some t) × (is_empty_json t ≡ false)

  abbrev pub SpecKept : Option String → Type 0
  SpecKept none = Unit
  SpecKept (some t) = is_empty_json t ≡ false

  -- All fields can be encoded, and neither the wallets nor the load test are encoded as nothing.
  pub record IsStorable (w : Workflow Wallets Config Links) : Type 0 where
    pub nodes : (t : String) × (codec.nodes_text w.nodes ≡ some t)
    pub validators : (t : String) × (codec.nodes_text w.validators ≡ some t)
    pub load_balancers : (t : String) × (codec.nodes_text w.load_balancers ≡ some t)
    pub config : (t : String) × (codec.config_text w.config ≡ some t)
    pub links : (t : String) × (codec.links_text w.monitoring_links ≡ some t)
    pub wallets : WalletsKept w.wallets
    pub load_test_spec : SpecKept w.load_test_spec

  wallets_lem :
      IsInverse
      → (o : Option Wallets) → WalletsKept o
      → (t : String) × (wallets_json codec o ≡ some t)
        × ((db : Db) → wallets_of_json codec t db ≡ (ok o, db))
  unfolding wallets_json wallets_of_json unmarshal pure ◌>>=◌
  wallets_lem inv none k = ("{}", refl, λ db. refl)
  wallets_lem inv (some w) k = (k.0, k.1, λ db. rw (k.2, inv.wallets w k.0 k.1) refl)

  spec_lem :
      (o : Option String)
      → SpecKept o
      → (if is_empty_json (load_test_spec_json codec o)
          then none
          else some (load_test_spec_json codec o))
        ≡ o
  unfolding load_test_spec_json
  spec_lem none k = refl
  spec_lem (some t) k = rw k refl

  -- The workflow that `CreateWorkflow` leaves behind.
  abbrev pub numbered : ℕ → Db → Workflow Wallets Config Links → Workflow Wallets Config Links
  numbered now db w = record w { id = db.next_id; created_at = now; updated_at = now }

  -- The row of a workflow whose wallets are encoded as `t`.
  abbrev stored_row : ℕ → (w : Workflow Wallets Config Links) → Db → IsStorable w → String → Row
  stored_row now w db s t = record {
    id = db.next_id;
    workflow_id = w.workflow_id;
    nodes = s.nodes.0;
    validators = s.validators.0;
    load_balancers = s.load_balancers.0;
    wallets = t;
    monitoring_links = s.links.0;
    status = w.status;
    config = s.config.0;
    load_test_spec = load_test_spec_json codec w.load_test_spec;
    provider = w.provider;
    template_id = w.template_id;
    run_name = w.run_name;
    created_at = now;
    updated_at = now;
  }

  -- With encoders that have inverses: a workflow whose fields can be encoded, none of them as nothing,
  -- and whose id is not in the table is created, with the next number and the current time, and reading
  -- it by its id gives it back with all its fields.
  pub create-get :
      IsInverse
      → (now : ℕ) (w : Workflow Wallets Config Links) (db : Db) → IsStorable w
      → has_row w.workflow_id db.rows ≡ false
      → ((create_workflow codec now w db).0 ≡ ok (numbered now db w))
        × ((get_workflow codec w.workflow_id (create_workflow codec now w db).1).0
            ≡ ok (numbered now db w))
  unfolding create_workflow insert_checked insert_row marshal unmarshal get_workflow decode_found
      decode_row pure gets modify raise ◌>>=◌
  create-get inv now w db s free =
      let (t, e, d) = wallets_lem inv w.wallets s.wallets in
      (
        rw (s.nodes.1, s.validators.1, s.load_balancers.1, s.config.1, s.links.1, e, free) refl,
        rw
            (
              s.nodes.1,
              s.validators.1,
              s.load_balancers.1,
              s.config.1,
              s.links.1,
              e,
              free,
              find_row-append (stored_row now w db s t) db.rows free,
              inv.nodes w.nodes s.nodes.0 s.nodes.1,
              inv.nodes w.validators s.validators.0 s.validators.1,
              inv.nodes w.load_balancers s.load_balancers.0 s.load_balancers.1,
              d,
              inv.config w.config s.config.0 s.config.1,
              inv.links w.monitoring_links s.links.0 s.links.1,
              spec_lem w.load_test_spec s.load_test_spec,
            )
            refl,
      )
