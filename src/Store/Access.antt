-- ===== src/Store/Access.antt =====
-- server/db/sqlite.go: CreateWorkflow, GetWorkflow, UpdateWorkflow and ListWorkflows, with the encoding
-- of the columns.
use ironbird.Base.{
  ℕ, zero, suc, String, not, Option, none, some, List, [], ◌∷◌, str_eq, if◌then◌else◌,
}
use ironbird.Base.Action.{pure, raise, gets, modify, ◌>>=◌, ◌>>◌}
use ironbird.Store.{
  Workflow, WorkflowUpdate, Row, not_found, duplicate, no_fields, Codec, Stored, marshal, unmarshal,
  has_row, insert_row, is_empty_json, Changes, sets_nothing, change_rows, sort_listed,
}

unfoldable pub find_row : String → List Row → Option Row
find_row id [] = none
find_row id (r ∷ rows) =
    let rest = find_row id rows in if str_eq r.workflow_id id then some r else rest

-- LIMIT and OFFSET
unfoldable pub take : {A : Type 0} → ℕ → List A → List A
take zero xs = []
take (suc n) [] = []
take (suc n) (x ∷ xs) = x ∷ take n xs

unfoldable pub drop : {A : Type 0} → ℕ → List A → List A
drop zero xs = xs
drop (suc n) [] = []
drop (suc n) (x ∷ xs) = drop n xs

-- The end of `UpdateWorkflow`: the statement and the number of rows it changed.
unfoldable pub apply_changes : ℕ → String → Changes → Stored (Unit {0})
unfolding sets_nothing change_rows has_row
apply_changes now id c = do
  found ← gets (λ db. has_row id db.rows)
  (if sets_nothing c
      then raise no_fields
      else if not found
      then raise not_found
      else modify (λ db. record db { rows = change_rows now id c db.rows }))

unfoldable pub marshal_set : {A : Type 0} → (A → Option String) → Option A → Stored (Option String)
unfolding marshal
marshal_set text none = pure none
marshal_set text (some a) = do t ← marshal (text a); pure (some t)

-- The INSERT statement of a row whose number the database chooses, which it returns.
unfoldable pub insert_checked : String → (ℕ → Row) → Stored ℕ
unfolding has_row insert_row
insert_checked workflow_id row = do
  db ← gets (λ db. db)
  (if has_row workflow_id db.rows
      then raise duplicate
      else do modify (insert_row (row db.next_id)); pure db.next_id)

module _ {Wallets Config Links : Type 0} (codec : Codec Wallets Config Links) where
  unfoldable pub wallets_json : Option Wallets → Option String
  wallets_json none = some "{}"
  wallets_json (some w) = codec.wallets_text w

  unfoldable pub load_test_spec_json : Option String → String
  load_test_spec_json none = "{}"
  load_test_spec_json (some text) = text

  -- The workflow with the number and the times that it got.
  unfoldable pub create_workflow :
      ℕ → Workflow Wallets Config Links → Stored (Workflow Wallets Config Links)
  unfolding marshal wallets_json load_test_spec_json insert_checked
  create_workflow now w = do
    nodes ← marshal (codec.nodes_text w.nodes)
    validators ← marshal (codec.nodes_text w.validators)
    load_balancers ← marshal (codec.nodes_text w.load_balancers)
    wallets ← marshal (wallets_json w.wallets)
    config ← marshal (codec.config_text w.config)
    links ← marshal (codec.links_text w.monitoring_links)
    id ← insert_checked w.workflow_id (λ id. record {
      id = id;
      workflow_id = w.workflow_id;
      nodes = nodes;
      validators = validators;
      load_balancers = load_balancers;
      wallets = wallets;
      monitoring_links = links;
      status = w.status;
      config = config;
      load_test_spec = load_test_spec_json w.load_test_spec;
      provider = w.provider;
      template_id = w.template_id;
      run_name = w.run_name;
      created_at = now;
      updated_at = now;
    })
    pure (record w { id = id; created_at = now; updated_at = now })

  unfoldable pub wallets_of_json : String → Stored (Option Wallets)
  unfolding unmarshal
  wallets_of_json text =
      if is_empty_json text
      then pure none
      else (do w ← unmarshal (codec.wallets_of text); pure (some w))

  unfoldable pub decode_row : Row → Stored (Workflow Wallets Config Links)
  unfolding unmarshal wallets_of_json
  decode_row r = do
    nodes ← unmarshal (codec.nodes_of r.nodes)
    validators ← unmarshal (codec.nodes_of r.validators)
    load_balancers ← unmarshal (codec.nodes_of r.load_balancers)
    wallets ← wallets_of_json r.wallets
    config ← unmarshal (codec.config_of r.config)
    links ← unmarshal (codec.links_of r.monitoring_links)
    pure (record {
      id = r.id;
      workflow_id = r.workflow_id;
      nodes = nodes;
      validators = validators;
      load_balancers = load_balancers;
      wallets = wallets;
      monitoring_links = links;
      status = r.status;
      config = config;
      load_test_spec = if is_empty_json r.load_test_spec then none else some r.load_test_spec;
      provider = r.provider;
      template_id = r.template_id;
      run_name = r.run_name;
      created_at = r.created_at;
      updated_at = r.updated_at;
    })

  unfoldable pub decode_found : Option Row → Stored (Workflow Wallets Config Links)
  unfolding decode_row
  decode_found none = raise not_found
  decode_found (some r) = decode_row r

  unfoldable pub get_workflow : String → Stored (Workflow Wallets Config Links)
  unfolding find_row decode_found
  get_workflow id = do found ← gets (λ db. find_row id db.rows); decode_found found

  -- A row that cannot be decoded fails the whole listing.
  unfoldable pub decode_rows : List Row → Stored (List (Workflow Wallets Config Links))
  unfolding decode_row
  decode_rows [] = pure []
  decode_rows (r ∷ rows) = do w ← decode_row r; ws ← decode_rows rows; pure (w ∷ ws)

  unfoldable pub list_workflows : ℕ → ℕ → Stored (List (Workflow Wallets Config Links))
  unfolding decode_rows take drop sort_listed
  list_workflows limit offset = do
    rows ← gets (λ db. take limit (drop offset (sort_listed db.rows)))
    decode_rows rows

  unfoldable pub update_workflow : ℕ → String → WorkflowUpdate Wallets Links → Stored (Unit {0})
  unfolding marshal_set apply_changes
  update_workflow now id u = do
    nodes ← marshal_set codec.nodes_text u.nodes
    validators ← marshal_set codec.nodes_text u.validators
    load_balancers ← marshal_set codec.nodes_text u.load_balancers
    wallets ← marshal_set codec.wallets_proto_text u.wallets
    links ← marshal_set codec.links_text u.monitoring_links
    apply_changes now id (record {
      nodes = nodes;
      validators = validators;
      load_balancers = load_balancers;
      wallets = wallets;
      monitoring_links = links;
      status = u.status;
      provider = u.provider;
      template_id = u.template_id;
      run_name = u.run_name;
    })
