-- ===== src/Service.antt =====
-- server/services/workflow/workflow.go: the handlers that change stored workflows, and the poll of their
-- statuses. What Temporal answers is a parameter, and may depend on the table at the time of the call.
pub mod Requests
pub mod Templates
pub mod Create
pub mod Answers
mod Listing
pub mod Polling
mod Tests
use ironbird.Base.{
  ℕ, ◌+◌, String, Bool, true, false, not, ◌&&◌, ◌||◌, Option, none, some, List, [], ◌∷◌, ◌==◌,
  str_eq, if◌then◌else◌,
}
use ironbird.Base.Action.{Result, ok, err, pure, ◌>>=◌, ◌>>◌}
use ironbird.Workflow.Types.{Node}
use ironbird.Store.{
  Workflow, WorkflowUpdate, Status, unspecified, running, completed, failed, canceled, terminated,
  continued_as_new, timed_out, other, Db, Codec, Stored, Error,
}
use ironbird.Store.Access.{list_workflows, update_workflow}

unfoldable pub is_workflow_terminal : Status → Bool
is_workflow_terminal completed = true
is_workflow_terminal failed = true
is_workflow_terminal canceled = true
is_workflow_terminal terminated = true
is_workflow_terminal _ = false

abbrev pub status_number : Status → ℕ
status_number unspecified = 0
status_number running = 1
status_number completed = 2
status_number failed = 3
status_number canceled = 4
status_number terminated = 5
status_number continued_as_new = 6
status_number timed_out = 7
status_number (other n) = 8 + n

abbrev pub same_status : Status → Status → Bool
same_status a b = status_number a == status_number b

-- The addresses of an EVM node are left empty.
unfoldable pub convert_proto_nodes : List Node → List Node
convert_proto_nodes [] = []
convert_proto_nodes (n ∷ ns) =
    (record {
      name = n.name;
      address = n.address;
      rpc = n.rpc;
      lcd = n.lcd;
      grpc = n.grpc;
      evmrpc = "";
      evmws = "";
    })
    ∷ convert_proto_nodes ns

-- pb.UpdateWorkflowDataRequest. A nil map of links is the empty one.
pub record UpdateWorkflowDataRequest (Wallets : Type 0) : Type 0 where
  pub workflow_id : String
  pub load_balancers : List Node
  pub monitoring : List (String × String)
  pub nodes : List Node
  pub validators : List Node
  pub wallets : Option Wallets
  pub provider : String

abbrev pub Links : Type 0
Links = List (String × String)

abbrev pub some_unless_empty : {A : Type 0} → List A → Option (List A)
some_unless_empty [] = none
some_unless_empty (x ∷ xs) = some (x ∷ xs)

-- An update of the status alone.
abbrev pub status_update : {Wallets : Type 0} → Status → WorkflowUpdate Wallets Links
status_update s = record {
  nodes = none;
  validators = none;
  load_balancers = none;
  wallets = none;
  monitoring_links = none;
  status = some s;
  provider = none;
  template_id = none;
  run_name = none;
}

module _ {Wallets Config : Type 0} (codec : Codec Wallets Config Links) (now : ℕ) where
  unfoldable pub update_workflow_data : UpdateWorkflowDataRequest Wallets → Stored String
  unfolding convert_proto_nodes
  update_workflow_data req = do
    update_workflow codec now req.workflow_id (record {
      nodes = some_unless_empty (convert_proto_nodes req.nodes);
      validators = some_unless_empty (convert_proto_nodes req.validators);
      load_balancers = some_unless_empty (convert_proto_nodes req.load_balancers);
      wallets = req.wallets;
      monitoring_links = some_unless_empty req.monitoring;
      status = none;
      provider = if str_eq req.provider "" then none else some req.provider;
      template_id = none;
      run_name = none;
    })
    pure req.workflow_id

  -- DescribeWorkflowExecution: the status of a workflow, or an error.
  module _ (describe : Db → String → Option Status) where
    -- A failed update is only logged; it changes nothing.
    unfoldable pub poll_described : Workflow Wallets Config Links → Option Status → Db → Db
    poll_described w none db = db
    poll_described w (some s) db =
        if same_status s w.status
        then db
        else (update_workflow codec now w.workflow_id (status_update s) db).1

    unfoldable pub poll_workflow : Workflow Wallets Config Links → Db → Db
    unfolding is_workflow_terminal poll_described
    poll_workflow w db =
        if is_workflow_terminal w.status
        then db
        else poll_described w (describe db w.workflow_id) db

    unfoldable pub poll_workflows : List (Workflow Wallets Config Links) → Db → Db
    unfolding poll_workflow
    poll_workflows [] db = db
    poll_workflows (w ∷ ws) db = poll_workflows ws (poll_workflow w db)

    abbrev pub poll_listed : Result Error (List (Workflow Wallets Config Links)) → Db → Db
    poll_listed (err e) db = db
    poll_listed (ok ws) db = poll_workflows ws db

    unfoldable pub update_workflow_statuses : Db → Db
    unfolding poll_workflows
    update_workflow_statuses db = poll_listed (list_workflows codec 1000 0 db).0 db
