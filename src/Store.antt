-- ===== src/Store.antt =====
-- server/db/models.go and sqlite.go: the table of workflows. A table is the list of its rows in the
-- order of their insertion; SQLite's statements have their documented meaning on it, and the file
-- itself does not fail. The JSON encoders of the columns are the parameter `Codec`. Times are numbers.
pub mod Access
mod Keeps
mod Rows
pub mod Templates
mod Listed
mod Edited
pub mod View
pub mod Refines
pub mod Unique
pub mod RoundTrip
mod Tests
use ironbird.Base.{
  ℕ, zero, suc, String, Bool, true, false, ◌&&◌, ◌||◌, not, Option, none, some, List, [], ◌∷◌, ◌++◌,
  length, ltb, ◌==◌, str_eq, if◌then◌else◌,
}
use ironbird.Base.Action.{Result, ok, err, Action, pure, raise, gets, modify, ◌>>=◌, ◌>>◌}
use ironbird.Workflow.Types.{Node}

-- enums.WorkflowExecutionStatus; a status of Temporal that the source does not name is `other`.
pub data Status : Type 0 where
  unspecified running completed failed canceled terminated continued_as_new timed_out : Status
  other : ℕ → Status

unfoldable pub workflow_status_to_string : Status → String
workflow_status_to_string unspecified = "pending"
workflow_status_to_string running = "running"
workflow_status_to_string completed = "completed"
workflow_status_to_string failed = "failed"
workflow_status_to_string canceled = "canceled"
workflow_status_to_string terminated = "terminated"
workflow_status_to_string continued_as_new = "running"
workflow_status_to_string timed_out = "failed"
workflow_status_to_string (other n) = "unknown"

-- A nil slice is the empty list. `load_test_spec` is raw JSON.
pub record Workflow (Wallets Config Links : Type 0) : Type 0 where
  pub id : ℕ
  pub workflow_id : String
  pub nodes : List Node
  pub validators : List Node
  pub load_balancers : List Node
  pub wallets : Option Wallets
  pub monitoring_links : Links
  pub status : Status
  pub config : Config
  pub load_test_spec : Option String
  pub provider : String
  pub template_id : String
  pub run_name : String
  pub created_at : ℕ
  pub updated_at : ℕ

pub record WorkflowUpdate (Wallets Links : Type 0) : Type 0 where
  pub nodes : Option (List Node)
  pub validators : Option (List Node)
  pub load_balancers : Option (List Node)
  pub wallets : Option Wallets
  pub monitoring_links : Option Links
  pub status : Option Status
  pub provider : Option String
  pub template_id : Option String
  pub run_name : Option String

-- A row of the table `workflows`.
pub record Row : Type 0 where
  pub id : ℕ
  pub workflow_id : String
  pub nodes : String
  pub validators : String
  pub load_balancers : String
  pub wallets : String
  pub monitoring_links : String
  pub status : Status
  pub config : String
  pub load_test_spec : String
  pub provider : String
  pub template_id : String
  pub run_name : String
  pub created_at : ℕ
  pub updated_at : ℕ

pub record Db : Type 0 where
  pub rows : List Row
  pub next_id : ℕ

pub data Error : Type 0 where
  marshal_failed unmarshal_failed not_found duplicate no_fields : Error

-- json.Marshal, protojson.Marshal and their inverses.
pub record Codec (Wallets Config Links : Type 0) : Type 0 where
  pub nodes_text : List Node → Option String
  pub nodes_of : String → Option (List Node)
  pub wallets_text : Wallets → Option String
  pub wallets_proto_text : Wallets → Option String
  pub wallets_of : String → Option Wallets
  pub config_text : Config → Option String
  pub config_of : String → Option Config
  pub links_text : Links → Option String
  pub links_of : String → Option Links

abbrev pub Stored : Type 0 → Type 0
Stored A = Action Db Error A

unfoldable pub marshal : {A : Type 0} → Option A → Stored A
marshal none = raise marshal_failed
marshal (some a) = pure a

unfoldable pub unmarshal : {A : Type 0} → Option A → Stored A
unmarshal none = raise unmarshal_failed
unmarshal (some a) = pure a

unfoldable pub has_row : String → List Row → Bool
has_row id [] = false
has_row id (r ∷ rows) = str_eq r.workflow_id id || has_row id rows

-- The insertion; the column `workflow_id` is UNIQUE, and the database numbers the rows.
unfoldable pub insert_row : Row → Db → Db
insert_row r db = record { rows = db.rows ++ (r ∷ []); next_id = suc db.next_id }

-- Nothing or the empty object is no value.
abbrev pub is_empty_json : String → Bool
is_empty_json text = str_eq text "" || str_eq text "{}"

-- The columns that an update sets, encoded.
pub record Changes : Type 0 where
  pub nodes : Option String
  pub validators : Option String
  pub load_balancers : Option String
  pub wallets : Option String
  pub monitoring_links : Option String
  pub status : Option Status
  pub provider : Option String
  pub template_id : Option String
  pub run_name : Option String

abbrev pub is_none : {A : Type 0} → Option A → Bool
is_none none = true
is_none (some a) = false

-- len(setParts) == 0
unfoldable pub sets_nothing : Changes → Bool
sets_nothing c =
    is_none c.nodes
    && is_none c.validators
    && is_none c.load_balancers
    && is_none c.wallets
    && is_none c.monitoring_links
    && is_none c.status
    && is_none c.provider
    && is_none c.template_id
    && is_none c.run_name

abbrev pub set_or : {A : Type 0} → Option A → A → A
set_or none old = old
set_or (some new) old = new

-- The SET clause on one row.
unfoldable pub change_row : ℕ → Changes → Row → Row
change_row now c r = record r {
  nodes = set_or c.nodes r.nodes;
  validators = set_or c.validators r.validators;
  load_balancers = set_or c.load_balancers r.load_balancers;
  wallets = set_or c.wallets r.wallets;
  monitoring_links = set_or c.monitoring_links r.monitoring_links;
  status = set_or c.status r.status;
  provider = set_or c.provider r.provider;
  template_id = set_or c.template_id r.template_id;
  run_name = set_or c.run_name r.run_name;
  updated_at = now;
}

-- UPDATE workflows SET ... WHERE workflow_id = ?
unfoldable pub change_rows : ℕ → String → Changes → List Row → List Row
unfolding change_row
change_rows now id c [] = []
change_rows now id c (r ∷ rows) =
    (if str_eq r.workflow_id id then change_row now c r else r) ∷ change_rows now id c rows

-- DELETE FROM workflows WHERE workflow_id = ?
unfoldable pub delete_rows : String → List Row → List Row
delete_rows id [] = []
delete_rows id (r ∷ rows) =
    let rest = delete_rows id rows in if str_eq r.workflow_id id then rest else r ∷ rest

unfoldable pub delete_workflow : String → Stored (Unit {0})
unfolding delete_rows has_row
delete_workflow id = do
  found ← gets (λ db. has_row id db.rows)
  (if not found
      then raise not_found
      else modify (λ db. record db { rows = delete_rows id db.rows }))

unfoldable pub count_workflows : Stored ℕ
count_workflows = gets (λ db. length db.rows)

-- ORDER BY CASE WHEN status = RUNNING THEN 0 ELSE 1 END, created_at DESC: does `a` come strictly before?
abbrev pub is_running : Status → Bool
is_running running = true
is_running _ = false

abbrev pub listed_before : Row → Row → Bool
listed_before a b =
    if is_running a.status
    then (if is_running b.status then ltb b.created_at a.created_at else true)
    else if is_running b.status
    then false
    else ltb b.created_at a.created_at

-- Rows that the order does not tell apart stay in the order of the table, where SQLite is free.
unfoldable pub insert_listed : Row → List Row → List Row
insert_listed r [] = r ∷ []
insert_listed r (s ∷ rows) = if listed_before s r then s ∷ insert_listed r rows else r ∷ s ∷ rows

unfoldable pub sort_listed : List Row → List Row
unfolding insert_listed
sort_listed [] = []
sort_listed (r ∷ rows) = insert_listed r (sort_listed rows)
