-- ===== src/Store/View.antt =====
-- What server/db/sqlite.go's table promises: a partial map from workflow ids to rows, which an
-- operation leaves alone when it fails and changes at one id when it succeeds.
use ironbird.Base.{◌≡◌, ◌≢◌, ℕ, String, Bool, true, false, Option, none, some, List, [], ◌∷◌}
use ironbird.Base.Action.{Result, ok, err}
use ironbird.Store.{Workflow, WorkflowUpdate, Row, Db, Codec, Changes, change_row, sets_nothing}
use ironbird.Store.Access.{
  find_row, wallets_json, load_test_spec_json, create_workflow, update_workflow,
}
use ironbird.Store.Unique.{Operation, creates, updates, deletes, perform}
use ironbird.Store.{delete_workflow}

abbrev pub View : Type 0
View = String → Option Row

abbrev pub look : Db → View
look db id = find_row id db.rows

abbrev pub Same : View → View → Type 0
Same v v' = (x : String) → v' x ≡ v x

-- The view `v'` has `o` at `id` and is `v` elsewhere.
pub record SetAt (v : View) (id : String) (o : Option Row) (v' : View) : Type 0 where
  pub here : v' id ≡ o
  pub elsewhere : (x : String) → x ≢ id → v' x ≡ v x

pub record Deleted (id : String) (v v' : View) : Type 0 where
  pub row : Row
  pub found : v id ≡ some row
  pub set : SetAt v id none v'

-- A column that an update sets holds the text of the field; the others are not set.
abbrev pub Encoded : {A : Type 0} → (A → Option String) → Option A → Option String → Type 0
Encoded text none t = t ≡ none
Encoded text (some a) t = (s : String) × (text a ≡ some s) × (t ≡ some s)

-- The field is set, and has no text.
pub record Unencodable {A : Type 0} (text : A → Option String) (o : Option A) : Type 0 where
  pub value : A
  pub given : o ≡ some value
  pub no_text : text value ≡ none

abbrev pub succeeds : {E A : Type 0} → Result E A → Bool
succeeds (ok a) = true
succeeds (err e) = false

module _ {Wallets Config Links : Type 0} (codec : Codec Wallets Config Links) where
  -- The columns that an update sets.
  pub record Sets (u : WorkflowUpdate Wallets Links) (c : Changes) : Type 0 where
    pub nodes : Encoded codec.nodes_text u.nodes c.nodes
    pub validators : Encoded codec.nodes_text u.validators c.validators
    pub load_balancers : Encoded codec.nodes_text u.load_balancers c.load_balancers
    pub wallets : Encoded codec.wallets_proto_text u.wallets c.wallets
    pub monitoring_links : Encoded codec.links_text u.monitoring_links c.monitoring_links
    pub status : c.status ≡ u.status
    pub provider : c.provider ≡ u.provider
    pub template_id : c.template_id ≡ u.template_id
    pub run_name : c.run_name ≡ u.run_name

  -- The row of a new workflow.
  pub record Holds (now : ℕ) (w : Workflow Wallets Config Links) (r : Row) : Type 0 where
    pub workflow_id : r.workflow_id ≡ w.workflow_id
    pub nodes : codec.nodes_text w.nodes ≡ some r.nodes
    pub validators : codec.nodes_text w.validators ≡ some r.validators
    pub load_balancers : codec.nodes_text w.load_balancers ≡ some r.load_balancers
    pub wallets : wallets_json codec w.wallets ≡ some r.wallets
    pub config : codec.config_text w.config ≡ some r.config
    pub monitoring_links : codec.links_text w.monitoring_links ≡ some r.monitoring_links
    pub load_test_spec : r.load_test_spec ≡ load_test_spec_json codec w.load_test_spec
    pub status : r.status ≡ w.status
    pub provider : r.provider ≡ w.provider
    pub template_id : r.template_id ≡ w.template_id
    pub run_name : r.run_name ≡ w.run_name
    pub created_at : r.created_at ≡ now
    pub updated_at : r.updated_at ≡ now

  pub record Created (now : ℕ) (w : Workflow Wallets Config Links) (v v' : View) : Type 0 where
    pub row : Row
    pub free : v w.workflow_id ≡ none
    pub holds : Holds now w row
    pub set : SetAt v w.workflow_id (some row) v'

  pub record Updated (now : ℕ) (id : String) (u : WorkflowUpdate Wallets Links) (v v' : View)
      : Type 0 where
    pub row : Row
    pub changes : Changes
    pub found : v id ≡ some row
    pub sets : Sets u changes
    pub set : SetAt v id (some (change_row now changes row)) v'

  -- Why a creation fails.
  pub data CannotCreate (w : Workflow Wallets Config Links) (v : View) : Type 0 where
    taken : (r : Row) → v w.workflow_id ≡ some r → CannotCreate w v
    bad_nodes : codec.nodes_text w.nodes ≡ none → CannotCreate w v
    bad_validators : codec.nodes_text w.validators ≡ none → CannotCreate w v
    bad_load_balancers : codec.nodes_text w.load_balancers ≡ none → CannotCreate w v
    bad_wallets : wallets_json codec w.wallets ≡ none → CannotCreate w v
    bad_config : codec.config_text w.config ≡ none → CannotCreate w v
    bad_links : codec.links_text w.monitoring_links ≡ none → CannotCreate w v

  -- Why an update fails.
  pub data CannotUpdate (id : String) (u : WorkflowUpdate Wallets Links) (v : View) : Type 0 where
    missing : v id ≡ none → CannotUpdate id u v
    nothing_set : (c : Changes) → Sets u c → sets_nothing c ≡ true → CannotUpdate id u v
    nodes_unset : Unencodable codec.nodes_text u.nodes → CannotUpdate id u v
    validators_unset : Unencodable codec.nodes_text u.validators → CannotUpdate id u v
    load_balancers_unset : Unencodable codec.nodes_text u.load_balancers → CannotUpdate id u v
    wallets_unset : Unencodable codec.wallets_proto_text u.wallets → CannotUpdate id u v
    links_unset : Unencodable codec.links_text u.monitoring_links → CannotUpdate id u v

  -- One operation of the map, with whether it succeeds.
  abbrev pub Move : Operation codec → Bool → View → View → Type 0
  Move (creates now w) false v v' = Same v v' × CannotCreate w v
  Move (updates now id u) false v v' = Same v v' × CannotUpdate id u v
  Move (deletes id) false v v' = Same v v' × (v id ≡ none)
  Move (creates now w) true v v' = Created now w v v'
  Move (updates now id u) true v v' = Updated now id u v v'
  Move (deletes id) true v v' = Deleted id v v'

  abbrev pub accepted : Operation codec → Db → Bool
  accepted (creates now w) db = succeeds (create_workflow codec now w db).0
  accepted (updates now id u) db = succeeds (update_workflow codec now id u db).0
  accepted (deletes id) db = succeeds (delete_workflow id db).0

  -- The answers to the operations, in their order.
  abbrev pub answers : List (Operation codec) → Db → List Bool
  answers [] db = []
  answers (o ∷ os) db = accepted o db ∷ answers os (perform codec o db)

  -- A run of the map, with the answers.
  pub data Moves : List (Operation codec) → List Bool → View → View → Type 0 where
    done : {v v' : View} → Same v v' → Moves [] [] v v'
    move :
        {v v' v'' : View} (o : Operation codec) (os : List (Operation codec)) (b : Bool)
        (bs : List Bool)
        → Move o b v v'
        → Moves os bs v' v''
        → Moves (o ∷ os) (b ∷ bs) v v''
