-- ===== src/Store/Templates.antt =====
-- server/db/sqlite.go: the table of workflow templates, and the workflows of a template. A table is the
-- list of its rows in the order of their insertion; `template_id` is its primary key.
use ironbird.Base.{
  ℕ, String, Bool, false, ◌||◌, Option, none, some, List, [], ◌∷◌, ◌++◌, ltb, str_eq, if◌then◌else◌,
}
use ironbird.Base.Action.{Action, pure, raise, gets, modify, ◌>>=◌}
use ironbird.Store.{
  Workflow, Row, Codec, Stored, Error, marshal_failed, unmarshal_failed, not_found, duplicate,
}
use ironbird.Store.Access.{take, drop, decode_rows}

pub record Template (Config : Type 0) : Type 0 where
  pub id : String
  pub description : String
  pub config : Config
  pub created_at : ℕ
  pub created_by : String

-- A row of the table `workflow_templates`.
pub record TemplateRow : Type 0 where
  pub template_id : String
  pub description : String
  pub config : String
  pub created_at : ℕ
  pub created_by : String

abbrev pub Kept : Type 0 → Type 0
Kept A = Action (List TemplateRow) Error A

-- ORDER BY created_at DESC; equal times stay in the order of the table, where SQLite is free.
module _ {A : Type 0} (time : A → ℕ) where
  unfoldable pub insert_latest : A → List A → List A
  insert_latest r [] = r ∷ []
  insert_latest r (s ∷ rows) =
      let rest = insert_latest r rows in if ltb (time r) (time s) then s ∷ rest else r ∷ s ∷ rows

  unfoldable pub sort_latest : List A → List A
  unfolding insert_latest
  sort_latest [] = []
  sort_latest (r ∷ rows) = insert_latest r (sort_latest rows)

unfoldable pub has_template : String → List TemplateRow → Bool
has_template id [] = false
has_template id (r ∷ rows) = str_eq r.template_id id || has_template id rows

unfoldable pub find_template : String → List TemplateRow → Option TemplateRow
find_template id [] = none
find_template id (r ∷ rows) =
    let rest = find_template id rows in if str_eq r.template_id id then some r else rest

-- UPDATE workflow_templates SET description = ?, config = ? WHERE template_id = ?
unfoldable pub edit_templates : String → String → String → List TemplateRow → List TemplateRow
edit_templates id description config [] = []
edit_templates id description config (r ∷ rows) =
    (if str_eq r.template_id id then record r { description = description; config = config } else r)
    ∷ edit_templates id description config rows

unfoldable pub drop_templates : String → List TemplateRow → List TemplateRow
drop_templates id [] = []
drop_templates id (r ∷ rows) =
    let rest = drop_templates id rows in if str_eq r.template_id id then rest else r ∷ rest

unfoldable pub needs : {A : Type 0} → Error → Option A → Kept A
needs e none = raise e
needs e (some a) = pure a

-- A statement on the row of a template, an error when no row has the id.
unfoldable pub change_template : String → (List TemplateRow → List TemplateRow) → Kept (Unit {0})
unfolding has_template
change_template id statement = do
  found ← gets (has_template id)
  (if found then modify statement else raise not_found)

unfoldable pub delete_template : String → Kept (Unit {0})
unfolding change_template drop_templates
delete_template id = change_template id (drop_templates id)

module _ {Config : Type 0} (config_text : Config → Option String) where
  unfoldable pub create_template : ℕ → Template Config → Kept (Unit {0})
  unfolding needs has_template
  create_template now t = do
    config ← needs marshal_failed (config_text t.config)
    taken ← gets (has_template t.id)
    (if taken
        then raise duplicate
        else modify (λ rows.
          rows
          ++ (record {
            template_id = t.id;
            description = t.description;
            config = config;
            created_at = now;
            created_by = t.created_by;
          }
              ∷ [])))

  unfoldable pub update_template : String → Template Config → Kept (Unit {0})
  unfolding needs change_template edit_templates
  update_template id t = do
    config ← needs marshal_failed (config_text t.config)
    change_template id (edit_templates id t.description config)

module _ {Config : Type 0} (config_of : String → Option Config) where
  unfoldable pub decode_template : TemplateRow → Kept (Template Config)
  unfolding needs
  decode_template r = do
    config ← needs unmarshal_failed (config_of r.config)
    pure (record {
      id = r.template_id;
      description = r.description;
      config = config;
      created_at = r.created_at;
      created_by = r.created_by;
    })

  unfoldable pub get_template : String → Kept (Template Config)
  unfolding find_template decode_template needs
  get_template id = do
    found ← gets (find_template id)
    row ← needs not_found found
    decode_template row

  unfoldable pub decode_templates : List TemplateRow → Kept (List (Template Config))
  unfolding decode_template
  decode_templates [] = pure []
  decode_templates (r ∷ rows) = do t ← decode_template r; ts ← decode_templates rows; pure (t ∷ ts)

  unfoldable pub list_templates : ℕ → ℕ → Kept (List (Template Config))
  unfolding sort_latest decode_templates take drop
  list_templates limit offset = do
    rows ← gets (λ rows. take limit (drop offset (sort_latest (λ r. r.created_at) rows)))
    decode_templates rows

-- WHERE template_id = ?
unfoldable pub rows_of_template : String → List Row → List Row
rows_of_template id [] = []
rows_of_template id (r ∷ rows) =
    let rest = rows_of_template id rows in if str_eq r.template_id id then r ∷ rest else rest

unfoldable pub list_template_workflows :
    {Wallets Config Links : Type 0}
    → Codec Wallets Config Links
    → String
    → ℕ
    → ℕ
    → Stored (List (Workflow Wallets Config Links))
unfolding rows_of_template sort_latest decode_rows take drop
list_template_workflows codec id limit offset = do
  rows ← gets (λ db.
      take limit (drop offset (sort_latest (λ r. r.created_at) (rows_of_template id db.rows))))
  decode_rows codec rows
