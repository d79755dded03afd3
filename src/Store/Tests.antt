-- ===== src/Store/Tests.antt =====
-- A table with simple encoders: runs, and the theorems at concrete inputs.
use ironbird.Base.{
  ◌≡◌, refl, String, true, false, Option, none, some, List, [], ◌∷◌, arith, str_eq, eq_iff,
  if◌then◌else◌, map, All, length,
}
use ironbird.Base.Action.{ok, err, pure, raise, gets, modify, ◌>>=◌}
use ironbird.Workflow.Types.{Node}
use ironbird.Store.{
  Workflow, WorkflowUpdate, Row, Db, not_found, unmarshal, Codec, running, completed, has_row,
  delete_workflow, marshal,
}
use ironbird.Store.Access.{
  create_workflow, get_workflow, update_workflow, marshal_set, insert_checked, apply_changes,
  decode_row, wallets_of_json,
}
use ironbird.Store.Unique.{
  IsUnique, Operation, creates, updates, deletes, run, perform, run_store-IsUnique,
}
use ironbird.Store.Templates.{
  Template, has_template, create_template, update_template, get_template, delete_template,
  change_template, needs, decode_template, decode_templates, list_templates, rows_of_template,
  list_template_workflows,
}
use ironbird.Store.Listed.{Decodes, list_template_workflows-OfTemplate}
use ironbird.Store.Edited.{update_template-get}
use ironbird.Store.View.{Moves, look}
use ironbird.Store.Refines.{run-Moves}
use ironbird.Store.RoundTrip.{IsInverse, numbered, create-get}

nodes_text : List Node → Option String
nodes_text [] = some "null"
nodes_text (n ∷ ns) = none

nodes_of : String → Option (List Node)
nodes_of t = if str_eq t "null" then some [] else none

abbrev codec : Codec String String String
codec = record {
  nodes_text = nodes_text;
  nodes_of = nodes_of;
  wallets_text = λ w. some w;
  wallets_proto_text = λ w. some w;
  wallets_of = λ w. some w;
  config_text = λ c. some c;
  config_of = λ c. some c;
  links_text = λ l. some l;
  links_of = λ l. some l;
}

nodes_lem : (ns : List Node) (t : String) → nodes_text ns ≡ some t → nodes_of t ≡ some ns
unfolding nodes_text nodes_of
nodes_lem [] t e = ground (arith, eq_iff t "null", eq_iff "null" "null")
nodes_lem (n ∷ ns) t e = ground arith

codec-IsInverse : IsInverse codec
codec-IsInverse = record {
  nodes = nodes_lem;
  wallets = λ w t e. cc;
  config = λ c t e. cc;
  links = λ l t e. cc;
}

abbrev sample : String → Workflow String String String
sample id = record {
  id = 0;
  workflow_id = id;
  nodes = [];
  validators = [];
  load_balancers = [];
  wallets = some "w";
  monitoring_links = "m";
  status = running;
  config = "c";
  load_test_spec = none;
  provider = "";
  template_id = "t";
  run_name = "r";
  created_at = 0;
  updated_at = 0;
}

abbrev empty : Db
empty = record { rows = []; next_id = 1 }

abbrev complete : WorkflowUpdate String String
complete = record {
  nodes = none;
  validators = none;
  load_balancers = none;
  wallets = none;
  monitoring_links = none;
  status = some completed;
  provider = none;
  template_id = none;
  run_name = none;
}

abbrev operations : List (Operation codec)
operations =
    creates 5 (sample "a")
    ∷ creates 6 (sample "a")
    ∷ creates 7 (sample "b")
    ∷ updates 8 "a" complete
    ∷ deletes "b"
    ∷ []

run_store-IsUnique_example : IsUnique (run codec operations empty)
run_store-IsUnique_example =
    run_store-IsUnique codec operations empty (record { distinct = tt; numbered = tt })

run-Moves_example :
    Moves codec operations
      (true ∷ false ∷ true ∷ true ∷ true ∷ [])
      (look empty)
      (look (run codec operations empty))
unfolding create_workflow update_workflow delete_workflow perform marshal marshal_set insert_checked
    apply_changes nodes_text pure gets modify ◌>>=◌
run-Moves_example = run-Moves codec operations empty

remaining : map (λ r. r.workflow_id) (run codec operations empty).rows ≡ ("a" ∷ [])
unfolding run create_workflow update_workflow delete_workflow marshal marshal_set insert_checked
    apply_changes nodes_text pure gets modify ◌>>=◌
remaining = refl

create-get_example :
    ((create_workflow codec 5 (sample "a") empty).0 ≡ ok (numbered codec 5 empty (sample "a")))
    × ((get_workflow codec "a" (create_workflow codec 5 (sample "a") empty).1).0
        ≡ ok (numbered codec 5 empty (sample "a")))
unfolding has_row nodes_text
create-get_example =
    create-get codec codec-IsInverse 5 (sample "a") empty
      (record {
        nodes = ("null", refl);
        validators = ("null", refl);
        load_balancers = ("null", refl);
        config = ("c", refl);
        links = ("m", refl);
        wallets = ("w", refl, refl);
        load_test_spec = tt;
      })
      refl

abbrev stored : Row
stored = record {
  id = 1;
  workflow_id = "a";
  nodes = "null";
  validators = "null";
  load_balancers = "null";
  wallets = "{}";
  monitoring_links = "m";
  status = running;
  config = "c";
  load_test_spec = "{}";
  provider = "";
  template_id = "t";
  run_name = "r";
  created_at = 5;
  updated_at = 5;
}

abbrev other : Row
other = record stored { id = 2; workflow_id = "b"; template_id = "u" }

abbrev two_rows : Db
two_rows = record { rows = stored ∷ other ∷ []; next_id = 3 }

stored-Decodes : Decodes codec "t" stored
unfolding decode_row wallets_of_json unmarshal nodes_of pure ◌>>=◌
stored-Decodes = (_, λ db. refl)

list_template_workflows-OfTemplate_example :
    (ws : List (Workflow String String String)) × (list_template_workflows codec "t" 10 0 two_rows
      ≡ (ok ws, two_rows))
    × All (λ w. w.template_id ≡ "t") ws
    × (length ws ≡ 1)
unfolding rows_of_template
list_template_workflows-OfTemplate_example =
    list_template_workflows-OfTemplate codec "t" 10 0 two_rows (stored-Decodes, tt)

abbrev kept : String → Option String
kept c = some c

abbrev template : String → Template String
template text = record {
  id = "t";
  description = text;
  config = text;
  created_at = 0;
  created_by = "me";
}

update_template-get_example :
    ((create_template kept 5 (template "old") []).0 ≡ ok tt)
    × ((update_template kept "t" (template "new") (create_template kept 5 (template "old") []).1).0
        ≡ ok tt)
    × ((get_template kept "t"
          (update_template kept "t"
            (template "new")
            (create_template kept 5 (template "old") []).1).1).0
        ≡ ok (record (template "new") { created_at = 5 }))
unfolding has_template
update_template-get_example =
    update_template-get kept kept 5 (template "old") (template "new") [] "old" "new" refl refl refl
      refl

-- Templates are listed from the latest, and one that is deleted is not found.
listed_templates :
    (list_templates kept 10 0
      (create_template kept 6
        (record (template "b") { id = "u" })
        (create_template kept 5 (template "a") []).1).1).0
    ≡ ok (
        record (template "b") { id = "u"; created_at = 6 }
        ∷ record (template "a") { created_at = 5 }
        ∷ [])
unfolding create_template list_templates decode_templates decode_template needs pure gets modify
    ◌>>=◌
listed_templates = refl

deleted_template :
    (get_template kept "t" (delete_template "t" (create_template kept 5 (template "a") []).1).1).0
    ≡ err not_found
unfolding create_template get_template delete_template change_template needs pure raise gets modify
    ◌>>=◌
deleted_template = refl
