-- ===== src/Service/Polling.antt =====
-- server/services/workflow/workflow.go: what a poll of the statuses may change.
use ironbird.Base.{
  ℕ, ◌≡◌, refl, sym, ◌∙◌, ◌⊎◌, inl, inr, String, true, false, Option, none, some, List, [], ◌∷◌,
  arith, All, str_eq, eq_iff, Bool-cases,
}
use mathlib.Core.Path.{subst}
use ironbird.Base.Action.{Result, ok, err, pure, raise, gets, modify, ◌>>=◌}
use ironbird.Store.{
  Workflow, Row, Db, Codec, Status, Error, Changes, has_row, change_row, change_rows, sets_nothing,
}
use ironbird.Store.Access.{list_workflows, update_workflow, apply_changes, marshal_set}
use ironbird.Store.Unique.{IsUnique}
use ironbird.Service.{
  is_workflow_terminal, same_status, Links, poll_described, poll_workflow, poll_workflows,
  poll_listed, update_workflow_statuses,
}
use ironbird.Service.Listing.{Told, Good, Source, list_workflows-Source}

module _ (describe : Db → String → Option Status) where
  -- What a poll may do to a row.
  pub record Polled (before after : Row) : Type 0 where
    pub kept : after ≡ record before { status = after.status; updated_at = after.updated_at }
    pub final : is_workflow_terminal before.status ≡ true → after ≡ before
    pub answered :
        (after.status ≡ before.status)
        ⊎ ((db : Db) × (describe db before.workflow_id ≡ some after.status))

  abbrev pub AllPolled : List Row → List Row → Type 0
  AllPolled [] [] = Unit
  AllPolled (r ∷ rows) (s ∷ others) = Polled r s × AllPolled rows others
  AllPolled _ _ = ⊥

  AllPolled-refl : (rows : List Row) → AllPolled rows rows
  AllPolled-refl [] = tt
  AllPolled-refl (r ∷ rows) =
      (record { kept = refl; final = λ t. refl; answered = inl refl }, AllPolled-refl rows)

  -- The columns of an update of the status alone.
  abbrev status_changes : Status → Changes
  status_changes s = record {
    nodes = none;
    validators = none;
    load_balancers = none;
    wallets = none;
    monitoring_links = none;
    status = some s;
    provider = none;
    template_id = none;
    run_name = none;
  }

  module _ (now : ℕ) (id : String) (old new : Status) (db : Db)
      (live : is_workflow_terminal old ≡ false) (said : describe db id ≡ some new) where
    changed-Polled :
        (before after : Row)
        → (before.workflow_id ≡ id → before.status ≡ old)
        → after.workflow_id ≡ id
        → Polled before after
        → Polled before (change_row now (status_changes new) after)
    unfolding change_row
    changed-Polled before after told hit p =
        let same = sym (λ i. (p.kept i).workflow_id) ∙ hit in
        record {
          kept = λ i. record (p.kept i) { status = new; updated_at = now };
          final = λ t. absurd (clash_lem (told same) t);
          answered = inr (db, subst (λ x. describe db x ≡ some new) (sym same) said);
        }
      where
        clash_lem : before.status ≡ old → is_workflow_terminal before.status ≡ true → ⊥
        clash_lem e t = ground arith

    change_rows-Polled :
        (rows others : List Row)
        → Told rows id old
        → AllPolled rows others
        → AllPolled rows (change_rows now id (status_changes new) others)
    unfolding change_rows
    change_rows-Polled [] [] t p = tt
    change_rows-Polled [] (s ∷ others) t p = elim p [ ]
    change_rows-Polled (r ∷ rows) [] t p = elim p [ ]
    change_rows-Polled (r ∷ rows) (s ∷ others) t p = elim (Bool-cases (str_eq s.workflow_id id)) [
      | inl hit ↦ rw hit (
        changed-Polled r s t.0 (ground (arith, eq_iff s.workflow_id id)) p.0,
        change_rows-Polled rows others t.1 p.1,
      )
      | inr miss ↦ rw miss (p.0, change_rows-Polled rows others t.1 p.1)
    ]

  module _ {Wallets Config : Type 0} (codec : Codec Wallets Config Links) (now : ℕ) where
    poll_described-Polled :
        (w : Workflow Wallets Config Links) (rows : List Row) (db : Db) (o : Option Status)
        → Source codec rows w
        → is_workflow_terminal w.status ≡ false
        → describe db w.workflow_id ≡ o
        → AllPolled rows db.rows
        → AllPolled rows (poll_described codec now describe w o db).rows
    unfolding poll_described update_workflow apply_changes marshal_set sets_nothing pure raise gets
        modify ◌>>=◌
    poll_described-Polled w rows db none t live said p = p
    poll_described-Polled w rows db (some s) t live said p =
        elim (Bool-cases (same_status s w.status)) [
          | inl same ↦ rw same p
          | inr changed ↦ elim (Bool-cases (has_row w.workflow_id db.rows)) [
            | inl found ↦
                rw (changed, found)
                  (change_rows-Polled now w.workflow_id w.status s db live said rows db.rows t p)
            | inr missing ↦ rw (changed, missing) p
          ]
        ]

    poll_workflow-Polled :
        (w : Workflow Wallets Config Links) (rows : List Row) (db : Db)
        → Source codec rows w
        → AllPolled rows db.rows
        → AllPolled rows (poll_workflow codec now describe w db).rows
    unfolding poll_workflow
    poll_workflow-Polled w rows db t p = elim (Bool-cases (is_workflow_terminal w.status)) [
      | inl over ↦ rw over p
      | inr going ↦
          rw going (poll_described-Polled w rows db (describe db w.workflow_id) t going refl p)
    ]

    poll_workflows-Polled :
        (ws : List (Workflow Wallets Config Links)) (rows : List Row) (db : Db)
        → All (Source codec rows) ws
        → AllPolled rows db.rows
        → AllPolled rows (poll_workflows codec now describe ws db).rows
    unfolding poll_workflows
    poll_workflows-Polled [] rows db t p = p
    poll_workflows-Polled (w ∷ ws) rows db t p =
        poll_workflows-Polled ws rows (poll_workflow codec now describe w db) t.1
          (poll_workflow-Polled w rows db t.0 p)

    poll_listed-Polled :
        (r : Result Error (List (Workflow Wallets Config Links))) (db : Db)
        → Good (All (Source codec db.rows)) r
        → AllPolled db.rows (poll_listed codec now describe r db).rows
    poll_listed-Polled (err e) db g = AllPolled-refl db.rows
    poll_listed-Polled (ok ws) db g = poll_workflows-Polled ws db.rows db g (AllPolled-refl db.rows)

    -- In a table without double workflow ids, a poll of the statuses keeps the rows and their order, and
    -- of each row everything but the status and the time of its update; it leaves a row whose status is
    -- final as it is; and a status that it changes is the one that Temporal told of that workflow.
    pub update_workflow_statuses-Polled :
        (db : Db)
        → IsUnique db
        → AllPolled db.rows (update_workflow_statuses codec now describe db).rows
    unfolding update_workflow_statuses
    update_workflow_statuses-Polled db u =
        poll_listed-Polled (list_workflows codec 1000 0 db).0 db
          (list_workflows-Source codec 1000 0 db u)
