-- ===== src/Store/Unique.antt =====
-- server/db/sqlite.go: no two rows have the same workflow id, and their numbers are the database's.
use ironbird.Base.{
  ℕ, suc, ◌<◌, ◌≡◌, ◌≢◌, refl, sym, inl, inr, String, false, not, List, [], ◌∷◌, ◌++◌, arith, All,
  All-impl, All-append, NotIn, Distinct, str_eq, eq_iff, Bool-cases,
}
use mathlib.Core.Path.{subst}
use ironbird.Base.Action.{pure, raise, gets, modify, ◌>>=◌}
use ironbird.Store.{
  Workflow, WorkflowUpdate, Row, Db, Codec, Changes, has_row, insert_row, change_row, change_rows,
  delete_rows, delete_workflow, sets_nothing, no_fields, not_found,
}
use ironbird.Store.Access.{create_workflow, update_workflow, apply_changes, insert_checked}
use ironbird.Store.Keeps.{
  Keeps, Keeps-modify, Keeps-pure, Keeps-raise, Keeps-gets, Keeps-marshal, Keeps-if, Keeps-bind,
  Keeps-marshal_set,
}

abbrev pub workflow_ids : List Row → List String
workflow_ids [] = []
workflow_ids (r ∷ rows) = r.workflow_id ∷ workflow_ids rows

-- Workflow ids are different, and every number is below the next one.
pub record IsUnique (db : Db) : Type 0 where
  pub distinct : Distinct (workflow_ids db.rows)
  pub numbered : All (λ r. r.id < db.next_id) db.rows

NotIn-append :
    (x y : String) (rows : List Row) (r : Row)
    → NotIn x (workflow_ids rows)
    → x ≢ r.workflow_id
    → NotIn x (workflow_ids (rows ++ (r ∷ [])))
NotIn-append x y [] r n h = (h, tt)
NotIn-append x y (s ∷ rows) r n h = (n.0, NotIn-append x y rows r n.1 h)

Distinct-append :
    (rows : List Row) (r : Row)
    → Distinct (workflow_ids rows)
    → has_row r.workflow_id rows ≡ false
    → Distinct (workflow_ids (rows ++ (r ∷ [])))
unfolding has_row
Distinct-append [] r d h = (tt, tt)
Distinct-append (s ∷ rows) r d h = (
  NotIn-append s.workflow_id r.workflow_id rows r d.0
      (ground (arith, eq_iff s.workflow_id r.workflow_id)),
  Distinct-append rows r d.1 (ground arith),
)

insert_row-IsUnique :
    (r : Row) (db : Db)
    → r.id ≡ db.next_id
    → has_row r.workflow_id db.rows ≡ false
    → IsUnique db
    → IsUnique (insert_row r db)
unfolding insert_row
insert_row-IsUnique r db e h u = record {
  distinct = Distinct-append db.rows r u.distinct h;
  numbered =
      All-append (λ s. s.id < suc db.next_id) db.rows (r ∷ [])
        (All-impl db.rows (λ s k. omega arith) u.numbered) (omega arith, tt);
}

module _ (now : ℕ) (id : String) (c : Changes) where
  ids-change_rows : (rows : List Row) → workflow_ids (change_rows now id c rows) ≡ workflow_ids rows
  unfolding change_rows change_row
  ids-change_rows [] = refl
  ids-change_rows (r ∷ rows) = elim (Bool-cases (str_eq r.workflow_id id)) [
    | inl same ↦ rw (same, ids-change_rows rows) refl
    | inr other ↦ rw (other, ids-change_rows rows) refl
  ]

  numbered-change_rows :
      (n : ℕ) (rows : List Row)
      → All (λ r. r.id < n) rows
      → All (λ r. r.id < n) (change_rows now id c rows)
  unfolding change_rows change_row
  numbered-change_rows n [] a = tt
  numbered-change_rows n (r ∷ rows) a = elim (Bool-cases (str_eq r.workflow_id id)) [
    | inl same ↦ rw same (a.0, numbered-change_rows n rows a.1)
    | inr other ↦ rw other (a.0, numbered-change_rows n rows a.1)
  ]

  apply_changes-Keeps : Keeps IsUnique (apply_changes now id c)
  unfolding apply_changes
  apply_changes-Keeps = Keeps-bind IsUnique _ _ (Keeps-gets IsUnique _) (λ found.
      Keeps-if IsUnique (sets_nothing c) (raise no_fields) _ (Keeps-raise IsUnique _) (
        Keeps-if IsUnique (not found) (raise not_found) _ (Keeps-raise IsUnique _) (
          Keeps-modify IsUnique _ (λ db u. record {
            distinct = subst Distinct (sym (ids-change_rows db.rows)) u.distinct;
            numbered = numbered-change_rows db.next_id db.rows u.numbered;
          }))))

All-delete :
    (P : String → Type 0) (id : String) (rows : List Row)
    → All P (workflow_ids rows)
    → All P (workflow_ids (delete_rows id rows))
unfolding delete_rows
All-delete P id [] a = tt
All-delete P id (r ∷ rows) a = elim (Bool-cases (str_eq r.workflow_id id)) [
  | inl same ↦ rw same (All-delete P id rows a.1)
  | inr other ↦ rw other (a.0, All-delete P id rows a.1)
]

delete_rows-IsUnique :
    (n : ℕ) (id : String) (rows : List Row)
    → Distinct (workflow_ids rows)
    → All (λ r. r.id < n) rows
    → Distinct (workflow_ids (delete_rows id rows)) × All (λ r. r.id < n) (delete_rows id rows)
unfolding delete_rows
delete_rows-IsUnique n id [] d a = (tt, tt)
delete_rows-IsUnique n id (r ∷ rows) d a =
    let rest = delete_rows-IsUnique n id rows d.1 a.1 in
    elim (Bool-cases (str_eq r.workflow_id id)) [
      | inl same ↦ rw same rest
      | inr other ↦ rw other ((All-delete _ id rows d.0, rest.0), (a.0, rest.1))
    ]

delete_workflow-Keeps : (id : String) → Keeps IsUnique (delete_workflow id)
unfolding delete_workflow
delete_workflow-Keeps id = Keeps-bind IsUnique _ _ (Keeps-gets IsUnique _) (λ found.
    Keeps-if IsUnique (not found) (raise not_found) _ (Keeps-raise IsUnique _) (
      Keeps-modify IsUnique _ (λ db u.
        let rest = delete_rows-IsUnique db.next_id id db.rows u.distinct u.numbered in
        record { distinct = rest.0; numbered = rest.1 })))

insert_checked-Keeps :
    (id : String) (row : ℕ → Row)
    → ((n : ℕ) → (row n).id ≡ n)
    → ((n : ℕ) → (row n).workflow_id ≡ id)
    → Keeps IsUnique (insert_checked id row)
unfolding insert_checked gets modify pure raise ◌>>=◌
insert_checked-Keeps id row hn hid = record {
  at = λ db u. elim (Bool-cases (has_row id db.rows)) [
    | inl taken ↦ rw taken u
    | inr free ↦ rw free (
        insert_row-IsUnique (row db.next_id) db (hn db.next_id)
          (subst (λ x. has_row x db.rows ≡ false) (sym (hid db.next_id)) free) u)
  ];
}

module _ {Wallets Config Links : Type 0} (codec : Codec Wallets Config Links) where
  update_workflow-Keeps :
      (now : ℕ) (id : String) (u : WorkflowUpdate Wallets Links)
      → Keeps IsUnique (update_workflow codec now id u)
  unfolding update_workflow
  update_workflow-Keeps now id u = Keeps-bind IsUnique _ _ (Keeps-marshal_set IsUnique _ _) (λ n.
      Keeps-bind IsUnique _ _ (Keeps-marshal_set IsUnique _ _) (λ v.
        Keeps-bind IsUnique _ _ (Keeps-marshal_set IsUnique _ _) (λ l.
          Keeps-bind IsUnique _ _ (Keeps-marshal_set IsUnique _ _) (λ w.
            Keeps-bind IsUnique _ _ (Keeps-marshal_set IsUnique _ _)
              (λ m. apply_changes-Keeps now id _)))))

  create_workflow-Keeps :
      (now : ℕ) (w : Workflow Wallets Config Links) → Keeps IsUnique (create_workflow codec now w)
  unfolding create_workflow
  create_workflow-Keeps now w = Keeps-bind IsUnique _ _ (Keeps-marshal IsUnique _) (λ nodes.
      Keeps-bind IsUnique _ _ (Keeps-marshal IsUnique _) (λ validators.
        Keeps-bind IsUnique _ _ (Keeps-marshal IsUnique _) (λ load_balancers.
          Keeps-bind IsUnique _ _ (Keeps-marshal IsUnique _) (λ wallets.
            Keeps-bind IsUnique _ _ (Keeps-marshal IsUnique _) (λ config.
              Keeps-bind IsUnique _ _ (Keeps-marshal IsUnique _) (λ links.
                Keeps-bind IsUnique _ _
                  (insert_checked-Keeps w.workflow_id _ (λ n. refl) (λ n. refl))
                  (λ id. Keeps-pure IsUnique _)))))))

  -- What changes the table.
  pub data Operation : Type 0 where
    creates : ℕ → Workflow Wallets Config Links → Operation
    updates : ℕ → String → WorkflowUpdate Wallets Links → Operation
    deletes : String → Operation

  unfoldable pub perform : Operation → Db → Db
  perform (creates now w) db = (create_workflow codec now w db).1
  perform (updates now id u) db = (update_workflow codec now id u db).1
  perform (deletes id) db = (delete_workflow id db).1

  unfoldable pub run : List Operation → Db → Db
  unfolding perform
  run [] db = db
  run (o ∷ os) db = run os (perform o db)

  perform-IsUnique : (o : Operation) (db : Db) → IsUnique db → IsUnique (perform o db)
  unfolding perform
  perform-IsUnique (creates now w) db u = (create_workflow-Keeps now w).at db u
  perform-IsUnique (updates now id x) db u = (update_workflow-Keeps now id x).at db u
  perform-IsUnique (deletes id) db u = (delete_workflow-Keeps id).at db u

  -- After any creations, updates and deletions, failing or not, no two rows of the table have the same
  -- workflow id, and all numbers of rows are below the next one.
  pub run_store-IsUnique : (os : List Operation) (db : Db) → IsUnique db → IsUnique (run os db)
  unfolding run
  run_store-IsUnique [] db u = u
  run_store-IsUnique (o ∷ os) db u = run_store-IsUnique os (perform o db) (perform-IsUnique o db u)
