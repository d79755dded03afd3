-- ===== src/Store/Refines.antt =====
-- server/db/sqlite.go: every operation on the table is one of the map that Store/View describes.
use ironbird.Base.{
  ℕ, ◌≡◌, refl, sym, ◌∙◌, ap, inl, inr, ◌⊎◌, String, Bool, true, false, Option, none, some, List,
  [], ◌∷◌, Bool-cases,
}
use mathlib.Core.Option.{map as map_option}
use ironbird.Base.Action.{Result, ok, err, pure, raise, gets, modify, ◌>>=◌}
use ironbird.Base.Triple.{Post, Ensures, Ensures-bind, Ensures-impl, Ensures-err}
use ironbird.Store.{
  Workflow, WorkflowUpdate, Row, Db, Codec, Changes, Stored, Error, marshal, has_row, insert_row,
  change_row, delete_workflow, sets_nothing,
}
use ironbird.Store.Access.{
  find_row, marshal_set, insert_checked, apply_changes, create_workflow, update_workflow,
}
use ironbird.Store.Rows.{
  find_row-append, find_row-append_other, has_row-find, has_row-none, find-change_rows,
  find-change_rows_other, find-delete_rows, find-delete_rows_other,
}
use ironbird.Store.Unique.{Operation, creates, updates, deletes, perform, run}
use ironbird.Store.View.{
  View, look, Same, SetAt, Encoded, succeeds, Sets, Created, Updated, Deleted, Unencodable,
  CannotCreate, taken, bad_nodes, bad_validators, bad_load_balancers, bad_wallets, bad_config,
  bad_links, CannotUpdate, missing, nothing_set, nodes_unset, validators_unset,
  load_balancers_unset, wallets_unset, links_unset, answers, Move, accepted, Moves, done, move,
}

-- An action that fails leaves the map `v` alone and has the reason `R`, and one that succeeds makes it a map of `Q`.
abbrev Refines : View → Type 0 → {A : Type 0} → Stored A → (View → Type 0) → Type 0
Refines v R m Q =
    Ensures (λ db. Same v (look db) × R) (λ db. Same v (look db)) m (λ a db. Q (look db))

SetAt-Same :
    {v w w' : View} {id : String} {o : Option Row} → Same v w → SetAt w id o w' → SetAt v id o w'
SetAt-Same s t = record { here = t.here; elsewhere = λ x n. t.elsewhere x n ∙ s x }

module _ {A B : Type 0} (v : View) (R : Type 0) (Q : View → Type 0) where
  marshal-Refines :
      (o : Option A) (f : A → Stored B)
      → (o ≡ none → R)
      → ((a : A) → o ≡ some a → Refines v R (f a) Q)
      → Refines v R (marshal o >>= f) Q
  unfolding marshal ◌>>=◌
  marshal-Refines none f k h = record { at = λ db s. (s, k refl) }
  marshal-Refines (some a) f k h = record { at = (h a refl).at }

  encoded-Refines :
      (s : Option A) (f : Option A → Stored B)
      → (s ≡ none → R)
      → ((t : A) → s ≡ some t → Refines v R (f (some t)) Q)
      → Refines v R ((do t ← marshal s; pure (some t)) >>= f) Q
  unfolding marshal pure ◌>>=◌
  encoded-Refines none f k h = record { at = λ db s. (s, k refl) }
  encoded-Refines (some t) f k h = record { at = (h t refl).at }

module _ {A B : Type 0} (v : View) (R : Type 0) (Q : View → Type 0) where
  marshal_set-Refines :
      (text : A → Option String) (o : Option A) (f : Option String → Stored B)
      → (Unencodable text o → R)
      → ((t : Option String) → Encoded text o t → Refines v R (f t) Q)
      → Refines v R (marshal_set text o >>= f) Q
  unfolding marshal_set marshal pure ◌>>=◌
  marshal_set-Refines text none f k h = record { at = (h none refl).at }
  marshal_set-Refines text (some a) f k h = record {
    at =
        (encoded-Refines v R Q (text a) f (λ e. k (record { value = a; given = refl; no_text = e }))
          (λ t e. h (some t) (t, e, refl))).at;
  }

stored :
    (v : View) (id : String) (r : Row) (db : Db)
    → r.workflow_id ≡ id
    → Same v (look db)
    → has_row id db.rows ≡ false
    → (v id ≡ none) × SetAt v id (some r) (look (insert_row r db))
unfolding insert_row
stored v id r db e s free = (
  sym (s id) ∙ has_row-none id db.rows free,
  record {
    here =
        ap (λ x. find_row x (insert_row r db).rows) (sym e)
        ∙ find_row-append r db.rows (ap (λ x. has_row x db.rows) e ∙ free);
    elsewhere = λ x n. find_row-append_other x r db.rows (λ d. n (d ∙ e)) ∙ s x;
  },
)

insert_checked-Refines :
    (v : View) (id : String) (row : ℕ → Row)
    → ((n : ℕ) → (row n).workflow_id ≡ id)
    → Refines v
        ((r : Row) × (v id ≡ some r))
        (insert_checked id row)
        (λ v'. (n : ℕ) × (v id ≡ none) × SetAt v id (some (row n)) v')
unfolding insert_checked insert_row gets modify pure raise ◌>>=◌
insert_checked-Refines v id row h = record {
  at = λ db s. elim (Bool-cases (has_row id db.rows)) [
    | inl present ↦
        rw present (let r = has_row-find id db.rows present in (s, (r.0, sym (s id) ∙ r.1)))
    | inr free ↦ rw free (
        let fresh = stored v id (row db.next_id) db (h db.next_id) s free in
        (db.next_id, fresh.0, fresh.1))
  ];
}

module _ (v : View) (now : ℕ) (id : String) (c : Changes) where
  apply_changes-Refines :
      Refines v
        ((sets_nothing c ≡ true) ⊎ (v id ≡ none))
        (apply_changes now id c)
        (λ v'. (r : Row) × (v id ≡ some r) × SetAt v id (some (change_row now c r)) v')
  unfolding apply_changes gets modify raise ◌>>=◌
  apply_changes-Refines = record {
    at = λ db s. elim (Bool-cases (sets_nothing c)) [
      | inl nothing ↦ rw nothing (s, inl refl)
      | inr some_set ↦ elim (Bool-cases (has_row id db.rows)) [
        | inl found ↦
            rw (some_set, found)
              (let r = has_row-find id db.rows found in
                (
                  r.0,
                  sym (s id) ∙ r.1,
                  record {
                    here =
                        find-change_rows now id c db.rows ∙ ap (map_option (change_row now c)) r.1;
                    elsewhere = λ x n. find-change_rows_other now id c x n db.rows ∙ s x;
                  },
                ))
        | inr absent ↦ rw (some_set, absent) (s, inr (sym (s id) ∙ has_row-none id db.rows absent))
      ]
    ];
  }

delete_workflow-Refines :
    (v : View) (id : String) → Refines v (v id ≡ none) (delete_workflow id) (Deleted id v)
unfolding delete_workflow gets modify raise ◌>>=◌
delete_workflow-Refines v id = record {
  at = λ db s. elim (Bool-cases (has_row id db.rows)) [
    | inl found ↦ rw found (
        let r = has_row-find id db.rows found in
        record {
          row = r.0;
          found = sym (s id) ∙ r.1;
          set = record {
            here = find-delete_rows id db.rows;
            elsewhere = λ x n. find-delete_rows_other id x n db.rows ∙ s x;
          };
        })
    | inr absent ↦ rw absent (s, sym (s id) ∙ has_row-none id db.rows absent)
  ];
}

module _ {Wallets Config Links : Type 0} (codec : Codec Wallets Config Links) where
  cannot_update :
      (id : String) (u : WorkflowUpdate Wallets Links) (c : Changes) (v : View)
      → Sets codec u c
      → ((sets_nothing c ≡ true) ⊎ (v id ≡ none))
      → CannotUpdate codec id u v
  cannot_update id u c v k (inl e) = nothing_set c k e
  cannot_update id u c v k (inr e) = missing e

  changed-Refines :
      (v : View) (now : ℕ) (id : String) (u : WorkflowUpdate Wallets Links) (c : Changes)
      → Sets codec u c
      → Refines v (CannotUpdate codec id u v) (apply_changes now id c) (Updated codec now id u v)
  changed-Refines v now id u c k =
      Ensures-err _ _ _ _ _ (λ db p. (p.0, cannot_update id u c v k p.1))
        (Ensures-impl _ _ _ (λ a db. Updated codec now id u v (look db)) _
          (λ a db q. record { row = q.0; changes = c; found = q.1; sets = k; set = q.2 })
          (apply_changes-Refines v now id c))

  update_workflow-Refines :
      (v : View) (now : ℕ) (id : String) (u : WorkflowUpdate Wallets Links)
      → Refines v
          (CannotUpdate codec id u v)
          (update_workflow codec now id u)
          (Updated codec now id u v)
  unfolding update_workflow
  update_workflow-Refines v now id u =
      let R = CannotUpdate codec id u v in
      marshal_set-Refines v R (Updated codec now id u v) _ u.nodes _ nodes_unset (λ n hn.
        marshal_set-Refines v R (Updated codec now id u v) _ u.validators _ validators_unset
          (λ l hl.
            marshal_set-Refines v R (Updated codec now id u v) _ u.load_balancers _
              load_balancers_unset
              (λ b hb.
                marshal_set-Refines v R (Updated codec now id u v) _ u.wallets _ wallets_unset
                  (λ w hw.
                    marshal_set-Refines v R (Updated codec now id u v) _ u.monitoring_links _
                      links_unset
                      (λ m hm. changed-Refines v now id u _ (record {
                        nodes = hn;
                        validators = hl;
                        load_balancers = hb;
                        wallets = hw;
                        monitoring_links = hm;
                        status = refl;
                        provider = refl;
                        template_id = refl;
                        run_name = refl;
                      }))))))

  create_workflow-Refines :
      (v : View) (now : ℕ) (w : Workflow Wallets Config Links)
      → Refines v (CannotCreate codec w v) (create_workflow codec now w) (Created codec now w v)
  unfolding create_workflow pure
  create_workflow-Refines v now w =
      let R = CannotCreate codec w v in
      marshal-Refines v R (Created codec now w v) _ _ bad_nodes (λ n hn.
        marshal-Refines v R (Created codec now w v) _ _ bad_validators (λ l hl.
          marshal-Refines v R (Created codec now w v) _ _ bad_load_balancers (λ b hb.
            marshal-Refines v R (Created codec now w v) _ _ bad_wallets (λ t ht.
              marshal-Refines v R (Created codec now w v) _ _ bad_config (λ c hc.
                marshal-Refines v R (Created codec now w v) _ _ bad_links (λ m hm.
                  Ensures-bind _ _
                    (Ensures-err _ _ _ _ _ (λ db p. (p.0, taken p.1.0 p.1.1))
                      (insert_checked-Refines v w.workflow_id _ (λ n. refl)))
                    (λ a. record {
                      at = λ db q.
                          let d : Created codec now w v (look db) = record {
                            row = _;
                            free = q.1;
                            set = q.2;
                            holds = record {
                              workflow_id = refl;
                              nodes = hn;
                              validators = hl;
                              load_balancers = hb;
                              wallets = ht;
                              config = hc;
                              monitoring_links = hm;
                              load_test_spec = refl;
                              status = refl;
                              provider = refl;
                              template_id = refl;
                              run_name = refl;
                              created_at = refl;
                              updated_at = refl;
                            };
                          } in
                          d;
                    })))))))

  judged :
      {A : Type 0} (M : Bool → View → Type 0) (r : Result Error A) (db : Db)
      → Post (λ d. M false (look d)) (λ a d. M true (look d)) r db
      → M (succeeds r) (look db)
  judged M (ok a) db p = p
  judged M (err e) db p = p

  perform-Move :
      (o : Operation codec) (v : View) (db : Db)
      → Same v (look db)
      → Move codec o (accepted codec o db) v (look (perform codec o db))
  unfolding perform
  perform-Move (creates now w) v db s =
      judged (λ b. Move codec (creates now w) b v) _ _ ((create_workflow-Refines v now w).at db s)
  perform-Move (updates now id u) v db s =
      judged (λ b. Move codec (updates now id u) b v) _ _
        ((update_workflow-Refines v now id u).at db s)
  perform-Move (deletes id) v db s =
      judged (λ b. Move codec (deletes id) b v) _ _ ((delete_workflow-Refines v id).at db s)

  -- Any creations, updates and deletions of workflows are, with their answers, moves of a partial map
  -- from workflow ids to rows. A move that succeeds changes the map at one id: a creation at a free id,
  -- to the encoded columns of the workflow; an update at a taken id, in the columns that it sets; a
  -- deletion at a taken id, to nothing. A move that fails leaves the map as it is, and does so only
  -- because the id is taken (creation) or missing (the others), because a field has no encoding, or
  -- because an update sets nothing.
  pub run-Moves :
      (os : List (Operation codec)) (db : Db)
      → Moves codec os (answers codec os db) (look db) (look (run codec os db))
  unfolding run
  run-Moves [] db = done (λ x. refl)
  run-Moves (o ∷ os) db =
      move o os (accepted codec o db) _ (perform-Move o (look db) db (λ x. refl))
        (run-Moves os (perform codec o db))
