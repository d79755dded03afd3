-- ===== src/Store/Listed.antt =====
-- server/db/sqlite.go: the listing of a template's workflows.
use ironbird.Base.{
  ℕ, zero, suc, ◌-◌, min, ◌≡◌, refl, ap, ◌∙◌, inl, inr, String, List, [], ◌∷◌, length, arith, All,
  ltb, str_eq, eq_iff, Bool-cases,
}
use ironbird.Base.Action.{Result, ok, err, pure, gets, ◌>>=◌}
use ironbird.Base.Triple.{Post, Ensures, Ensures-bind}
use mathlib.Core.Path.{subst}
use ironbird.Store.{Workflow, Row, Db, Codec, Stored, Error}
use ironbird.Store.Access.{take, drop, decode_row, decode_rows}
use ironbird.Store.Templates.{insert_latest, sort_latest, rows_of_template, list_template_workflows}

-- What holds of the value, if there is one.
abbrev Yields : {A : Type 0} → Stored A → (A → Type 0) → Type 0
Yields m Q = Ensures (λ db. Unit {0}) (λ db. Unit {0}) m (λ a db. Q a)

anything : {A : Type 0} (m : Stored A) → Yields m (λ a. Unit {0})
anything m = record { at = λ db u. go (m db).0 (m db).1 }
  where
    go : {A : Type 0} (r : Result Error A) (db : Db) → Post (λ w. Unit {0}) (λ a w. Unit {0}) r db
    go (ok a) db = tt
    go (err e) db = tt

module _ (P : Row → Type 0) where
  All-take : (n : ℕ) (rows : List Row) → All P rows → All P (take n rows)
  unfolding take
  All-take zero rows a = tt
  All-take (suc n) [] a = tt
  All-take (suc n) (r ∷ rows) a = (a.0, All-take n rows a.1)

  All-drop : (n : ℕ) (rows : List Row) → All P rows → All P (drop n rows)
  unfolding drop
  All-drop zero rows a = a
  All-drop (suc n) [] a = tt
  All-drop (suc n) (r ∷ rows) a = All-drop n rows a.1

  All-insert :
      (time : Row → ℕ) (r : Row) (rows : List Row)
      → P r
      → All P rows
      → All P (insert_latest time r rows)
  unfolding insert_latest
  All-insert time r [] p a = (p, tt)
  All-insert time r (s ∷ rows) p a = elim (Bool-cases (ltb (time r) (time s))) [
    | inl later ↦ rw later (a.0, All-insert time r rows p a.1)
    | inr other ↦ rw other (p, a)
  ]

  All-sort : (time : Row → ℕ) (rows : List Row) → All P rows → All P (sort_latest time rows)
  unfolding sort_latest
  All-sort time [] a = tt
  All-sort time (r ∷ rows) a =
      All-insert time r (sort_latest time rows) a.0 (All-sort time rows a.1)

All-zip :
    (P Q : Row → Type 0) (rows : List Row) → All P rows → All Q rows → All (λ r. P r × Q r) rows
All-zip P Q [] a b = tt
All-zip P Q (r ∷ rows) a b = ((a.0, b.0), All-zip P Q rows a.1 b.1)

rows_of_template-All :
    (id : String) (rows : List Row) → All (λ r. r.template_id ≡ id) (rows_of_template id rows)
unfolding rows_of_template
rows_of_template-All id [] = tt
rows_of_template-All id (r ∷ rows) = elim (Bool-cases (str_eq r.template_id id)) [
  | inl same ↦ rw same ((eq_iff r.template_id id).0 same, rows_of_template-All id rows)
  | inr other ↦ rw other (rows_of_template-All id rows)
]

module _ {A : Type 0} where
  length-take : (n : ℕ) (xs : List A) → length (take n xs) ≡ min n (length xs)
  unfolding take
  length-take zero xs = omega arith
  length-take (suc n) [] = omega arith
  length-take (suc n) (x ∷ xs) = let h = length-take n xs in omega arith

  length-drop : (n : ℕ) (xs : List A) → length (drop n xs) ≡ length xs - n
  unfolding drop
  length-drop zero xs = omega arith
  length-drop (suc n) [] = omega arith
  length-drop (suc n) (x ∷ xs) = let h = length-drop n xs in omega arith

  length-insert :
      (time : A → ℕ) (r : A) (rows : List A)
      → length (insert_latest time r rows) ≡ suc (length rows)
  unfolding insert_latest
  length-insert time r [] = refl
  length-insert time r (s ∷ rows) = elim (Bool-cases (ltb (time r) (time s))) [
    | inl later ↦ rw later (ap suc (length-insert time r rows))
    | inr other ↦ rw other refl
  ]

  length-sort : (time : A → ℕ) (rows : List A) → length (sort_latest time rows) ≡ length rows
  unfolding sort_latest
  length-sort time [] = refl
  length-sort time (r ∷ rows) = length-insert time r _ ∙ ap suc (length-sort time rows)

module _ {Wallets Config Links : Type 0} (codec : Codec Wallets Config Links) (id : String) where
  abbrev OfTemplate : Workflow Wallets Config Links → Type 0
  OfTemplate w = w.template_id ≡ id

  decode_row-Yields : (r : Row) → r.template_id ≡ id → Yields (decode_row codec r) OfTemplate
  unfolding decode_row pure
  decode_row-Yields r e = Ensures-bind _ _ (anything _) (λ a. Ensures-bind _ _ (anything _) (λ b.
      Ensures-bind _ _ (anything _) (λ c. Ensures-bind _ _ (anything _) (λ d.
        Ensures-bind _ _ (anything _)
          (λ f. Ensures-bind _ _ (anything _) (λ g. record { at = λ db u. e }))))))

  -- The row is read as a workflow.
  abbrev pub Decodes : Row → Type 0
  Decodes r = (w : Workflow Wallets Config Links) × ((db : Db) → decode_row codec r db ≡ (ok w, db))

  abbrev pub Listable : Row → Type 0
  Listable r = (r.template_id ≡ id) × Decodes r

  decoded-OfTemplate : (r : Row) (k : Listable r) (db : Db) → OfTemplate k.1.0
  decoded-OfTemplate r k db =
      subst (λ p. Post (λ d. Unit {0}) (λ w d. OfTemplate w) p.0 p.1) (k.1.1 db)
        ((decode_row-Yields r k.0).at db tt)

  decode_rows-Listable :
      (rows : List Row) (db : Db)
      → All Listable rows
      → (ws : List (Workflow Wallets Config Links)) × (decode_rows codec rows db ≡ (ok ws, db))
        × All OfTemplate ws
        × (length ws ≡ length rows)
  unfolding decode_rows pure ◌>>=◌
  decode_rows-Listable [] db a = ([], refl, tt, refl)
  decode_rows-Listable (r ∷ rows) db a =
      let rest = decode_rows-Listable rows db a.1 in
      (
        a.0.1.0 ∷ rest.0,
        rw (a.0.1.1 db, rest.1) refl,
        (decoded-OfTemplate r a.0 db, rest.2),
        ap suc rest.3,
      )

  -- When the rows of a template can be read, the listing of its workflows succeeds and changes nothing,
  -- all that it lists belong to the template, and it lists as many as there are behind the offset, up to
  -- the limit.
  pub list_template_workflows-OfTemplate :
      (limit offset : ℕ) (db : Db)
      → All Decodes (rows_of_template id db.rows)
      → (ws : List (Workflow Wallets Config Links)) × (list_template_workflows codec id limit offset
            db
          ≡ (ok ws, db))
        × All OfTemplate ws
        × (length ws ≡ min limit (length (rows_of_template id db.rows) - offset))
  unfolding list_template_workflows gets ◌>>=◌
  list_template_workflows-OfTemplate limit offset db a =
      let listed = rows_of_template id db.rows in
      let found = sort_latest (λ r. r.created_at) listed in
      let k = All-take _ limit _ (
        All-drop _ offset _ (
          All-sort _ (λ r. r.created_at) listed
            (All-zip _ _ listed (rows_of_template-All id db.rows) a))) in
      let ws = decode_rows-Listable (take limit (drop offset found)) db k in
      (
        ws.0,
        ws.1,
        ws.2,
        ws.3
            ∙ length-take limit (drop offset found)
            ∙ ap (min limit) (
                length-drop offset found
                ∙ ap (λ n. n - offset) (length-sort (λ r. r.created_at) listed)),
      )
