-- ===== src/Service/Listing.antt =====
-- server/services/workflow/workflow.go: what the listing of the stored workflows says of them.
use ironbird.Base.{
  ℕ, zero, suc, ◌≡◌, refl, sym, inl, inr, String, List, [], ◌∷◌, All, NotIn, Distinct, Bool-cases,
}
use mathlib.Core.Path.{subst₂}
use ironbird.Base.Action.{Result, ok, err, pure, gets, continue, ◌>>=◌}
use ironbird.Store.{
  Workflow, Row, Db, Codec, Status, Stored, Error, listed_before, insert_listed, sort_listed,
}
use ironbird.Store.Access.{take, drop, decode_row, decode_rows, list_workflows}
use ironbird.Store.Unique.{workflow_ids, IsUnique}
use ironbird.Service.{Links}

-- Every value of the action satisfies `Q`.
abbrev pub Good : {A : Type 0} → (A → Type 0) → Result Error A → Type 0
Good Q (ok a) = Q a
Good Q (err e) = Unit

pub record Yields {A : Type 0} (m : Stored A) (Q : A → Type 0) : Type 0 where
  pub at : (db : Db) → Good Q (m db).0

Yields-any : {A : Type 0} (m : Stored A) → Yields m (λ a. Unit)
Yields-any m = record { at = λ db. any (m db).0 }
  where
    any : {A : Type 0} (r : Result Error A) → Good (λ a. Unit) r
    any (ok a) = tt
    any (err e) = tt

Yields-pure : {A : Type 0} (a : A) (Q : A → Type 0) → Q a → Yields (pure a) Q
unfolding pure
Yields-pure a Q q = record { at = λ db. q }

Yields-bind :
    {A B : Type 0} (P : A → Type 0) {Q : B → Type 0} (m : Stored A) (f : A → Stored B)
    → Yields m P
    → ((a : A) → P a → Yields (f a) Q)
    → Yields (m >>= f) Q
unfolding ◌>>=◌
Yields-bind P {Q} m f hm hf = record { at = λ db. both (m db).0 (m db).1 (hm.at db) }
  where
    both : (r : Result Error _) (db : Db) → Good P r → Good Q (continue r f db).0
    both (ok a) db p = (hf a p).at db
    both (err e) db p = tt

-- Rows with this id have this status.
abbrev pub Told : List Row → String → Status → Type 0
Told rows id s = All (λ r. r.workflow_id ≡ id → r.status ≡ s) rows

absent_lem :
    (id : String) (s : Status) (rows : List Row) → NotIn id (workflow_ids rows) → Told rows id s
absent_lem id s [] n = tt
absent_lem id s (r ∷ rows) n = (λ e. absurd (n.0 (sym e)), absent_lem id s rows n.1)

-- In a table without double ids, each row tells its id's status.
rows-Told :
    (rows : List Row)
    → Distinct (workflow_ids rows)
    → All (λ r. Told rows r.workflow_id r.status) rows
rows-Told [] d = tt
rows-Told (r ∷ rows) d = (
  (λ e. refl, absent_lem r.workflow_id r.status rows d.0),
  later r rows rows d.0 (rows-Told rows d.1),
)
  where
    later :
        (r : Row) (rows picked : List Row)
        → NotIn r.workflow_id (workflow_ids picked)
        → All (λ q. Told rows q.workflow_id q.status) picked
        → All (λ q. Told (r ∷ rows) q.workflow_id q.status) picked
    later r rows [] n a = tt
    later r rows (q ∷ picked) n a = ((λ e. absurd (n.0 e), a.0), later r rows picked n.1 a.1)

module _ (P : Row → Type 0) where
  All-insert_listed : (r : Row) (rows : List Row) → P r → All P rows → All P (insert_listed r rows)
  unfolding insert_listed
  All-insert_listed r [] p a = (p, tt)
  All-insert_listed r (s ∷ rows) p a = elim (Bool-cases (listed_before s r)) [
    | inl before ↦ rw before (a.0, All-insert_listed r rows p a.1)
    | inr after ↦ rw after (p, a)
  ]

  All-sort_listed : (rows : List Row) → All P rows → All P (sort_listed rows)
  unfolding sort_listed
  All-sort_listed [] a = tt
  All-sort_listed (r ∷ rows) a =
      All-insert_listed r (sort_listed rows) a.0 (All-sort_listed rows a.1)

  All-take : (n : ℕ) (rows : List Row) → All P rows → All P (take n rows)
  unfolding take
  All-take zero rows a = tt
  All-take (suc n) [] a = tt
  All-take (suc n) (r ∷ rows) a = (a.0, All-take n rows a.1)

  All-drop : (n : ℕ) (rows : List Row) → All P rows → All P (drop n rows)
  unfolding drop
  All-drop zero rows a = a
  All-drop (suc n) [] a = tt
  All-drop (suc n) (r ∷ rows) a = All-drop n rows a.1

module _ {Wallets Config : Type 0} (codec : Codec Wallets Config Links) where
  abbrev pub Source : List Row → Workflow Wallets Config Links → Type 0
  Source rows w = Told rows w.workflow_id w.status

  decode_row-Yields :
      (r : Row)
      → Yields (decode_row codec r) (λ w. (w.workflow_id ≡ r.workflow_id) × (w.status ≡ r.status))
  unfolding decode_row
  decode_row-Yields r = Yields-bind _ _ _ (Yields-any _) (λ n u.
      Yields-bind _ _ _ (Yields-any _) (λ v u. Yields-bind _ _ _ (Yields-any _) (λ l u.
        Yields-bind _ _ _ (Yields-any _) (λ w u.
          Yields-bind _ _ _ (Yields-any _)
            (λ c u. Yields-bind _ _ _ (Yields-any _) (λ m u. Yields-pure _ _ (refl, refl)))))))

  decode_rows-Yields :
      (rows picked : List Row)
      → All (λ r. Told rows r.workflow_id r.status) picked
      → Yields (decode_rows codec picked) (All (Source rows))
  unfolding decode_rows
  decode_rows-Yields rows [] a = Yields-pure _ _ tt
  decode_rows-Yields rows (r ∷ picked) a = Yields-bind _ _ _ (decode_row-Yields r) (λ w e.
      Yields-bind _ _ _ (decode_rows-Yields rows picked a.1)
        (λ ws h. Yields-pure _ _ (subst₂ (λ id s. Told rows id s) (sym e.0) (sym e.1) a.0, h)))

  -- In a table without double ids, each listed workflow tells the status of the rows with its id.
  pub list_workflows-Source :
      (limit offset : ℕ) (db : Db)
      → IsUnique db
      → Good (All (Source db.rows)) (list_workflows codec limit offset db).0
  unfolding list_workflows gets ◌>>=◌
  list_workflows-Source limit offset db u =
      (decode_rows-Yields db.rows (take limit (drop offset (sort_listed db.rows))) (
          All-take _ limit _
            (All-drop _ offset _ (All-sort_listed _ db.rows (rows-Told db.rows u.distinct))))).at
        db
