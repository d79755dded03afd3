-- ===== src/Store/Rows.antt =====
-- server/db/sqlite.go: what is found in the table after an insertion, an update or a deletion.
use ironbird.Base.{
  ℕ, ◌≡◌, ◌≢◌, refl, inl, inr, String, true, false, none, some, List, [], ◌∷◌, ◌++◌, arith, str_eq,
  eq_iff, Bool-cases,
}
use mathlib.Core.Option.{map as map_option}
use ironbird.Store.{Row, Changes, has_row, change_row, change_rows, delete_rows}
use ironbird.Store.Access.{find_row}

pub find_row-append :
    (r : Row) (rows : List Row)
    → has_row r.workflow_id rows ≡ false
    → find_row r.workflow_id (rows ++ (r ∷ [])) ≡ some r
unfolding has_row find_row
find_row-append r [] h = ground (arith, eq_iff r.workflow_id r.workflow_id)
find_row-append r (s ∷ rows) h = ground (arith, find_row-append r rows (ground arith))

pub find_row-append_other :
    (x : String) (r : Row) (rows : List Row)
    → x ≢ r.workflow_id
    → find_row x (rows ++ (r ∷ [])) ≡ find_row x rows
unfolding find_row
find_row-append_other x r [] h = ground (arith, eq_iff r.workflow_id x)
find_row-append_other x r (s ∷ rows) h = rw (find_row-append_other x r rows h) refl

pub has_row-find :
    (x : String) (rows : List Row) → has_row x rows ≡ true → (r : Row) × (find_row x rows ≡ some r)
unfolding has_row find_row
has_row-find x [] h = ground arith
has_row-find x (r ∷ rows) h = elim (Bool-cases (str_eq r.workflow_id x)) [
  | inl same ↦ (r, rw same refl)
  | inr other ↦ let rest = has_row-find x rows (ground arith) in (rest.0, rw other rest.1)
]

pub has_row-none : (x : String) (rows : List Row) → has_row x rows ≡ false → find_row x rows ≡ none
unfolding has_row find_row
has_row-none x [] h = refl
has_row-none x (r ∷ rows) h = ground (arith, has_row-none x rows (ground arith))

-- A key that is `id` is no other.
differs : (w x id : String) → x ≢ id → str_eq w id ≡ true → str_eq w x ≡ false
differs w x id h e = ground (arith, eq_iff w id, eq_iff w x)

module _ (now : ℕ) (id : String) (c : Changes) where
  pub find-change_rows :
      (rows : List Row)
      → find_row id (change_rows now id c rows) ≡ map_option (change_row now c) (find_row id rows)
  unfolding find_row change_rows change_row
  find-change_rows [] = refl
  find-change_rows (s ∷ rows) = elim (Bool-cases (str_eq s.workflow_id id)) [
    | inl same ↦ rw (same, same) refl
    | inr other ↦ rw (other, other, find-change_rows rows) refl
  ]

  pub find-change_rows_other :
      (x : String)
      → x ≢ id
      → (rows : List Row) → find_row x (change_rows now id c rows) ≡ find_row x rows
  unfolding find_row change_rows change_row
  find-change_rows_other x h [] = refl
  find-change_rows_other x h (s ∷ rows) = elim (Bool-cases (str_eq s.workflow_id id)) [
    | inl same ↦ rw (same, differs s.workflow_id x id h same, find-change_rows_other x h rows) refl
    | inr other ↦ rw (other, find-change_rows_other x h rows) refl
  ]

pub find-delete_rows : (id : String) (rows : List Row) → find_row id (delete_rows id rows) ≡ none
unfolding find_row delete_rows
find-delete_rows id [] = refl
find-delete_rows id (r ∷ rows) = elim (Bool-cases (str_eq r.workflow_id id)) [
  | inl same ↦ rw same (find-delete_rows id rows)
  | inr other ↦ rw (other, find-delete_rows id rows, other) refl
]

pub find-delete_rows_other :
    (id x : String)
    → x ≢ id
    → (rows : List Row) → find_row x (delete_rows id rows) ≡ find_row x rows
unfolding find_row delete_rows
find-delete_rows_other id x h [] = refl
find-delete_rows_other id x h (r ∷ rows) = elim (Bool-cases (str_eq r.workflow_id id)) [
  | inl same ↦ rw (same, differs r.workflow_id x id h same, find-delete_rows_other id x h rows) refl
  | inr other ↦ rw (other, find-delete_rows_other id x h rows) refl
]
