-- ===== src/Sqlite/Laws.antt =====
-- What src/sqlite.rs does on every branch.
use findex_cloud.Base.{
  Bytes, bytes_eq, Option, none, some, List, [], ◌∷◌, ◌++◌, ◌≡◌, ◌⊎◌, inl, inr, refl, ap, ◌∙◌,
  String, if◌then◌else◌, ◌==◌, ==_refl, arith,
}
use findex_cloud.Errors.{sqlx, Result, ok, err, panicked}
use findex_cloud.Exec.{Exec, Call, pure, attempt, ◌>>=◌}
use findex_cloud.Core.{Index, NewIndex}
use findex_cloud.Sqlite.{get_indexes, get_index, delete_index, create_index}
use findex_cloud.Sqlite.Table.{
  Db, faulty, statement, acquire, order_by_created_at, select_all, where_id, select_by_id,
  delete_where_id, delete_by_id, new_row, insert_if_new, insert_returning_id, found_one, select_one,
}

-- A statement runs, or fails without effect.
statement_rule :
    {A B : Type 0} (call : Call Db A) (k : A → Exec Db B) (d : Db) (Q : Result B × Db → Type 0)
    → ((fs : List (Option String)) → Q ((attempt sqlx call >>= k) (record d { faults = fs })))
    → ((text : String) (fs : List (Option String)) → Q (err (sqlx text), record d { faults = fs }))
    → Q ((attempt sqlx (statement call) >>= k) d)
unfolding statement faulty ◌>>=◌
statement_rule call k d Q on_run on_fault = go d.faults
  where
    go : (fs : List (Option String)) → Q ((attempt sqlx (faulty fs call) >>= k) d)
    go [] = on_run d.faults
    go (none ∷ fs) = on_run fs
    go (some text ∷ fs) = on_fault text fs

pub where_id-delete :
    (id j : Bytes) (rows : List Index)
    → where_id j (delete_where_id id rows) ≡ (if id == j then none else where_id j rows)
unfolding where_id delete_where_id
where_id-delete id j [] = ground arith
where_id-delete id j (row ∷ rows) = ground (
  arith,
  where_id-delete id j rows,
  bytes_eq.same_iff row.id id,
  bytes_eq.same_iff row.id j,
  bytes_eq.same_iff id j,
)

pub where_id-append :
    (j : Bytes) (rows more : List Index)
    → where_id j (rows ++ more)
      ≡ elim (where_id j rows) [ none ↦ where_id j more | some row ↦ some row ]
unfolding where_id
where_id-append j [] more = refl
where_id-append j (row ∷ rows) more = ground (arith, where_id-append j rows more)

-- A lookup gives the row of the ID, and changes none.
abbrev pub GetPost : Bytes → List Index → Result (Option Index) × Db → Type 0
GetPost id rows (ok o, d) = (o ≡ where_id id rows) × (d.rows ≡ rows)
GetPost id rows (err _, d) = d.rows ≡ rows
GetPost id rows (panicked, d) = ⊥

pub get_index-post : (id : Bytes) (d : Db) → GetPost id d.rows (get_index id d)
unfolding get_index acquire select_by_id ◌>>=◌
get_index-post id d =
    statement_rule _ _ d (GetPost id d.rows)
      (λ fs.
        statement_rule _ _ (record d { faults = fs }) (GetPost id d.rows) (λ _. (refl, refl))
          (λ _ _. refl))
      (λ _ _. refl)

-- A deletion takes the rows of the ID away; one that fails takes none.
abbrev pub DeletePost : Bytes → List Index → Result (Unit {0}) × Db → Type 0
DeletePost id rows (ok _, d) = d.rows ≡ delete_where_id id rows
DeletePost id rows (err _, d) = d.rows ≡ rows
DeletePost id rows (panicked, d) = ⊥

pub delete_index-post : (id : Bytes) (d : Db) → DeletePost id d.rows (delete_index id d)
unfolding delete_index acquire delete_by_id ◌>>=◌
delete_index-post id d =
    statement_rule _ _ d (DeletePost id d.rows)
      (λ fs.
        statement_rule _ _ (record d { faults = fs }) (DeletePost id d.rows) (λ _. refl)
          (λ _ _. refl))
      (λ _ _. refl)

-- `get_indexes` gives all rows in the order of the statement, and changes none.
abbrev pub ListPost : Db → Result (List Index) × Db → Type 0
ListPost d0 (ok indexes, d) = (indexes ≡ order_by_created_at d0.ties d0.rows) × (d.rows ≡ d0.rows)
ListPost d0 (err _, d) = d.rows ≡ d0.rows
ListPost d0 (panicked, d) = ⊥

pub get_indexes-post : (d : Db) → ListPost d (get_indexes d)
unfolding get_indexes acquire select_all ◌>>=◌
get_indexes-post d =
    statement_rule _ _ d (ListPost d)
      (λ fs.
        statement_rule _ _ (record d { faults = fs }) (ListPost d) (λ _. (refl, refl))
          (λ _ _. refl))
      (λ _ _. refl)

-- A creation adds one row, of an ID that had none, and gives it back. One that fails has added it
-- too if the last statement is the one that failed, and nothing else.
abbrev pub CreatePost : NewIndex → Db → Result Index × Db → Type 0
CreatePost new_index d (ok index, d') =
    (index ≡ new_row new_index d.clock)
    × (where_id new_index.id d.rows ≡ none)
    × (d'.rows ≡ d.rows ++ new_row new_index d.clock ∷ [])
CreatePost new_index d (err _, d') =
    (d'.rows ≡ d.rows)
    ⊎ ((where_id new_index.id d.rows ≡ none) × (d'.rows ≡ d.rows ++ new_row new_index d.clock ∷ []))
CreatePost new_index d (panicked, d') = ⊥

abbrev added : NewIndex → Db → Db
added new_index d = record d { rows = d.rows ++ new_row new_index d.clock ∷ [] }

select_added :
    (new_index : NewIndex) (d : Db)
    → where_id new_index.id d.rows ≡ none
    → where_id new_index.id (added new_index d).rows ≡ some (new_row new_index d.clock)
unfolding where_id new_row
select_added new_index d absent = ground (
  arith,
  where_id-append new_index.id d.rows (new_row new_index d.clock ∷ []),
  absent,
  ==_refl new_index.id,
)

-- What `create_index` does once the row is in.
abbrev read_back : NewIndex → Option Bytes → Exec Db Index
read_back new_index id = do index ← attempt sqlx (select_one id); pure index

read_back-post :
    (new_index : NewIndex) (d e : Db)
    → where_id new_index.id d.rows ≡ none
    → e.rows ≡ (added new_index d).rows
    → CreatePost new_index d (read_back new_index (some new_index.id) e)
unfolding select_one ◌>>=◌
read_back-post new_index d e absent same =
    statement_rule _ _ e (CreatePost new_index d)
      (λ fs.
        found (where_id new_index.id e.rows)
          (ap (where_id new_index.id) same ∙ select_added new_index d absent) fs)
      (λ _ _. inr (absent, same))
  where
    found :
        (o : Option Index)
        → o ≡ some (new_row new_index d.clock)
        → (fs : List (Option String))
        → CreatePost new_index d
            ((attempt sqlx (λ e'. (found_one o, e')) >>= pure) (record e { faults = fs }))
    found none is_row fs = cc
    found (some row) is_row fs = (cc, absent, same)

-- `create_index` in SQLite that returns gives back the new row, of an ID that had none, and has
-- added it after the rows; one that fails has added that row, of an ID that had none, or nothing.
pub create_index-post :
    (new_index : NewIndex) (d : Db) → CreatePost new_index d (create_index new_index d)
unfolding create_index acquire insert_returning_id ◌>>=◌
create_index-post new_index d =
    statement_rule _ _ d (CreatePost new_index d)
      (λ fs.
        statement_rule _ _ (record d { faults = fs }) (CreatePost new_index d)
          (λ fs'. inserted (where_id new_index.id d.rows) refl fs') (λ _ _. inl refl))
      (λ _ _. inl refl)
  where
    inserted :
        (o : Option Index)
        → where_id new_index.id d.rows ≡ o
        → (fs : List (Option String))
        → CreatePost new_index d (
            (attempt sqlx (insert_if_new new_index o) >>= read_back new_index)
              (record d { faults = fs }))
    inserted (some row) taken fs = inl refl
    inserted none absent fs =
        read_back-post new_index d (record (added new_index d) { faults = fs }) absent refl
