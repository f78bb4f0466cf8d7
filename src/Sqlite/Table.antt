-- ===== src/Sqlite/Table.antt =====
-- The table `indexes` and the SQL statements of src/sqlite.rs on it.
use findex_cloud.Base.{
  ℕ, Bytes, bytes_eq, Option, none, some, List, [], ◌∷◌, ◌++◌, ◌==◌, String, ltb, Bool, true, false,
  if◌then◌else◌,
}
use findex_cloud.Errors.{Outcome, done, failed}
use findex_cloud.Exec.{Call}
use findex_cloud.Core.{Index, NewIndex}

-- `faults` holds what becomes of the next calls: none lets one through, a text makes it fail. After
-- its end no call fails. `clock` is the value of `current_timestamp`. `ties` says which of two rows
-- of one instant SQLite lists first, which SQL leaves open.
pub record Db : Type 0 where
  pub rows : List Index
  pub clock : ℕ
  pub faults : List (Option String)
  pub ties : Index → Index → Bool

-- A call that fails has no effect.
unfoldable pub faulty : {A : Type 0} → List (Option String) → Call Db A → Call Db A
faulty [] call d = call d
faulty (none ∷ faults) call d = call (record d { faults = faults })
faulty (some text ∷ faults) call d = (failed text, record d { faults = faults })

unfoldable pub statement : {A : Type 0} → Call Db A → Call Db A
statement call d = faulty d.faults call d

-- `pool.acquire()`
unfoldable pub acquire : Call Db (Unit {0})
acquire = statement (λ d. (done tt, d))

-- Whether the row comes after `head` in ORDER BY created_at DESC.
unfoldable pub is_behind : (Index → Index → Bool) → Index → Index → Bool
is_behind ties row head =
    if ltb row.created_at head.created_at
    then true
    else if ltb head.created_at row.created_at
    then false
    else ties head row

unfoldable pub insert_newest : (Index → Index → Bool) → Index → List Index → List Index
insert_newest ties row [] = row ∷ []
insert_newest ties row (head ∷ rows) =
    if is_behind ties row head then head ∷ insert_newest ties row rows else row ∷ head ∷ rows

-- ORDER BY created_at DESC
unfoldable pub order_by_created_at : (Index → Index → Bool) → List Index → List Index
order_by_created_at ties [] = []
order_by_created_at ties (row ∷ rows) = insert_newest ties row (order_by_created_at ties rows)

-- SELECT *, null as "size: _" FROM indexes ORDER BY created_at DESC
unfoldable pub select_all : Call Db (List Index)
select_all = statement (λ d. (done (order_by_created_at d.ties d.rows), d))

unfoldable pub where_id : Bytes → List Index → Option Index
where_id id [] = none
where_id id (row ∷ rows) = if row.id == id then some row else where_id id rows

-- SELECT *, null as "size: _" FROM indexes WHERE id = $1, with `fetch_optional`
unfoldable pub select_by_id : Bytes → Call Db (Option Index)
select_by_id id = statement (λ d. (done (where_id id d.rows), d))

unfoldable pub delete_where_id : Bytes → List Index → List Index
delete_where_id id [] = []
delete_where_id id (row ∷ rows) =
    let rest = delete_where_id id rows in if row.id == id then rest else row ∷ rest

-- DELETE FROM indexes WHERE id = $1
unfoldable pub delete_by_id : Bytes → Call Db (Unit {0})
delete_by_id id = statement (λ d. (done tt, record d { rows = delete_where_id id d.rows }))

-- A new row: `created_at` is DEFAULT(current_timestamp), and the size is no column.
unfoldable pub new_row : NewIndex → ℕ → Index
new_row new_index clock = record {
  id = new_index.id;
  name = new_index.name;
  fetch_entries_key = new_index.fetch_entries_key;
  fetch_chains_key = new_index.fetch_chains_key;
  upsert_entries_key = new_index.upsert_entries_key;
  insert_chains_key = new_index.insert_chains_key;
  size = none;
  created_at = clock;
}

abbrev pub unique_failed : String
unique_failed = "UNIQUE constraint failed: indexes.id"

abbrev pub insert_if_new : NewIndex → Option Index → Call Db (Option Bytes)
insert_if_new new_index (some _) d = (failed unique_failed, d)
insert_if_new new_index none d =
    (done (some new_index.id), record d { rows = d.rows ++ new_row new_index d.clock ∷ [] })

-- INSERT INTO indexes (…) VALUES (…) RETURNING id; `id` is the PRIMARY KEY
unfoldable pub insert_returning_id : NewIndex → Call Db (Option Bytes)
insert_returning_id new_index =
    statement (λ d. insert_if_new new_index (where_id new_index.id d.rows) d)

abbrev pub no_rows : String
no_rows = "RowNotFound"

abbrev pub found_one : Option Index → Outcome Index
found_one none = failed no_rows
found_one (some row) = done row

abbrev pub select_if : Option Bytes → List Index → Outcome Index
select_if none rows = failed no_rows
select_if (some id) rows = found_one (where_id id rows)

-- SELECT *, null as "size: _" FROM indexes WHERE id = $1, with `fetch_one`; NULL equals no ID
unfoldable pub select_one : Option Bytes → Call Db Index
select_one id = statement (λ d. (select_if id d.rows, d))
