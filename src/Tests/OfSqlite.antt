-- ===== src/Tests/OfSqlite.antt =====
-- src/sqlite.rs at concrete inputs.
use findex_cloud.Base.{bytes_beq, bytes_eq, some, none, [], ◌∷◌, ◌≡◌, refl}
use findex_cloud.Errors.{ok, err, sqlx}
use findex_cloud.Exec.{◌>>=◌}
use findex_cloud.Core.{NewIndex}
use findex_cloud.Sqlite
use findex_cloud.Sqlite.Table
use findex_cloud.Sqlite.Laws.{CreatePost, create_index-post}
use findex_cloud.Tests.Samples.{alpha, beta, db}

program : Unit {0}
unfolding bytes_beq ◌>>=◌ Sqlite.get_indexes Sqlite.get_index Sqlite.delete_index
    Sqlite.create_index Table.faulty Table.statement Table.acquire Table.is_behind
    Table.insert_newest Table.order_by_created_at Table.select_all Table.where_id Table.select_by_id
    Table.delete_where_id Table.delete_by_id Table.new_row Table.insert_returning_id
    Table.select_one
program = tt

abbrev gamma : NewIndex
gamma = record {
  id = 3 ∷ [];
  name = 103 ∷ [];
  fetch_entries_key = 31 ∷ [];
  fetch_chains_key = 32 ∷ [];
  upsert_entries_key = 33 ∷ [];
  insert_chains_key = 34 ∷ [];
}

listed : (Sqlite.get_indexes db).0 ≡ ok (beta ∷ alpha ∷ [])
unfolding program
listed = refl

created : (Sqlite.create_index gamma db).0 ≡ ok (Table.new_row gamma 9)
unfolding program
created = refl

taken :
    Sqlite.create_index (record gamma { id = alpha.id }) db ≡ (err (sqlx Table.unique_failed), db)
unfolding program
taken = refl

-- The read that follows the insertion fails: the row is there.
half_done :
    Sqlite.create_index gamma (record db { faults = none ∷ none ∷ some "locked" ∷ [] })
    ≡ (err (sqlx "locked"), record db { rows = alpha ∷ beta ∷ Table.new_row gamma 9 ∷ [] })
unfolding program
half_done = refl

create_index-post_example : CreatePost gamma db (Sqlite.create_index gamma db)
create_index-post_example = create_index-post gamma db
