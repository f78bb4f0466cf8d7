-- ===== src/Sqlite.antt =====
-- src/sqlite.rs: the metadata in SQLite, with the table of migrations/20230109090557_*.sql. The
-- statements are read as SQL means them; any call of the pool may fail instead, without effect.
pub mod Table
pub mod Laws
pub mod Contract
pub mod Order
use findex_cloud.Base.{Bytes, Option, none, some, List}
use findex_cloud.Errors.From
use findex_cloud.Exec.{Exec, pure, attempt, ◌>>=◌, ◌>>◌}
use findex_cloud.Core.{Index, NewIndex, MetadataDatabase}
use Table.{Db, acquire, select_all, select_by_id, delete_by_id, insert_returning_id, select_one}

unfoldable pub get_indexes : Exec Db (List Index)
get_indexes = do attempt From.sqlx acquire; indexes ← attempt From.sqlx select_all; pure indexes

unfoldable pub get_index : Bytes → Exec Db (Option Index)
get_index id = do attempt From.sqlx acquire; index ← attempt From.sqlx (select_by_id id); pure index

unfoldable pub delete_index : Bytes → Exec Db (Unit {0})
delete_index id = do attempt From.sqlx acquire; attempt From.sqlx (delete_by_id id); pure tt

unfoldable pub create_index : NewIndex → Exec Db Index
create_index new_index = do
  attempt From.sqlx acquire
  id ← attempt From.sqlx (insert_returning_id new_index)
  index ← attempt From.sqlx (select_one id)
  pure index

unfoldable pub database : MetadataDatabase Db
database = record {
  get_indexes = get_indexes;
  get_index = get_index;
  delete_index = delete_index;
  create_index = create_index;
}
