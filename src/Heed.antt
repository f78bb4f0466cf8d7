-- ===== src/Heed.antt =====
-- src/heed.rs: the indexes in LMDB. Each method is one transaction.
pub mod Keys
pub mod Txn
pub mod Writes
pub mod Total
pub mod Atomic
pub mod Cells
use findex_cloud.Base.{Bytes, Option, some, List, [], ◌∷◌, ◌≡◌}
use findex_cloud.Errors.From
use findex_cloud.Exec.{Exec, pure, lift, attempt, ◌>>=◌, ◌>>◌}
use findex_cloud.Core.{Index, Table, Uids, EncryptedTable, UpsertData, IndexesDatabase}
use Keys.{size_key}
use Txn.{Lmdb, i64_to_be_bytes, read_size, fetch_loop, upsert_loop, insert_loop, put_size}

module _ (db : Lmdb) where
  unfoldable pub set_size : Index → Exec db.Env Index
  set_size index = do
    txn ← attempt From.heed db.read_txn
    size ← lift (read_size db index.id txn)
    pure (record index { size = some size })

  unfoldable pub fetch : Index → Table → Uids → Exec db.Env EncryptedTable
  fetch index table uids = do
    txn ← attempt From.heed db.read_txn
    uids_and_values ← lift (fetch_loop db index.id txn table uids [])
    pure uids_and_values

  unfoldable pub upsert_entries : Index → UpsertData → Exec db.Env EncryptedTable
  upsert_entries index items = do
    txn ← attempt From.heed db.write_txn
    (txn', rejected) ← lift (upsert_loop db index.id txn items [])
    attempt From.heed (db.commit txn')
    pure rejected

  unfoldable pub insert_chains : Index → EncryptedTable → Exec db.Env (Unit {0})
  insert_chains index items = do
    txn ← attempt From.heed db.write_txn
    size ← lift (read_size db index.id txn)
    (txn', size') ← lift (insert_loop db index.id txn size items)
    txn'' ← lift (put_size db index.id txn' size')
    attempt From.heed (db.commit txn'')
    pure tt

  unfoldable pub database : IndexesDatabase db.Env
  database = record {
    set_size = set_size;
    fetch = fetch;
    upsert_entries = upsert_entries;
    insert_chains = insert_chains;
  }
