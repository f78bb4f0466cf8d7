-- ===== src/Rocksdb.antt =====
-- src/rocksdb.rs: the indexes in RocksDB. Each item of `upsert_entries` is a transaction of its own.
pub mod Keys
pub mod Merge
pub mod Client
pub mod Accepts
pub mod Timeouts
pub mod Writes
pub mod Loop
pub mod Locks
pub mod Reads
pub mod Chains
pub mod Export
use text.Mathlib.Text.{◌==◌ as str_eq}
use findex_cloud.Base.{
  ℕ, zero, suc, Bytes, Option, none, some, List, [], ◌∷◌, map, length, ◌≡◌, ◌==◌, bytes_eq,
  option_eq, String, if◌then◌else◌,
}
use findex_cloud.Base.HashMap.{insert}
use findex_cloud.Words.{add64, to_be_bytes, from_be_bytes}
use findex_cloud.Words.Signed.{ℤ, pos, as_i64}
use findex_cloud.Errors.From
use findex_cloud.Errors.{Error, rocksdb, Result, ok, err, Outcome, done, failed, or_else}
use findex_cloud.Exec.{Exec, pure, raise, lift, attempt, ◌>>=◌, ◌>>◌}
use findex_cloud.Core.{
  Index, Table, Uid, Uids, EncryptedTable, UpsertItem, UpsertData, IndexesDatabase,
}
use findex_cloud.Spec.{reject}
use Keys.{key, size_key}
use Client.{Rocks}

abbrev pub lock_timeout : String
lock_timeout = "Operation timed out: Timeout waiting to lock key"

-- `.and_then(|bytes| bytes.try_into().ok()).map(|bytes| usize::from_be_bytes(bytes) as i64)
-- .unwrap_or(0)`
unfoldable pub size_i64 : Option Bytes → ℤ
size_i64 none = pos 0
size_i64 (some bytes) = elim (from_be_bytes bytes) [ none ↦ pos 0 | some w ↦ as_i64 w ]

module _ (db : Rocks) where
  unfoldable pub set_size : Index → Exec db.Db Index
  set_size index = do
    found ← attempt From.rocksdb (db.get (size_key index.id))
    pure (record index { size = some (size_i64 found) })

  -- The loop over `zip(uids, values)`; an error among the values ends it.
  unfoldable pub zip_loop :
      Uids → List (Outcome (Option Bytes)) → EncryptedTable → Result EncryptedTable
  zip_loop [] _ uids_and_values = ok uids_and_values
  zip_loop (uid ∷ uids) [] uids_and_values = ok uids_and_values
  zip_loop (uid ∷ uids) (failed text ∷ values) uids_and_values = err (From.rocksdb text)
  zip_loop (uid ∷ uids) (done value ∷ values) uids_and_values =
      zip_loop uids values (reject uid value uids_and_values)

  unfoldable pub fetch : Index → Table → Uids → Exec db.Db EncryptedTable
  fetch index table uids d =
      let (values, d') = db.multi_get (map (key index.id table) uids) d in
      (zip_loop uids values [], d')

  module _ (id : Bytes) where
    -- The size grows only where no value stood before.
    unfoldable pub count_new : db.Txn → Option Bytes → Bytes → Exec db.Db db.Txn
    count_new t (some _) new_value = pure t
    count_new t none new_value =
        attempt From.rocksdb (db.txn_merge t (size_key id) (to_be_bytes (length new_value)))

    unfoldable pub compare_and_put :
        db.Txn → Option Bytes → UpsertItem → EncryptedTable → Exec db.Db EncryptedTable
    compare_and_put t existing_value item rejected =
        if existing_value == item.old_value
        then (do
          counted ← count_new t existing_value item.new_value
          written ←
              attempt From.rocksdb
                (db.txn_put counted (key id Table.entries item.uid) item.new_value)
          attempt From.rocksdb (db.commit written)
          pure rejected)
        else (do
          attempt From.rocksdb (db.rollback t)
          pure (reject item.uid existing_value rejected))

    -- `retry` more reads of a key that another client has locked; then its error is returned.
    unfoldable pub retry_loop : ℕ → Bytes → String → Exec db.Db Bytes
    retry_loop zero k text = raise (rocksdb text)
    retry_loop (suc retry) k text = do
      found ← attempt From.rocksdb (db.get k)
      elim found [ some value ↦ pure value | none ↦ retry_loop retry k text ]

    unfoldable pub timed_out :
        db.Txn → UpsertItem → String → EncryptedTable → Exec db.Db EncryptedTable
    timed_out t item text rejected = do
      attempt From.rocksdb (db.rollback t)
      value ← retry_loop 3 (key id Table.entries item.uid) text
      pure (insert item.uid value rejected)

    -- The `match` on `get_for_update`.
    unfoldable pub on_lock :
        Outcome (Option Bytes × db.Txn)
        → db.Txn
        → UpsertItem
        → EncryptedTable
        → Exec db.Db EncryptedTable
    on_lock (done (existing_value, locked)) t item rejected =
        compare_and_put locked existing_value item rejected
    on_lock (failed text) t item rejected =
        if str_eq text lock_timeout
        then timed_out t item text rejected
        else raise (From.rocksdb text)

    unfoldable pub upsert_one : UpsertItem → EncryptedTable → Exec db.Db EncryptedTable
    upsert_one item rejected d =
        let (t, d1) = db.transaction d in
        let (locked, d2) = db.get_for_update t (key id Table.entries item.uid) d1 in
        on_lock locked t item rejected d2

    unfoldable pub upsert_loop : UpsertData → EncryptedTable → Exec db.Db EncryptedTable
    upsert_loop [] rejected = pure rejected
    upsert_loop (item ∷ rest) rejected = do
      rejected' ← upsert_one item rejected
      upsert_loop rest rejected'

    -- The loop of `insert_chains`, with the bytes written so far.
    unfoldable pub put_loop : EncryptedTable → ℕ → Exec db.Db ℕ
    put_loop [] size = pure size
    put_loop ((uid, value) ∷ rest) size = do
      attempt From.rocksdb (db.put (key id Table.chains uid) value)
      put_loop rest (add64 size (length value))

  unfoldable pub upsert_entries : Index → UpsertData → Exec db.Db EncryptedTable
  upsert_entries index items = upsert_loop index.id items []

  unfoldable pub insert_chains : Index → EncryptedTable → Exec db.Db (Unit {0})
  insert_chains index items = do
    size ← put_loop index.id items 0
    attempt From.rocksdb (db.merge (size_key index.id) (to_be_bytes size))
    pure tt

  unfoldable pub database : IndexesDatabase db.Db
  database = record {
    set_size = set_size;
    fetch = fetch;
    upsert_entries = upsert_entries;
    insert_chains = insert_chains;
  }
