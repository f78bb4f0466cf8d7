-- ===== src/Heed/Txn.antt =====
-- src/heed.rs inside a transaction: the reads and writes that a handler makes before it commits.
use findex_cloud.Base.{
  Bytes, Option, none, some, [], ◌∷◌, length, ◌≡◌, ◌==◌, bytes_eq, option_eq, if◌then◌else◌,
}
use findex_cloud.Words.{to_be_bytes, from_be_bytes}
use findex_cloud.Words.Signed.{ℤ, pos, as_i64, i64_bits, add_i64}
use findex_cloud.Errors.From
use findex_cloud.Errors.{Result, ok, Outcome, or_else, ◌>>=◌}
use findex_cloud.Core.{Table, Uids, EncryptedTable, UpsertItem, UpsertData}
use findex_cloud.Spec.{Content, update, reject}
use findex_cloud.Heed.Keys.{key, size_key}
use findex_cloud.Exec.{Call}

-- The crate `heed`: an environment with one unnamed database. A transaction is a value that `put`
-- changes; one that is dropped leaves no trace.
pub record Lmdb : Type 1 where
  pub Env : Type 0
  pub Txn : Type 0
  pub read_txn : Call Env Txn
  pub write_txn : Call Env Txn
  pub get : Txn → Bytes → Outcome (Option Bytes)
  pub put : Txn → Bytes → Bytes → Outcome Txn
  pub commit : Txn → Call Env (Unit {0})

-- What LMDB documents: a transaction begins with the committed content, reads what it wrote, and a
-- commit either makes all its writes the content or changes nothing. Only one write transaction is
-- open at a time, so that no other write stands between its begin and its commit.
pub record IsLmdb (db : Lmdb) : Type 0 where
  pub content : db.Env → Content
  pub seen : db.Txn → Content
  pub content-read_txn : (e : db.Env) → content (db.read_txn e).1 ≡ content e
  pub seen-read_txn :
      (e : db.Env) (t : db.Txn) → (db.read_txn e).0 ≡ Outcome.done t → seen t ≡ content e
  pub content-write_txn : (e : db.Env) → content (db.write_txn e).1 ≡ content e
  pub seen-write_txn :
      (e : db.Env) (t : db.Txn) → (db.write_txn e).0 ≡ Outcome.done t → seen t ≡ content e
  pub seen-get :
      (t : db.Txn) (k : Bytes) (o : Option Bytes) → db.get t k ≡ Outcome.done o → o ≡ seen t k
  pub seen-put :
      (t u : db.Txn) (k v : Bytes) → db.put t k v ≡ Outcome.done u → seen u ≡ update (seen t) k v
  pub content-commit :
      (t : db.Txn) (e : db.Env)
      → (db.commit t e).0 ≡ Outcome.done tt
      → content (db.commit t e).1 ≡ seen t
  pub content-commit_failed :
      (t : db.Txn) (e : db.Env) {text : _}
      → (db.commit t e).0 ≡ Outcome.failed text
      → content (db.commit t e).1 ≡ content e

-- `.and_then(|bytes| bytes.try_into().ok()).map(|bytes| usize::from_be_bytes(bytes) as i64)
-- .unwrap_or(0)`
unfoldable pub size_i64 : Option Bytes → ℤ
size_i64 none = pos 0
size_i64 (some bytes) = elim (from_be_bytes bytes) [ none ↦ pos 0 | some w ↦ as_i64 w ]

-- `i64::to_be_bytes`
unfoldable pub i64_to_be_bytes : ℤ → Bytes
i64_to_be_bytes n = to_be_bytes (i64_bits n)

module _ (db : Lmdb) (id : Bytes) where
  unfoldable pub read_size : db.Txn → Result ℤ
  read_size t = do found ← or_else From.heed (db.get t (size_key id)); ok (size_i64 found)

  unfoldable pub fetch_loop : db.Txn → Table → Uids → EncryptedTable → Result EncryptedTable
  fetch_loop t table [] uids_and_values = ok uids_and_values
  fetch_loop t table (uid ∷ uids) uids_and_values = do
    found ← or_else From.heed (db.get t (key id table uid))
    fetch_loop t table uids (reject uid found uids_and_values)

  -- The size grows only where no value stood before.
  unfoldable pub count_new : db.Txn → Option Bytes → Bytes → Result db.Txn
  count_new t (some _) new_value = ok t
  count_new t none new_value = do
    size ← read_size t
    or_else From.heed
        (db.put t (size_key id) (i64_to_be_bytes (add_i64 size (as_i64 (length new_value)))))

  unfoldable pub accept : db.Txn → Option Bytes → UpsertItem → Result db.Txn
  accept t existing_value item = do
    counted ← count_new t existing_value item.new_value
    or_else From.heed (db.put counted (key id Table.entries item.uid) item.new_value)

  unfoldable pub upsert_one :
      db.Txn → UpsertItem → EncryptedTable → Result (db.Txn × EncryptedTable)
  upsert_one t item rejected = do
    existing_value ← or_else From.heed (db.get t (key id Table.entries item.uid))
    if existing_value == item.old_value
        then (do u ← accept t existing_value item; ok (u, rejected))
        else ok (t, reject item.uid existing_value rejected)

  unfoldable pub upsert_loop :
      db.Txn → UpsertData → EncryptedTable → Result (db.Txn × EncryptedTable)
  upsert_loop t [] rejected = ok (t, rejected)
  upsert_loop t (item ∷ rest) rejected = do
    (u, rejected') ← upsert_one t item rejected
    upsert_loop u rest rejected'

  unfoldable pub insert_loop : db.Txn → ℤ → EncryptedTable → Result (db.Txn × ℤ)
  insert_loop t size [] = ok (t, size)
  insert_loop t size ((uid, value) ∷ rest) = do
    u ← or_else From.heed (db.put t (key id Table.chains uid) value)
    insert_loop u (add_i64 size (as_i64 (length value))) rest

  unfoldable pub put_size : db.Txn → ℤ → Result db.Txn
  put_size t size = or_else From.heed (db.put t (size_key id) (i64_to_be_bytes size))
