-- ===== src/Heed/Total.antt =====
-- The loops inside an LMDB transaction return or fail: none panics.
use findex_cloud.Base.{Bytes, Option, none, some, [], ◌∷◌, length, bytes_eq, option_eq}
use findex_cloud.Words.Signed.{ℤ, as_i64, add_i64}
use findex_cloud.Errors.{heed}
use findex_cloud.Errors.Laws.{NoPanic, NoPanic-ok, NoPanic-or_else, NoPanic-bind, NoPanic-if}
use findex_cloud.Core.{Table, Uids, EncryptedTable, UpsertItem, UpsertData}
use findex_cloud.Spec.{reject}
use findex_cloud.Heed.Txn.{
  Lmdb, read_size, fetch_loop, count_new, accept, upsert_one, upsert_loop, insert_loop, put_size,
}

module _ (db : Lmdb) (id : Bytes) where
  pub read_size-NoPanic : (t : db.Txn) → NoPanic (read_size db id t)
  unfolding read_size
  read_size-NoPanic t = search (NoPanic-bind, NoPanic-or_else, NoPanic-ok)

  count_new-NoPanic :
      (t : db.Txn) (existing : Option Bytes) (v : Bytes) → NoPanic (count_new db id t existing v)
  unfolding count_new
  count_new-NoPanic t none v = search (NoPanic-bind, NoPanic-or_else, read_size-NoPanic)
  count_new-NoPanic t (some x) v = NoPanic-ok t

  accept-NoPanic :
      (t : db.Txn) (existing : Option Bytes) (item : UpsertItem)
      → NoPanic (accept db id t existing item)
  unfolding accept
  accept-NoPanic t existing item = search (NoPanic-bind, NoPanic-or_else, count_new-NoPanic)

  upsert_one-NoPanic :
      (t : db.Txn) (item : UpsertItem) (r : EncryptedTable) → NoPanic (upsert_one db id t item r)
  unfolding upsert_one
  upsert_one-NoPanic t item r =
      search (NoPanic-bind, NoPanic-or_else, NoPanic-ok, NoPanic-if, accept-NoPanic)

  pub upsert_loop-NoPanic :
      (items : UpsertData) (t : db.Txn) (r : EncryptedTable) → NoPanic (upsert_loop db id t items r)
  unfolding upsert_loop
  upsert_loop-NoPanic [] t r = NoPanic-ok (t, r)
  upsert_loop-NoPanic (item ∷ rest) t r =
      NoPanic-bind _ _ (upsert_one-NoPanic t item r) (λ mid. upsert_loop-NoPanic rest mid.0 mid.1)

  pub insert_loop-NoPanic :
      (items : EncryptedTable) (t : db.Txn) (size : ℤ) → NoPanic (insert_loop db id t size items)
  unfolding insert_loop
  insert_loop-NoPanic [] t size = NoPanic-ok (t, size)
  insert_loop-NoPanic ((uid, value) ∷ rest) t size =
      NoPanic-bind _ _ (NoPanic-or_else heed _)
        (λ u. insert_loop-NoPanic rest u (add_i64 size (as_i64 (length value))))

  pub fetch_loop-NoPanic :
      (uids : Uids) (t : db.Txn) (table : Table) (found : EncryptedTable)
      → NoPanic (fetch_loop db id t table uids found)
  unfolding fetch_loop
  fetch_loop-NoPanic [] t table found = NoPanic-ok found
  fetch_loop-NoPanic (uid ∷ uids) t table found =
      NoPanic-bind _ _ (NoPanic-or_else heed _)
        (λ o. fetch_loop-NoPanic uids t table (reject uid o found))

  pub put_size-NoPanic : (t : db.Txn) (size : ℤ) → NoPanic (put_size db id t size)
  unfolding put_size
  put_size-NoPanic t size = NoPanic-or_else heed _
