-- ===== src/Rocksdb/Writes.antt =====
-- What one item of `upsert_entries` of src/rocksdb.rs does.
use text.Mathlib.Text.{◌==◌ as str_eq}
use findex_cloud.Base.{Bytes, Option, ◌≡◌, refl, ap, ◌∙◌, bytes_eq, option_eq, inl, inr, Bool-cases}
use findex_cloud.Errors.{Outcome, done, failed}
use findex_cloud.Core.{Table, EncryptedTable, UpsertItem}
use findex_cloud.Spec.{Content, IsSized}
use findex_cloud.Rocksdb.{on_lock, upsert_one, lock_timeout}
use findex_cloud.Rocksdb.Keys.{key, size_key}
use findex_cloud.Rocksdb.Client.{Rocks, IsRocks}
use findex_cloud.Rocksdb.Accepts.{ItemPost, IsFresh, compare_and_put-post}
use findex_cloud.Rocksdb.Timeouts.{timed_out-post}

module _ (db : Rocks) (rocks : IsRocks db) (id : Bytes) where
  open rocks use {content}

  module _ (f : Content) (sized : IsSized (f (size_key id))) where
    pub on_lock-post :
        (o : Outcome (Option Bytes × db.Txn)) (t : db.Txn) (item : UpsertItem) (r : EncryptedTable)
        (d : db.Db)
        → ((existing : Option Bytes) (u : db.Txn)
            → o ≡ done (existing, u)
            → (existing ≡ f (key id Table.entries item.uid)) × IsFresh db rocks id u)
        → content d ≡ f
        → ItemPost db rocks id f r item (on_lock db id o t item r d)
    unfolding on_lock
    on_lock-post (done (existing, u)) t item r d locked start =
        let (cell, fresh) = locked existing u refl in
        compare_and_put-post db rocks id f sized u item r existing d cell fresh start
    on_lock-post (failed text) t item r d locked start =
        elim (Bool-cases (str_eq text lock_timeout)) [
          | inl busy ↦ rw busy (timed_out-post db rocks id f sized t item text r d start)
          | inr other ↦ rw other start
        ]

  -- From a well-formed size cell, an item of `upsert_entries` on RocksDB is compared and swapped
  -- with its size counted, or is reported with the value in its cell while another client holds the
  -- lock, or fails and changes nothing; it does not panic.
  pub upsert_one-post :
      (item : UpsertItem) (r : EncryptedTable) (d : db.Db)
      → IsSized (content d (size_key id))
      → ItemPost db rocks id (content d) r item (upsert_one db id item r d)
  unfolding upsert_one
  upsert_one-post item r d sized =
      let k = key id Table.entries item.uid in
      let (t, d1) = db.transaction d in
      let same : content d1 ≡ content d = rocks.content-transaction d in
      on_lock-post (content d) sized (db.get_for_update t k d1).0 t item r
        (db.get_for_update t k d1).1
        (λ existing u locked. (
          rocks.get_for_update-reads t u k d1 existing locked
              ∙ ap (λ g. g k) (rocks.pending-transaction d (content d1) ∙ same),
          λ g.
              rocks.pending-get_for_update t u k d1 existing g locked
              ∙ rocks.pending-transaction d g,
        ))
        (rocks.content-get_for_update t k d1 ∙ same)
