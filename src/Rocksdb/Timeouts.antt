-- ===== src/Rocksdb/Timeouts.antt =====
-- What an item of `upsert_entries` of src/rocksdb.rs does where another client holds the lock.
use findex_cloud.Base.{
  ℕ, zero, suc, Bytes, Option, none, some, ◌≡◌, ap, sym, ◌∙◌, bytes_eq, option_eq, String, inr,
}
use findex_cloud.Base.HashMap.{insert}
use findex_cloud.Errors.{rocksdb, Result, ok, err, panicked}
use findex_cloud.Exec.{Exec, pure}
use findex_cloud.Exec.Laws.{post_rule, attempt_rule}
use findex_cloud.Core.{Table, EncryptedTable, UpsertItem}
use findex_cloud.Spec.{Content, IsSized}
use findex_cloud.Rocksdb.{retry_loop, timed_out}
use findex_cloud.Rocksdb.Keys.{key, size_key}
use findex_cloud.Rocksdb.Client.{Rocks, IsRocks}
use findex_cloud.Rocksdb.Accepts.{ItemPost}

module _ (db : Rocks) (rocks : IsRocks db) (id : Bytes) where
  open rocks use {content}

  module _ (f : Content) (sized : IsSized (f (size_key id))) where
    -- A retried read gives the value that stands in the cell.
    abbrev pub RetryPost : Bytes → Result Bytes × db.Db → Type 0
    RetryPost k (ok v, d) = (f k ≡ some v) × (content d ≡ f)
    RetryPost k (err _, d) = content d ≡ f
    RetryPost k (panicked, d) = ⊥

    pub retry_loop-reads :
        (retry : ℕ) (k : Bytes) (text : String) (d : db.Db)
        → content d ≡ f
        → RetryPost k (retry_loop db id retry k text d)
    unfolding retry_loop
    retry_loop-reads zero k text d start = start
    retry_loop-reads (suc retry) k text d start =
        attempt_rule rocksdb (db.get k) _ d (RetryPost k)
          (λ o got.
            on_read o (rocks.get-reads k d o got ∙ ap (λ g. g k) start) (db.get k d).1
              (rocks.content-get k d ∙ start) (retry_loop-reads retry k text))
          (λ _ _. rocks.content-get k d ∙ start)
      where
        on_read :
            (o : Option Bytes)
            → o ≡ f k
            → (d' : db.Db) → content d' ≡ f
            → ((d'' : db.Db) → content d'' ≡ f → RetryPost k (retry_loop db id retry k text d''))
            → RetryPost k (
                (elim o as (λ x. Exec db.Db Bytes) [
                  | some value ↦ pure value
                  | none ↦ retry_loop db id retry k text
                ])
                  d')
        on_read none e d' kept again = again d' kept
        on_read (some value) e d' kept again = (sym e, kept)

    pub timed_out-post :
        (t : db.Txn) (item : UpsertItem) (text : String) (r : EncryptedTable) (d : db.Db)
        → content d ≡ f
        → ItemPost db rocks id f r item (timed_out db id t item text r d)
    unfolding timed_out
    timed_out-post t item text r d start =
        let k = key id Table.entries item.uid in
        attempt_rule rocksdb (db.rollback t) _ d (ItemPost db rocks id f r item)
          (λ _ _.
            post_rule (retry_loop db id 3 k text) _ (db.rollback t d).1 (RetryPost k)
              (ItemPost db rocks id f r item)
              (retry_loop-reads 3 k text (db.rollback t d).1 (rocks.content-rollback t d ∙ start))
              (λ v d' (found, kept). inr (v, found, λ i. (kept i, insert item.uid v r)))
              (λ _ _ unchanged. unchanged) (λ _ impossible. impossible))
          (λ _ _. rocks.content-rollback t d ∙ start)
