-- ===== src/Rocksdb/Locks/Held.antt =====
-- What the calls of an item of src/rocksdb.rs leave alone, and where its phases come from.
use findex_cloud.Base.{
  ℕ, Bytes, bytes_eq, ◌≡◌, ◌≢◌, ◌⊎◌, inl, inr, refl, ap, sym, subst, ◌∙◌, beq-false_of_ne,
  Bool-cases, String, arith,
}
use text.Mathlib.Text.{◌==◌ as str_eq}
use findex_cloud.Errors.{rocksdb, Result, ok, err, panicked, failed}
use findex_cloud.Exec.Laws.{attempt_rule, post_rule}
use findex_cloud.Core.{Table, EncryptedTable, UpsertItem}
use findex_cloud.Spec
use findex_cloud.Spec.{Content, Layout, update as written, IsSized}
use findex_cloud.Spec.Relaxed.{ItemStep}
use findex_cloud.Spec.Sizes.{ItemStep-IsSized}
use findex_cloud.Rocksdb.{on_lock, timed_out, retry_loop, lock_timeout}
use findex_cloud.Rocksdb.Keys.{key, size_key, layout, layout-IsInjective}
use findex_cloud.Rocksdb.Client.{Rocks, IsRocks}
use findex_cloud.Rocksdb.Accepts.{ItemPost}
use findex_cloud.Rocksdb.Timeouts.{RetryPost, retry_loop-reads}
use findex_cloud.Rocksdb.Locks.{update, entry}

pub update_cases :
    {A : Type 0} (f : ℕ → A) (i j : ℕ) (a b : A)
    → update f i a j ≡ b
    → ((i ≡ j) × (a ≡ b)) ⊎ ((i ≢ j) × (f j ≡ b))
update_cases f i j a b h = ground arith

-- A swap of one entry leaves every other entry alone.
upsert_one-elsewhere :
    (l : Layout) (id : Bytes) (f : Content) (r : EncryptedTable) (item : UpsertItem) (k : Bytes)
    → l.key id Table.entries item.uid ≢ k
    → l.size_key id ≢ k
    → (Spec.upsert_one l id (f, r) item).0 k ≡ f k
unfolding Spec.upsert_one Spec.accept Spec.grow
upsert_one-elsewhere l id f r item k other not_size = ground (
  arith,
  beq-false_of_ne (l.key id Table.entries item.uid) k other,
  beq-false_of_ne (l.size_key id) k not_size,
)

module _ (db : Rocks) (rocks : IsRocks db) (id : Bytes) where
  open rocks use {content}

  ItemStep-elsewhere :
      (f g : Content) (r r' : EncryptedTable) (item item' : UpsertItem)
      → entry db id item ≢ entry db id item'
      → ItemStep layout id (f, r) item (g, r')
      → g (entry db id item') ≡ f (entry db id item')
  ItemStep-elsewhere f g r r' item item' other (inl swapped) =
      ap (λ st. st.0 (entry db id item')) swapped
      ∙ upsert_one-elsewhere layout id f r item (entry db id item') other
          (λ e. layout-IsInjective.key-ne-size_key id id Table.entries item'.uid refl (sym e))
  ItemStep-elsewhere f g r r' item item' other (inr (v, _, same)) =
      ap (λ st. st.0 (entry db id item')) same

  pub ItemPost-elsewhere :
      (f : Content) (r : EncryptedTable) (item item' : UpsertItem)
      (p : Result EncryptedTable × db.Db)
      → entry db id item ≢ entry db id item'
      → ItemPost db rocks id f r item p
      → content p.1 (entry db id item') ≡ f (entry db id item')
  ItemPost-elsewhere f r item item' (ok r', d) other post =
      ItemStep-elsewhere f (content d) r r' item item' other post
  ItemPost-elsewhere f r item item' (err _, d) other unchanged =
      ap (λ g. g (entry db id item')) unchanged
  ItemPost-elsewhere f r item item' (panicked, d) other impossible = absurd impossible

  pub ItemPost-IsSized :
      (f : Content) (r : EncryptedTable) (item : UpsertItem) (p : Result EncryptedTable × db.Db)
      → IsSized (f (size_key id))
      → ItemPost db rocks id f r item p
      → IsSized (content p.1 (size_key id))
  ItemPost-IsSized f r item (ok r', d) sized step =
      ItemStep-IsSized layout layout-IsInjective id (f, r) item (content d, r') step sized
  ItemPost-IsSized f r item (err _, d) sized unchanged =
      subst (λ g. IsSized (g (size_key id))) (sym unchanged) sized
  ItemPost-IsSized f r item (panicked, d) sized impossible = absurd impossible

  module _ (f : Content) (sized : IsSized (f (size_key id))) where
    RetryPost-kept :
        (k : Bytes) (p : Result Bytes × db.Db) → RetryPost db rocks id f sized k p → content p.1 ≡ f
    RetryPost-kept k (ok v, d) (_, kept) = kept
    RetryPost-kept k (err _, d) kept = kept
    RetryPost-kept k (panicked, d) impossible = absurd impossible

    timed_out-content :
        (t : db.Txn) (item : UpsertItem) (text : String) (r : EncryptedTable) (d : db.Db)
        → content d ≡ f
        → content (timed_out db id t item text r d).1 ≡ f
    unfolding timed_out
    timed_out-content t item text r d start =
        let k = key id Table.entries item.uid in
        let d1 = (db.rollback t d).1 in
        let back = rocks.content-rollback t d ∙ start in
        attempt_rule rocksdb (db.rollback t) _ d (λ p. content p.1 ≡ f)
          (λ _ _.
            post_rule (retry_loop db id 3 k text) _ d1 (RetryPost db rocks id f sized k)
              (λ p. content p.1 ≡ f) (retry_loop-reads db rocks id f sized 3 k text d1 back)
              (λ v d' (_, kept). kept) (λ _ _ kept. kept) (λ _ impossible. absurd impossible))
          (λ _ _. back)

    -- Where the lock was not given, nothing is written.
    pub not_locked-content :
        (text : String) (t : db.Txn) (item : UpsertItem) (r : EncryptedTable) (d : db.Db)
        → content d ≡ f
        → content (on_lock db id (failed text) t item r d).1 ≡ f
    unfolding on_lock
    not_locked-content text t item r d start = elim (Bool-cases (str_eq text lock_timeout)) [
      | inl busy ↦ rw busy (timed_out-content t item text r d start)
      | inr other ↦ rw other start
    ]
