-- ===== src/Rocksdb/Loop.antt =====
-- `upsert_entries` of src/rocksdb.rs over all its items.
use findex_cloud.Base.{Bytes, [], ◌∷◌, ◌++◌, ◌≡◌, refl, ap, sym}
use findex_cloud.Errors.{Result, ok, err, panicked}
use findex_cloud.Exec.Laws.{post_rule}
use findex_cloud.Core.{EncryptedTable, UpsertItem, UpsertData}
use findex_cloud.Spec.{Content, IsSized}
use findex_cloud.Spec.Relaxed.{ItemStep, Upserts}
use findex_cloud.Spec.Sizes.{ItemStep-IsSized}
use findex_cloud.Rocksdb.{upsert_one, upsert_loop}
use findex_cloud.Rocksdb.Keys.{size_key, layout, layout-IsInjective}
use findex_cloud.Rocksdb.Client.{Rocks, IsRocks}
use findex_cloud.Rocksdb.Accepts.{ItemPost}
use findex_cloud.Rocksdb.Writes.{upsert_one-post}

module _ (db : Rocks) (rocks : IsRocks db) (id : Bytes) where
  open rocks use {content}

  -- The items before the one that failed have been written.
  pub record StoppedAt (f : Content) (r : EncryptedTable) (items : UpsertData) (g : Content)
      : Type 0 where
    pub before : UpsertData
    pub after : UpsertData
    pub split : items ≡ before ++ after
    pub rejected : EncryptedTable
    pub steps : Upserts layout id (f, r) before (g, rejected)

  -- A run returns what the items leave one after the other, or fails after some of them.
  abbrev pub UpsertsPost :
      Content → EncryptedTable → UpsertData → Result EncryptedTable × db.Db → Type 0
  UpsertsPost f r items (ok r', d) = Upserts layout id (f, r) items (content d, r')
  UpsertsPost f r items (err _, d) = StoppedAt f r items (content d)
  UpsertsPost f r items (panicked, d) = ⊥

  -- One item, and what a run of the rest ends with.
  first_then_rest :
      (f g : Content) (r r' : EncryptedTable) (item : UpsertItem) (rest : UpsertData)
      → ItemStep layout id (f, r) item (g, r')
      → (p : Result EncryptedTable × db.Db) → UpsertsPost g r' rest p
      → UpsertsPost f r (item ∷ rest) p
  first_then_rest f g r r' item rest step (ok r'', d) later = ((g, r'), step, later)
  first_then_rest f g r r' item rest step (err _, d) stopped = record {
    before = item ∷ stopped.before;
    after = stopped.after;
    split = ap (λ l. item ∷ l) stopped.split;
    rejected = stopped.rejected;
    steps = ((g, r'), step, stopped.steps);
  }
  first_then_rest f g r r' item rest step (panicked, d) impossible = impossible

  -- From a well-formed size cell, the loop of `upsert_entries` on RocksDB returns what its items
  -- leave one after the other, each compared and swapped or reported with the value in its cell, or
  -- fails after a first part of the items has been so written; it does not panic.
  pub upsert_loop-post :
      (items : UpsertData) (r : EncryptedTable) (d : db.Db)
      → IsSized (content d (size_key id))
      → UpsertsPost (content d) r items (upsert_loop db id items r d)
  unfolding upsert_loop
  upsert_loop-post [] r d sized = refl
  upsert_loop-post (item ∷ rest) r d sized =
      post_rule (upsert_one db id item r) _ d (ItemPost db rocks id (content d) r item)
        (UpsertsPost (content d) r (item ∷ rest)) (upsert_one-post db rocks id item r d sized)
        (λ r' d' step.
          first_then_rest (content d) (content d') r r' item rest step
            (upsert_loop db id rest r' d')
            (upsert_loop-post rest r' d' (
              ItemStep-IsSized layout layout-IsInjective id (content d, r) item (content d', r')
                step sized)))
        (λ _ d' unchanged. record {
          before = [];
          after = item ∷ rest;
          split = refl;
          rejected = r;
          steps = λ i. (sym unchanged i, r);
        })
        (λ _ impossible. impossible)
