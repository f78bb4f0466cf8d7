-- ===== src/Main/Listing.antt =====
-- `get_indexes` of src/main.rs with the metadata in SQLite and the values in LMDB.
use mathlib.Core.List.{Perm}
use findex_cloud.Base.{some, List, [], ◌∷◌, map, ◌≡◌, refl, ap₂, subst}
use findex_cloud.Words.Signed.{as_i64}
use findex_cloud.Errors.{Result, ok, err, panicked}
use findex_cloud.Exec.Laws.{post_rule}
use findex_cloud.Core.{Index, set_sizes}
use findex_cloud.Core.Cache.{Server, on_metadata, on_store}
use findex_cloud.Spec.{Content, size_of}
use findex_cloud.Heed
use findex_cloud.Heed.Keys.{layout}
use findex_cloud.Heed.Txn.{Lmdb, IsLmdb}
use findex_cloud.Heed.Atomic.{AllOrNothing, set_size-atomic}
use findex_cloud.Sqlite
use findex_cloud.Sqlite.Table.{Db}
use findex_cloud.Sqlite.Order.{NewestFirst, SortedPost, get_indexes-sorted}
use findex_cloud.Main.{get_indexes}

module _ (db : Lmdb) (lmdb : IsLmdb db) where
  open lmdb use {content}

  -- An index with the size that its cell holds.
  abbrev pub sized : Content → Index → Index
  sized f index = record index { size = some (as_i64 (size_of layout index.id f)) }

  set_sizes-reads :
      (indexes : List Index) (f : Content) (e : db.Env)
      → content e ≡ f
      → AllOrNothing db lmdb (map (sized f) indexes) f f (set_sizes (Heed.database db) indexes e)
  unfolding set_sizes Heed.database
  set_sizes-reads [] f e start = (refl, start)
  set_sizes-reads (index ∷ indexes) f e start =
      let reads = AllOrNothing db lmdb (map (sized f) (index ∷ indexes)) f f in
      post_rule (Heed.set_size db index) _ e (AllOrNothing db lmdb (sized f index) f f) reads
        (subst (λ g. AllOrNothing db lmdb (sized g index) g g (Heed.set_size db index e)) start
          (set_size-atomic db lmdb index e))
        (λ index' e' (same, kept).
          post_rule (set_sizes (Heed.database db) indexes) _ e'
            (AllOrNothing db lmdb (map (sized f) indexes) f f) reads
            (set_sizes-reads indexes f e' kept)
            (λ rest e'' (same', kept'). (ap₂ ◌∷◌ same same', kept')) (λ _ _ kept'. kept')
            (λ _ impossible. impossible))
        (λ _ _ kept. kept) (λ _ impossible. impossible)

  -- Neither the rows, nor the values, nor the cache have changed.
  abbrev pub Kept : Server Db db.Env → Server Db db.Env → Type 0
  Kept s s' =
      (s'.metadata.rows ≡ s.metadata.rows)
      × (content s'.store ≡ content s.store)
      × (s'.cache ≡ s.cache)

  abbrev pub ListedPost : Server Db db.Env → Result (List Index) × Server Db db.Env → Type 0
  ListedPost s (ok indexes, s') =
      ((rows : List Index) × NewestFirst rows
        × Perm rows s.metadata.rows
        × (indexes ≡ map (sized (content s.store)) rows))
      × Kept s s'
  ListedPost s (err _, s') = Kept s s'
  ListedPost s (panicked, s') = ⊥

  abbrev RowsPost : Server Db db.Env → Result (List Index) × Server Db db.Env → Type 0
  RowsPost s (ok indexes, s') =
      NewestFirst indexes × Perm indexes s.metadata.rows × (s'.store ≡ s.store) × Kept s s'
  RowsPost s (err _, s') = Kept s s'
  RowsPost s (panicked, s') = ⊥

  rows_listed : (s : Server Db db.Env) → RowsPost s (on_metadata Sqlite.get_indexes s)
  unfolding on_metadata
  rows_listed s = go (Sqlite.get_indexes s.metadata) (get_indexes-sorted s.metadata)
    where
      go :
          (p : Result (List Index) × Db)
          → SortedPost s.metadata.rows p
          → RowsPost s (p.0, record s { metadata = p.1 })
      go (ok indexes, d) (newest, perm, kept) = (newest, perm, refl, (kept, refl, refl))
      go (err _, d) kept = (kept, refl, refl)
      go (panicked, d) impossible = impossible

  sizes_set :
      (s s' : Server Db db.Env) (indexes : List Index)
      → NewestFirst indexes
      → Perm indexes s.metadata.rows
      → Kept s s'
      → ListedPost s (on_store (set_sizes (Heed.database db) indexes) s')
  unfolding on_store
  sizes_set s s' indexes newest perm (rows_kept, store_kept, cache_kept) =
      go (set_sizes (Heed.database db) indexes s'.store)
        (set_sizes-reads indexes (content s.store) s'.store store_kept)
    where
      go :
          (p : Result (List Index) × db.Env)
          → AllOrNothing db lmdb
              (map (sized (content s.store)) indexes)
              (content s.store)
              (content s.store)
              p
          → ListedPost s (p.0, record s' { store = p.1 })
      go (ok sizes, e) (same, kept) = ((indexes, newest, perm, same), (rows_kept, kept, cache_kept))
      go (err _, e) kept = (rows_kept, kept, cache_kept)
      go (panicked, e) impossible = impossible

  -- `get_indexes` of the service, with SQLite and LMDB, if it returns, lists every row of the
  -- metadata once, none before one that was created later, in whatever order SQLite gives rows of
  -- one instant, each with the size that its cell holds as an `i64`; it changes no row, no value
  -- and not the cache, also when it fails, and does not panic.
  pub get_indexes-lists :
      (s : Server Db db.Env) → ListedPost s (get_indexes Sqlite.database (Heed.database db) s)
  unfolding get_indexes Sqlite.database
  get_indexes-lists s =
      post_rule (on_metadata Sqlite.get_indexes) _ s (RowsPost s) (ListedPost s) (rows_listed s)
        (λ indexes s' (newest, perm, _, kept). sizes_set s s' indexes newest perm kept)
        (λ _ _ kept. kept) (λ _ impossible. impossible)
