-- ===== src/Main/Coherence.antt =====
-- Every handler of src/main.rs keeps the cache in agreement with the metadata database.
use findex_cloud.Base.{Bytes, bytes_eq, none, ◌≡◌, ◌≢◌, refl, sym, subst}
use findex_cloud.Errors.{Result, ok, err, panicked}
use findex_cloud.Exec.Laws.{post_rule}
use findex_cloud.Core.{NewIndex, MetadataDatabase, IndexesDatabase}
use findex_cloud.Core.Cache.{Server, on_metadata, cache_get, cache_remove, modify_cache}
use findex_cloud.Core.Cache.Laws.{
  without, Rows, IsMetadata, IsCoherent, IsCoherent-rows, IsCoherent-remove, cache_get-removed,
}
use findex_cloud.Main.{Draws, post_indexes, delete_index}

module _ {M I : Type 0} (db : MetadataDatabase M) (rows : M → Rows) (meta : IsMetadata db rows)
    (store_db : IndexesDatabase I) where
  -- A deletion that succeeds leaves neither a row nor a cached copy; one that fails leaves every row.
  abbrev pub DeletePost : Server M I → Bytes → Result (Unit {0}) × Server M I → Type 0
  DeletePost s id (ok _, s') =
      IsCoherent rows s'
      × (rows s'.metadata ≡ without (rows s.metadata) id)
      × (cache_get s'.cache id ≡ none)
      × (s'.store ≡ s.store)
  DeletePost s id (err _, s') = IsCoherent rows s' × (rows s'.metadata ≡ rows s.metadata)
  DeletePost s id (panicked, s') = IsCoherent rows s' × (rows s'.metadata ≡ rows s.metadata)

  abbrev RowDeleted : Server M I → Bytes → Result (Unit {0}) × Server M I → Type 0
  RowDeleted s id (ok _, s') =
      (m : M) × (rows m ≡ without (rows s.metadata) id) × (s' ≡ record s { metadata = m })
  RowDeleted s id (err _, s') = IsCoherent rows s' × (rows s'.metadata ≡ rows s.metadata)
  RowDeleted s id (panicked, s') = IsCoherent rows s' × (rows s'.metadata ≡ rows s.metadata)

  delete_row :
      (s : Server M I) (id : Bytes)
      → IsCoherent rows s
      → RowDeleted s id (on_metadata (db.delete_index id) s)
  unfolding on_metadata
  delete_row s id h = go (db.delete_index id s.metadata).0 refl
    where
      m : M
      m = (db.delete_index id s.metadata).1

      kept :
          (db.delete_index id s.metadata).0 ≢ ok tt
          → IsCoherent rows (record s { metadata = m }) × (rows m ≡ rows s.metadata)
      kept failed =
          let same = meta.delete_index-fails id s.metadata failed in
          (IsCoherent-rows db rows meta s m same h, same)

      go :
          (r : Result (Unit {0}))
          → (db.delete_index id s.metadata).0 ≡ r
          → RowDeleted s id (r, record s { metadata = m })
      go (ok _) e = (m, meta.delete_index-removes id s.metadata e, refl)
      go (err x) e = kept (λ e'. cc)
      go panicked e = kept (λ e'. cc)

  -- From a coherent cache, `delete_index` keeps the cache coherent; if it succeeds there is neither
  -- a row nor a cached copy of the ID and nothing else has changed in the rows or the store; if it
  -- fails no row has changed.
  pub delete_index-post :
      (s : Server M I) (id : Bytes)
      → IsCoherent rows s
      → DeletePost s id (delete_index db store_db id s)
  unfolding delete_index modify_cache
  delete_index-post s id h =
      post_rule (on_metadata (db.delete_index id)) _ s (RowDeleted s id) (DeletePost s id)
        (delete_row s id h)
        (λ _ s' (m, removed, same).
          subst (λ t. DeletePost s id (ok tt, record t { cache = cache_remove id t.cache }))
            (sym same)
            (
              IsCoherent-remove db rows meta s id m removed h,
              removed,
              cache_get-removed db rows meta s id,
              refl,
            ))
        (λ _ _ kept. kept) (λ _ kept. kept)

  IsCoherent-created :
      (s : Server M I) (new_index : NewIndex)
      → IsCoherent rows s
      → IsCoherent rows (record s { metadata = (db.create_index new_index s.metadata).1 })
  IsCoherent-created s new_index h id index cached =
      meta.create_index-keeps new_index s.metadata id index (h id index cached)

  -- `post_indexes` keeps a coherent cache coherent, whatever the database answers.
  pub post_indexes-IsCoherent :
      (s : Server M I) (name : Bytes) (rng : Draws)
      → IsCoherent rows s
      → IsCoherent rows (post_indexes db store_db name rng s).1
  unfolding post_indexes on_metadata
  post_indexes-IsCoherent s name rng h = IsCoherent-created s _ h
