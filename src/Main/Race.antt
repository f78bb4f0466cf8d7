-- ===== src/Main/Race.antt =====
-- A lookup of src/core.rs that is overtaken by `delete_index` of src/main.rs.
use findex_cloud.Base.{
  Bytes, bytes_eq, Option, none, some, false, ◌≡◌, refl, sym, ap, subst, ◌∙◌, ==_refl, arith,
}
use findex_cloud.Base.HashMap.{get-insert}
use findex_cloud.Errors.{ok}
use findex_cloud.Exec.{continue, ◌>>=◌}
use findex_cloud.Core.{Index, MetadataDatabase, IndexesDatabase}
use findex_cloud.Core.Cache.{
  MetadataCache, Server, on_metadata, cache_get, cache_insert, cache_remove, modify_cache,
  read_cache, remember, after_cache, get_index_with_cache,
}
use findex_cloud.Core.Cache.Laws.{Rows, IsMetadata}
use findex_cloud.Main.{delete_index}

cache_get-filled :
    (id : Bytes) (index : Index) (c : MetadataCache)
    → c.poisoned ≡ false
    → cache_get (cache_insert id index c) id ≡ some index
unfolding cache_get cache_insert
cache_get-filled id index c writable = ground (arith, get-insert id id index c.indexes, ==_refl id)

module _ {M I : Type 0} (db : MetadataDatabase M) (rows : M → Rows) (meta : IsMetadata db rows)
    (store_db : IndexesDatabase I) where
  -- A request that missed the cache reads the row; another one deletes the index; the first one
  -- goes on and caches what it has read.
  abbrev pub overtaken : Server M I → Bytes → Index → Server M I
  overtaken s id index =
      let s1 = (on_metadata (db.get_index id) s).1 in
      let s2 = (delete_index db store_db id s1).1 in (remember db id (some index) s2).1

  abbrev Stale : Bytes → Index → Server M I → Type 0
  Stale id index s =
      (rows s.metadata id ≡ none) × ((get_index_with_cache db id s).0 ≡ ok (some index))

  hit :
      (id : Bytes) (index : Index) (s : Server M I) (o : Option Index)
      → o ≡ some index
      → (after_cache db id o s).0 ≡ ok (some index)
  unfolding after_cache
  hit id index s o e = subst (λ q. (after_cache db id q s).0 ≡ ok (some index)) (sym e) refl

  filled :
      (s : Server M I) (id : Bytes) (index : Index) (m : M)
      → s.cache.poisoned ≡ false
      → rows m id ≡ none
      → Stale id index
          (record s { cache = cache_insert id index (cache_remove id s.cache); metadata = m })
  unfolding get_index_with_cache read_cache ◌>>=◌ cache_remove
  filled s id index m writable gone =
      (gone, hit id index _ _ (cache_get-filled id index (cache_remove id s.cache) writable))

  -- If a lookup has read the row of an index and a deletion of this index then succeeds before the
  -- lookup goes on, and the lock is not poisoned, the lookup leaves the deleted index in the cache:
  -- there is no row, and the next lookup still answers with the index.
  pub overtaken_lookup-Stale :
      (s : Server M I) (id : Bytes) (index : Index)
      → s.cache.poisoned ≡ false
      → (db.get_index id s.metadata).0 ≡ ok (some index)
      → (db.delete_index id (db.get_index id s.metadata).1).0 ≡ ok tt
      → (rows (overtaken s id index).metadata id ≡ none)
        × ((get_index_with_cache db id (overtaken s id index)).0 ≡ ok (some index))
  unfolding on_metadata delete_index remember modify_cache ◌>>=◌
  overtaken_lookup-Stale s id index writable read deleted =
      let m1 = (db.get_index id s.metadata).1 in
      let m2 = (db.delete_index id m1).1 in
      let gone : rows m2 id ≡ none =
        ap (λ f. f id) (meta.delete_index-removes id m1 deleted) ∙ rw (==_refl id) refl in
      subst
        (λ r. Stale id index (
          (remember db id (some index)
            (continue r (λ _. modify_cache (cache_remove id)) (record s { metadata = m2 })).1).1))
        (sym deleted) (filled s id index m2 writable gone)
