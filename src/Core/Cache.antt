-- ===== src/Core/Cache.antt =====
-- `MetadataCache`, `get_index_with_cache` and the `FromRequest` impl of src/core.rs.
pub mod Laws
use findex_cloud.Base.{Bytes, bytes_eq, Option, none, some, List, Bool, true, false}
use findex_cloud.Base.HashMap.{get, insert, remove}
use findex_cloud.Errors.{wrong_index_public_id, bad_request, unknown_index}
use findex_cloud.Exec.{Exec, pure, raise, ◌>>=◌, ◌>>◌}
use findex_cloud.Core.{Index, MetadataDatabase}

-- `RwLock<HashMap<String, Index>>`. A lock is poisoned once a thread has panicked that held it.
pub record MetadataCache : Type 0 where
  pub poisoned : Bool
  pub indexes : List (Bytes × Index)

-- The state that all requests share: the cache and what the two databases hold.
pub record Server (M I : Type 0) : Type 0 where
  pub cache : MetadataCache
  pub metadata : M
  pub store : I

module _ {M I A : Type 0} where
  unfoldable pub on_metadata : Exec M A → Exec (Server M I) A
  on_metadata m s = let (r, metadata') = m s.metadata in (r, record s { metadata = metadata' })

  unfoldable pub on_store : Exec I A → Exec (Server M I) A
  on_store m s = let (r, store') = m s.store in (r, record s { store = store' })

abbrev if_readable : Bool → Option Index → Option Index
if_readable true found = none
if_readable false found = found

-- `cache.read()` and `get`: a poisoned cache is passed over.
unfoldable pub cache_get : MetadataCache → Bytes → Option Index
cache_get cache id = if_readable cache.poisoned (get id cache.indexes)

abbrev if_writable : Bool → List (Bytes × Index) → List (Bytes × Index) → List (Bytes × Index)
if_writable true old new = old
if_writable false old new = new

unfoldable pub cache_insert : Bytes → Index → MetadataCache → MetadataCache
cache_insert id index cache = record cache {
  indexes = if_writable cache.poisoned cache.indexes (insert id index cache.indexes);
}

unfoldable pub cache_remove : Bytes → MetadataCache → MetadataCache
cache_remove id cache = record cache {
  indexes = if_writable cache.poisoned cache.indexes (remove id cache.indexes);
}

module _ {M I : Type 0} where
  unfoldable pub modify_cache : (MetadataCache → MetadataCache) → Exec (Server M I) (Unit {0})
  modify_cache f s = pure tt (record s { cache = f s.cache })

  unfoldable pub read_cache : Bytes → Exec (Server M I) (Option Index)
  read_cache id s = pure (cache_get s.cache id) s

module _ {M I : Type 0} where
  unfoldable pub known_or_bad : Bytes → Option Index → Exec (Server M I) Index
  known_or_bad id none = raise (bad_request (unknown_index id))
  known_or_bad id (some index) = pure index

module _ {M I : Type 0} (db : MetadataDatabase M) where
  -- What the database has found goes into the cache.
  unfoldable pub remember : Bytes → Option Index → Exec (Server M I) (Option Index)
  remember id none = pure none
  remember id (some index) = do modify_cache (cache_insert id index); pure (some index)

  unfoldable pub after_cache : Bytes → Option Index → Exec (Server M I) (Option Index)
  after_cache id (some index) = pure (some index)
  after_cache id none = do index ← on_metadata (db.get_index id); remember id index

  unfoldable pub get_index_with_cache : Bytes → Exec (Server M I) (Option Index)
  get_index_with_cache id = do cached ← read_cache id; after_cache id cached

  -- `from_request`; the path is none where it does not hold one ID.
  unfoldable pub from_request : Option Bytes → Exec (Server M I) Index
  from_request none = raise wrong_index_public_id
  from_request (some id) = do index ← get_index_with_cache id; known_or_bad id index
