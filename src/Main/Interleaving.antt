-- ===== src/Main/Interleaving.antt =====
-- The requests of src/main.rs that touch the metadata cache of src/core.rs, interleaved: a thread
-- may be overtaken by any other between two of its accesses to the cache and the databases.
pub mod Moves
pub mod Runs
pub mod Origin
pub mod Quiescence
use findex_cloud.Base.{ℕ, Bytes, Option, none, some, ◌≡◌, ite, ℕ_discrete}
use findex_cloud.Errors.{Result, ok, err, panicked}
use findex_cloud.Core.{Index, NewIndex, MetadataDatabase}
use findex_cloud.Core.Cache.{Server, on_metadata, cache_get, cache_remove, modify_cache, remember}

-- Where a request stands, with the variables that are live there.
pub data Phase : Type 0 where
  idle : Phase
  missed : (id : Bytes) → Phase  -- `get_index_with_cache`, the cache has been read and released
  looked_up : (id : Bytes) → (found : Option Index) → Phase  -- there, before `cache.write`
  deleted : (id : Bytes) → Phase  -- `delete_index`, before `cache.write`

abbrev pub update : {A : Type 0} → (ℕ → A) → ℕ → A → ℕ → A
update f i a j = ite (ℕ_discrete i j) a (f j)

-- A thread that has no request stays idle.
pub record System (M I : Type 0) : Type 0 where
  pub server : Server M I
  pub phase : ℕ → Phase

-- A database call that fails ends the request.
unfoldable pub queried : Bytes → Result (Option Index) → Phase
queried id (ok found) = looked_up id found
queried id (err _) = idle
queried id panicked = idle

unfoldable pub row_deleted : Bytes → Result (Unit {0}) → Phase
row_deleted id (ok _) = deleted id
row_deleted id (err _) = idle
row_deleted id panicked = idle

module _ {M I : Type 0} where
  abbrev pub moved : System M I → ℕ → Server M I → Phase → System M I
  moved s i server p = record { server = server; phase = update s.phase i p }

  -- A lookup of the ID has read a row and goes on to cache it.
  abbrev pub InFlight : Bytes → Index → System M I → Type 0
  InFlight id index s = (i : ℕ) × (s.phase i ≡ looked_up id (some index))

  -- A deletion of the ID has removed the row and goes on to evict the cached copy.
  abbrev pub Evicting : Bytes → System M I → Type 0
  Evicting id s = (i : ℕ) × (s.phase i ≡ deleted id)

-- One access of one thread. `CanDelete` restricts when the row of an ID is deleted; the accesses to
-- the store of the indexes are left open, and so are the creations.
pub data Step {M I : Type 0} (db : MetadataDatabase M) (CanDelete : Bytes → System M I → Type 0)
    (s : System M I) : System M I → Type 0 where
  miss :
      (i : ℕ) (id : Bytes)
      → s.phase i ≡ idle
      → cache_get s.server.cache id ≡ none
      → Step db CanDelete s (moved s i s.server (missed id))
  query :
      (i : ℕ) (id : Bytes)
      → s.phase i ≡ missed id
      → Step db CanDelete s (
          moved s i
            (on_metadata (db.get_index id) s.server).1
            (queried id (on_metadata (db.get_index id) s.server).0))
  fill :
      (i : ℕ) (id : Bytes) (found : Option Index)
      → s.phase i ≡ looked_up id found
      → Step db CanDelete s (moved s i (remember db id found s.server).1 idle)
  delete :
      (i : ℕ) (id : Bytes)
      → s.phase i ≡ idle
      → CanDelete id s
      → Step db CanDelete s (
          moved s i
            (on_metadata (db.delete_index id) s.server).1
            (row_deleted id (on_metadata (db.delete_index id) s.server).0))
  evict :
      (i : ℕ) (id : Bytes)
      → s.phase i ≡ deleted id
      → Step db CanDelete s (moved s i (modify_cache (cache_remove id) s.server).1 idle)
  create :
      (new_index : NewIndex)
      → Step db CanDelete s
          (record s { server = (on_metadata (db.create_index new_index) s.server).1 })
  list : Step db CanDelete s (record s { server = (on_metadata db.get_indexes s.server).1 })
  access :
      (store : I) → Step db CanDelete s (record s { server = record s.server { store = store } })

pub data Reach {M I : Type 0} (db : MetadataDatabase M) (CanDelete : Bytes → System M I → Type 0)
    (s : System M I) : System M I → Type 0 where
  start : Reach db CanDelete s s
  later :
      {t u : System M I} → Reach db CanDelete s t → Step db CanDelete t u → Reach db CanDelete s u

abbrev pub Anytime : {M I : Type 0} → Bytes → System M I → Type 0
Anytime id s = Unit {0}
