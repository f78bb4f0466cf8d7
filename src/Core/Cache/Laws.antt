-- ===== src/Core/Cache/Laws.antt =====
-- The contract of `MetadataDatabase`, and that the cache keeps agreeing with it.
use findex_cloud.Base.{
  Bytes, bytes_eq, Option, none, some, ◌≡◌, ◌≢◌, ◌⊎◌, inl, inr, refl, sym, ap, ◌∙◌, ◌==◌,
  if◌then◌else◌, arith, Option-cases, beq-false_of_ne,
}
use findex_cloud.Base.HashMap.{get-insert, get-remove}
use findex_cloud.Errors.{Result, ok, err, panicked}
use findex_cloud.Exec.{◌>>=◌}
use findex_cloud.Exec.Laws.{post_rule}
use findex_cloud.Core.{Index, NewIndex, MetadataDatabase}
use findex_cloud.Core.Cache.{
  MetadataCache, Server, on_metadata, cache_get, cache_insert, cache_remove, modify_cache,
  read_cache, remember, after_cache, get_index_with_cache, known_or_bad, from_request,
}

abbrev pub Rows : Type 0
Rows = Bytes → Option Index

abbrev pub without : Rows → Bytes → Rows
without rows id j = if id == j then none else rows j

-- A database of indexes: `rows` is the index stored under each ID. A deletion that succeeds removes
-- the row of its ID and one that fails removes nothing; no creation changes a row that is there.
pub record IsMetadata {M : Type 0} (db : MetadataDatabase M) (rows : M → Rows) : Type 0 where
  pub get_index-reads :
      (id : Bytes) (m : M) (o : Option Index) → (db.get_index id m).0 ≡ ok o → o ≡ rows m id
  pub get_index-keeps : (id : Bytes) (m : M) → rows (db.get_index id m).1 ≡ rows m
  pub get_indexes-keeps : (m : M) → rows (db.get_indexes m).1 ≡ rows m
  pub delete_index-removes :
      (id : Bytes) (m : M)
      → (db.delete_index id m).0 ≡ ok tt
      → rows (db.delete_index id m).1 ≡ without (rows m) id
  pub delete_index-fails :
      (id : Bytes) (m : M)
      → (db.delete_index id m).0 ≢ ok tt
      → rows (db.delete_index id m).1 ≡ rows m
  pub create_index-keeps :
      (new_index : NewIndex) (m : M) (id : Bytes) (index : Index)
      → rows m id ≡ some index
      → rows (db.create_index new_index m).1 id ≡ some index

pub cache_get-insert :
    (id j : Bytes) (index found : Index) (c : MetadataCache)
    → cache_get (cache_insert id index c) j ≡ some found
    → ((id ≡ j) × (index ≡ found)) ⊎ (cache_get c j ≡ some found)
unfolding cache_get cache_insert
cache_get-insert id j index found c h =
    ground (arith, get-insert id j index c.indexes, bytes_eq.same_iff id j)

pub cache_get-remove :
    (id j : Bytes) (found : Index) (c : MetadataCache)
    → cache_get (cache_remove id c) j ≡ some found
    → (id ≢ j) × (cache_get c j ≡ some found)
unfolding cache_get cache_remove
cache_get-remove id j found c h = ground (arith, get-remove id j c.indexes, bytes_eq.same_iff id j)

module _ {M I : Type 0} (rows : M → Rows) where
  -- Whatever the cache holds is what the database holds.
  abbrev pub IsCoherent : Server M I → Type 0
  IsCoherent s =
      (id : Bytes) (index : Index)
      → cache_get s.cache id ≡ some index
      → rows s.metadata id ≡ some index

  -- A lookup answers with the row of the database, keeps the cache coherent, and changes no row and
  -- nothing in the store.
  pub record Unchanged (s s' : Server M I) : Type 0 where
    pub coherent : IsCoherent s'
    pub rows_kept : rows s'.metadata ≡ rows s.metadata
    pub store_kept : s'.store ≡ s.store

  abbrev pub LookupPost : Server M I → Bytes → Result (Option Index) × Server M I → Type 0
  LookupPost s id (ok o, s') = (o ≡ rows s.metadata id) × Unchanged s s'
  LookupPost s id (err _, s') = Unchanged s s'
  LookupPost s id (panicked, s') = Unchanged s s'

  -- A request is given the index of its path, or refused; in either case nothing is written.
  abbrev pub RequestPost : Server M I → Bytes → Result Index × Server M I → Type 0
  RequestPost s id (ok index, s') = (rows s.metadata id ≡ some index) × Unchanged s s'
  RequestPost s id (err _, s') = Unchanged s s'
  RequestPost s id (panicked, s') = Unchanged s s'

module _ {M I : Type 0} (db : MetadataDatabase M) (rows : M → Rows)
    (meta : IsMetadata db rows) where
  Unchanged-refl : (s : Server M I) → IsCoherent rows s → Unchanged rows s s
  Unchanged-refl s h = record { coherent = h; rows_kept = refl; store_kept = refl }

  pub IsCoherent-rows :
      (s : Server M I) (m : M)
      → rows m ≡ rows s.metadata
      → IsCoherent rows s
      → IsCoherent rows (record s { metadata = m })
  IsCoherent-rows s m same h id index cached = ap (λ f. f id) same ∙ h id index cached

  IsCoherent-insert :
      (s : Server M I) (id : Bytes) (index : Index)
      → rows s.metadata id ≡ some index
      → IsCoherent rows s
      → IsCoherent rows (record s { cache = cache_insert id index s.cache })
  IsCoherent-insert s id index row h j found cached =
      elim (cache_get-insert id j index found s.cache cached) [
        | inl (same, e) ↦ ap (rows s.metadata) (sym same) ∙ row ∙ ap some e
        | inr old ↦ h j found old
      ]

  lookup_database :
      (s : Server M I) (id : Bytes)
      → IsCoherent rows s
      → LookupPost rows s id (on_metadata (db.get_index id) s)
  unfolding on_metadata
  lookup_database s id h = go (db.get_index id s.metadata).0 refl
    where
      m : M
      m = (db.get_index id s.metadata).1

      same : Unchanged rows s (record s { metadata = m })
      same = record {
        coherent = IsCoherent-rows s m (meta.get_index-keeps id s.metadata) h;
        rows_kept = meta.get_index-keeps id s.metadata;
        store_kept = refl;
      }

      go :
          (r : Result (Option Index))
          → (db.get_index id s.metadata).0 ≡ r
          → LookupPost rows s id (r, record s { metadata = m })
      go (ok o) e = (meta.get_index-reads id s.metadata o e, same)
      go (err x) e = same
      go panicked e = same

  remember-post :
      (s s' : Server M I) (id : Bytes) (o : Option Index)
      → o ≡ rows s.metadata id
      → Unchanged rows s s'
      → LookupPost rows s id (remember db id o s')
  unfolding remember modify_cache ◌>>=◌
  remember-post s s' id none e u = (e, u)
  remember-post s s' id (some index) e u = (
    e,
    record {
      coherent = IsCoherent-insert s' id index (ap (λ f. f id) u.rows_kept ∙ sym e) u.coherent;
      rows_kept = u.rows_kept;
      store_kept = u.store_kept;
    },
  )

  after_cache-post :
      (s : Server M I) (id : Bytes) (o : Option Index)
      → IsCoherent rows s
      → cache_get s.cache id ≡ o
      → LookupPost rows s id (after_cache db id o s)
  unfolding after_cache
  after_cache-post s id (some index) h cached = (sym (h id index cached), Unchanged-refl s h)
  after_cache-post s id none h missed =
      post_rule (on_metadata (db.get_index id)) _ s (LookupPost rows s id) (LookupPost rows s id)
        (lookup_database s id h) (λ o s' (read, u). remember-post s s' id o read u) (λ _ _ u. u)
        (λ _ u. u)

  -- Through a coherent cache, `get_index_with_cache` returns the row that the database has for the
  -- ID, keeps the cache coherent, and changes no row and nothing in the store, also when the
  -- database fails.
  pub get_index_with_cache-reads :
      (s : Server M I) (id : Bytes)
      → IsCoherent rows s
      → LookupPost rows s id (get_index_with_cache db id s)
  unfolding get_index_with_cache read_cache ◌>>=◌
  get_index_with_cache-reads s id h = after_cache-post s id (cache_get s.cache id) h refl

  known_or_bad-post :
      (s s' : Server M I) (id : Bytes) (o : Option Index)
      → o ≡ rows s.metadata id
      → Unchanged rows s s'
      → RequestPost rows s id (known_or_bad id o s')
  unfolding known_or_bad
  known_or_bad-post s s' id none e u = u
  known_or_bad-post s s' id (some index) e u = (sym e, u)

  -- Through a coherent cache, the extractor of a request with an ID hands over the row of the
  -- database or fails, and in either case keeps the cache coherent and changes no row and nothing
  -- in the store.
  pub from_request-post :
      (s : Server M I) (id : Bytes)
      → IsCoherent rows s
      → RequestPost rows s id (from_request db (some id) s)
  unfolding from_request
  from_request-post s id h =
      post_rule (get_index_with_cache db id) _ s (LookupPost rows s id) (RequestPost rows s id)
        (get_index_with_cache-reads s id h) (λ o s' (read, u). known_or_bad-post s s' id o read u)
        (λ _ _ u. u) (λ _ u. u)

  pub IsCoherent-remove :
      (s : Server M I) (id : Bytes) (m : M)
      → rows m ≡ without (rows s.metadata) id
      → IsCoherent rows s
      → IsCoherent rows (record s { metadata = m; cache = cache_remove id s.cache })
  IsCoherent-remove s id m removed h j index cached =
      let (other, old) = cache_get-remove id j index s.cache cached in
      ap (λ f. f j) removed ∙ rw (beq-false_of_ne id j other) (h j index old)

  pub cache_get-removed :
      (s : Server M I) (id : Bytes) → cache_get (cache_remove id s.cache) id ≡ none
  cache_get-removed s id = elim (Option-cases (cache_get (cache_remove id s.cache) id)) [
    | inl gone ↦ gone
    | inr (index, found) ↦ absurd ((cache_get-remove id id index s.cache found).0 refl)
  ]
