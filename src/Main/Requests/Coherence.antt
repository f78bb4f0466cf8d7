-- ===== src/Main/Requests/Coherence.antt =====
-- Every sequence of requests to src/main.rs keeps the cache of src/core.rs in agreement with the
-- metadata database.
use findex_cloud.Base.{ℕ, Bytes, bytes_eq, Option, none, some, List, [], ◌∷◌}
use findex_cloud.Errors.{Result, ok, err, panicked}
use findex_cloud.Exec.{Exec, lift, ◌>>=◌}
use findex_cloud.Exec.Laws.{keep_rule}
use findex_cloud.Core.{Index, Table, MetadataDatabase, IndexesDatabase, set_sizes}
use findex_cloud.Core.Signature.{Crypto}
use findex_cloud.Core.Cache.{
  Server, on_metadata, on_store, get_index_with_cache, known_or_bad, from_request,
}
use findex_cloud.Core.Cache.Laws.{
  Rows, IsMetadata, IsCoherent, LookupPost, RequestPost, IsCoherent-rows,
  get_index_with_cache-reads, from_request-post,
}
use findex_cloud.Main
use findex_cloud.Main.{Codec, Draws}
use findex_cloud.Main.Coherence.{DeletePost, delete_index-post, post_indexes-IsCoherent}
use findex_cloud.Main.Requests.{
  Request, get_indexes, post_indexes, get_index, delete_index, fetch_entries, fetch_chains,
  upsert_entries, insert_chains, serve, serve_all,
}

module _ {M I : Type 0} (metadata_db : MetadataDatabase M) (rows : M → Rows)
    (meta : IsMetadata metadata_db rows) (indexes_db : IndexesDatabase I) (crypto : Crypto)
    (codec : Codec) where
  from_request-IsCoherent :
      (path : Option Bytes) (s : Server M I)
      → IsCoherent rows s
      → IsCoherent rows (from_request metadata_db path s).1
  unfolding from_request
  from_request-IsCoherent none s h = h
  from_request-IsCoherent (some id) s h =
      go (from_request metadata_db (some id) s) (from_request-post metadata_db rows meta s id h)
    where
      go : (p : Result Index × Server M I) → RequestPost rows s id p → IsCoherent rows p.1
      go (ok index, s') (_, u) = u.coherent
      go (err x, s') u = u.coherent
      go (panicked, s') u = u.coherent

  get_index_with_cache-IsCoherent :
      (id : Bytes) (s : Server M I)
      → IsCoherent rows s
      → IsCoherent rows (get_index_with_cache metadata_db id s).1
  get_index_with_cache-IsCoherent id s h =
      go (get_index_with_cache metadata_db id s)
        (get_index_with_cache-reads metadata_db rows meta s id h)
    where
      go : (p : Result (Option Index) × Server M I) → LookupPost rows s id p → IsCoherent rows p.1
      go (ok index, s') (_, u) = u.coherent
      go (err x, s') u = u.coherent
      go (panicked, s') u = u.coherent

  delete_index-IsCoherent :
      (id : Bytes) (s : Server M I)
      → IsCoherent rows s
      → IsCoherent rows (Main.delete_index metadata_db indexes_db id s).1
  delete_index-IsCoherent id s h =
      go (Main.delete_index metadata_db indexes_db id s)
        (delete_index-post metadata_db rows meta indexes_db s id h)
    where
      go :
          (p : Result (Unit {0}) × Server M I)
          → DeletePost metadata_db rows meta indexes_db s id p
          → IsCoherent rows p.1
      go (ok _, s') (coherent, _, _, _) = coherent
      go (err x, s') (coherent, _) = coherent
      go (panicked, s') (coherent, _) = coherent

  -- A step that leaves the cache and the metadata alone.
  Keeps : {A : Type 0} → Exec (Server M I) A → Type 0
  Keeps m = (s : Server M I) → IsCoherent rows s → IsCoherent rows (m s).1

  bind-Keeps :
      {A B : Type 0} (m : Exec (Server M I) A) (f : A → Exec (Server M I) B)
      → Keeps m
      → ((a : A) → Keeps (f a))
      → Keeps (m >>= f)
  unfolding Keeps
  bind-Keeps m f first later s h =
      keep_rule m f s (IsCoherent rows) (first s h) (λ a h'. later a (m s).1 h')

  lift-Keeps : {A : Type 0} (r : Result A) → Keeps (lift r)
  unfolding Keeps
  lift-Keeps r s h = h

  on_store-Keeps : {A : Type 0} (m : Exec I A) → Keeps (on_store m)
  unfolding Keeps on_store
  on_store-Keeps m s h = h

  known_or_bad-Keeps : (id : Bytes) (o : Option Index) → Keeps (known_or_bad id o)
  unfolding Keeps known_or_bad
  known_or_bad-Keeps id none s h = h
  known_or_bad-Keeps id (some index) s h = h

  from_request-Keeps : (path : Option Bytes) → Keeps (from_request metadata_db path)
  unfolding Keeps
  from_request-Keeps path s h = from_request-IsCoherent path s h

  get_index_with_cache-Keeps : (id : Bytes) → Keeps (get_index_with_cache metadata_db id)
  unfolding Keeps
  get_index_with_cache-Keeps id s h = get_index_with_cache-IsCoherent id s h

  get_indexes-Keeps : Keeps (Main.get_indexes metadata_db indexes_db)
  unfolding Keeps Main.get_indexes on_metadata
  get_indexes-Keeps s h =
      keep_rule (on_metadata metadata_db.get_indexes)
        (λ indexes. on_store (set_sizes indexes_db indexes)) s (IsCoherent rows)
        (IsCoherent-rows metadata_db rows meta s (metadata_db.get_indexes s.metadata).1
          (meta.get_indexes-keeps s.metadata) h)
        (λ indexes h'. on_store-Keeps (set_sizes indexes_db indexes) _ h')

  get_index-Keeps : (id : Bytes) → Keeps (Main.get_index metadata_db indexes_db id)
  unfolding Main.get_index
  get_index-Keeps id =
      search (bind-Keeps, get_index_with_cache-Keeps, known_or_bad-Keeps, on_store-Keeps)

  module _ (now : Option ℕ) where
    fetch-Keeps :
        (table : Table) (index : Index) (key body : Bytes)
        → Keeps (Main.answer_fetch metadata_db indexes_db crypto codec now table index key body)
    unfolding Main.answer_fetch
    fetch-Keeps table index key body = search (bind-Keeps, lift-Keeps, on_store-Keeps)

    upsert-Keeps :
        (index : Index) (body : Bytes)
        → Keeps (Main.answer_upsert metadata_db indexes_db crypto codec now index body)
    unfolding Main.answer_upsert
    upsert-Keeps index body = search (bind-Keeps, lift-Keeps, on_store-Keeps)

    insert-Keeps :
        (index : Index) (body : Bytes)
        → Keeps (Main.answer_insert metadata_db indexes_db crypto codec now index body)
    unfolding Main.answer_insert
    insert-Keeps index body = search (bind-Keeps, lift-Keeps, on_store-Keeps)

    fetch_entries-Keeps :
        (path : Option Bytes) (body : Bytes)
        → Keeps (Main.fetch_entries metadata_db indexes_db crypto codec now path body)
    unfolding Main.fetch_entries
    fetch_entries-Keeps path body = search (bind-Keeps, from_request-Keeps, fetch-Keeps)

    fetch_chains-Keeps :
        (path : Option Bytes) (body : Bytes)
        → Keeps (Main.fetch_chains metadata_db indexes_db crypto codec now path body)
    unfolding Main.fetch_chains
    fetch_chains-Keeps path body = search (bind-Keeps, from_request-Keeps, fetch-Keeps)

    upsert_entries-Keeps :
        (path : Option Bytes) (body : Bytes)
        → Keeps (Main.upsert_entries metadata_db indexes_db crypto codec now path body)
    unfolding Main.upsert_entries
    upsert_entries-Keeps path body = search (bind-Keeps, from_request-Keeps, upsert-Keeps)

    insert_chains-Keeps :
        (path : Option Bytes) (body : Bytes)
        → Keeps (Main.insert_chains metadata_db indexes_db crypto codec now path body)
    unfolding Main.insert_chains
    insert_chains-Keeps path body = search (bind-Keeps, from_request-Keeps, insert-Keeps)

  serve-IsCoherent :
      (request : Request) (s : Server M I)
      → IsCoherent rows s
      → IsCoherent rows (serve metadata_db indexes_db crypto codec request s)
  unfolding serve Keeps
  serve-IsCoherent get_indexes s h = get_indexes-Keeps s h
  serve-IsCoherent (post_indexes name rng) s h =
      post_indexes-IsCoherent metadata_db rows meta indexes_db s name rng h
  serve-IsCoherent (get_index id) s h = get_index-Keeps id s h
  serve-IsCoherent (delete_index id) s h = delete_index-IsCoherent id s h
  serve-IsCoherent (fetch_entries now path body) s h = fetch_entries-Keeps now path body s h
  serve-IsCoherent (fetch_chains now path body) s h = fetch_chains-Keeps now path body s h
  serve-IsCoherent (upsert_entries now path body) s h = upsert_entries-Keeps now path body s h
  serve-IsCoherent (insert_chains now path body) s h = insert_chains-Keeps now path body s h

  -- With a metadata database in which a creation changes no row that is there, as in SQLite and not
  -- in DynamoDB: from a server whose cache is coherent, any sequence of requests, signed or not,
  -- one after the other, leaves a server whose cache is coherent: what the cache holds is what the
  -- metadata database holds.
  pub serve_all-IsCoherent :
      (requests : List Request) (s : Server M I)
      → IsCoherent rows s
      → IsCoherent rows (serve_all metadata_db indexes_db crypto codec requests s)
  unfolding serve_all
  serve_all-IsCoherent [] s h = h
  serve_all-IsCoherent (request ∷ requests) s h =
      serve_all-IsCoherent requests (serve metadata_db indexes_db crypto codec request s)
        (serve-IsCoherent request s h)
