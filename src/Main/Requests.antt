-- ===== src/Main/Requests.antt =====
-- Calls of the handlers of src/main.rs, in any number and order.
pub mod Coherence
use findex_cloud.Base.{ℕ, Bytes, bytes_eq, Option, none, some, List, [], ◌∷◌, ◌≡◌, refl}
use findex_cloud.Errors.{Result, ok, err, panicked, or_else, findex}
use findex_cloud.Exec.{Exec, lift, ◌>>=◌}
use findex_cloud.Exec.Laws.{keep_rule}
use findex_cloud.Core.{Index, Table, MetadataDatabase, IndexesDatabase, set_sizes}
use findex_cloud.Core.Signature.{Crypto, check_body_signature}
use findex_cloud.Core.Cache.{
  Server, on_metadata, on_store, get_index_with_cache, known_or_bad, from_request,
}
use findex_cloud.Core.Cache.Laws.{
  Rows, IsMetadata, IsCoherent, Unchanged, LookupPost, RequestPost, IsCoherent-rows,
  get_index_with_cache-reads, from_request-post,
}
use findex_cloud.Main
use findex_cloud.Main.{Codec, Draws}
use findex_cloud.Main.Coherence.{DeletePost, delete_index-post, post_indexes-IsCoherent}

-- A call of a handler with what the request brings along, and for a signed one the clock when it is served.
pub data Request : Type 0 where
  get_indexes : Request
  post_indexes : (name : Bytes) → (rng : Draws) → Request
  get_index : (id : Bytes) → Request
  delete_index : (id : Bytes) → Request
  fetch_entries : (now : Option ℕ) → (path : Option Bytes) → (body : Bytes) → Request
  fetch_chains : (now : Option ℕ) → (path : Option Bytes) → (body : Bytes) → Request
  upsert_entries : (now : Option ℕ) → (path : Option Bytes) → (body : Bytes) → Request
  insert_chains : (now : Option ℕ) → (path : Option Bytes) → (body : Bytes) → Request

module _ {M I : Type 0} (metadata_db : MetadataDatabase M) (indexes_db : IndexesDatabase I)
    (crypto : Crypto) (codec : Codec) where
  -- What a request makes of the server.
  unfoldable pub serve : Request → Server M I → Server M I
  serve get_indexes s = (Main.get_indexes metadata_db indexes_db s).1
  serve (post_indexes name rng) s = (Main.post_indexes metadata_db indexes_db name rng s).1
  serve (get_index id) s = (Main.get_index metadata_db indexes_db id s).1
  serve (delete_index id) s = (Main.delete_index metadata_db indexes_db id s).1
  serve (fetch_entries now path body) s =
      (Main.fetch_entries metadata_db indexes_db crypto codec now path body s).1
  serve (fetch_chains now path body) s =
      (Main.fetch_chains metadata_db indexes_db crypto codec now path body s).1
  serve (upsert_entries now path body) s =
      (Main.upsert_entries metadata_db indexes_db crypto codec now path body s).1
  serve (insert_chains now path body) s =
      (Main.insert_chains metadata_db indexes_db crypto codec now path body s).1

  unfoldable pub serve_all : List Request → Server M I → Server M I
  serve_all [] s = s
  serve_all (request ∷ requests) s = serve_all requests (serve request s)
