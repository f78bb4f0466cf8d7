-- ===== src/Main.antt =====
-- src/main.rs: the handlers of the HTTP service.
pub mod Coherence
pub mod Access
pub mod Race
pub mod Interleaving
pub mod Startup
pub mod Served
pub mod Sessions
pub mod Requests
pub mod Listing
use findex_cloud.Base.{ℕ, Bytes, Option, List}
use findex_cloud.Errors.From
use findex_cloud.Errors.{Outcome, or_else}
use findex_cloud.Exec.{Exec, lift, ◌>>=◌, ◌>>◌}
use findex_cloud.Core.{
  Index, Table, Uids, EncryptedTable, UpsertData, IndexesDatabase, MetadataDatabase, set_sizes,
}
use findex_cloud.Core.Signature.{Crypto, check_body_signature}
use findex_cloud.Core.Cache.{
  Server, on_metadata, on_store, cache_remove, modify_cache, get_index_with_cache, known_or_bad,
  from_request,
}

-- The encodings of `cosmian_findex` and `cloudproof_findex`.
pub record Codec : Type 0 where
  pub deserialize_set : Bytes → Outcome Uids
  pub deserialize_upsert_data : Bytes → Outcome UpsertData
  pub deserialize_table : Bytes → Outcome EncryptedTable
  pub serialize_table : EncryptedTable → Outcome Bytes

-- What the random generators give to one call of `post_indexes`: four buffers of the length asked
-- for, and as many alphanumeric characters as are taken.
pub record Draws : Type 0 where
  pub fill_bytes_1 : ℕ → Bytes
  pub fill_bytes_2 : ℕ → Bytes
  pub fill_bytes_3 : ℕ → Bytes
  pub fill_bytes_4 : ℕ → Bytes
  pub sample_alphanumeric : ℕ → Bytes

module _ {M I : Type 0} (metadata_db : MetadataDatabase M) (indexes_db : IndexesDatabase I) where
  unfoldable pub get_indexes : Exec (Server M I) (List Index)
  get_indexes = do
    indexes ← on_metadata metadata_db.get_indexes
    on_store (set_sizes indexes_db indexes)

  unfoldable pub post_indexes : Bytes → Draws → Exec (Server M I) Index
  post_indexes name rng = on_metadata (
      metadata_db.create_index (record {
        id = rng.sample_alphanumeric 5;
        name = name;
        fetch_entries_key = rng.fill_bytes_1 16;
        fetch_chains_key = rng.fill_bytes_2 16;
        upsert_entries_key = rng.fill_bytes_3 16;
        insert_chains_key = rng.fill_bytes_4 16;
      }))

  unfoldable pub get_index : Bytes → Exec (Server M I) Index
  get_index id = do
    found ← get_index_with_cache metadata_db id
    index ← known_or_bad id found
    on_store (indexes_db.set_size index)

  unfoldable pub delete_index : Bytes → Exec (Server M I) (Unit {0})
  delete_index id = do on_metadata (metadata_db.delete_index id); modify_cache (cache_remove id)

  module _ (crypto : Crypto) (codec : Codec) (now : Option ℕ) where
    -- `fetch_entries` and `fetch_chains` differ in the table and in the key of the signature.
    unfoldable pub answer_fetch : Table → Index → Bytes → Bytes → Exec (Server M I) Bytes
    answer_fetch table index key body = do
      bytes ← lift (check_body_signature crypto now body index.id key)
      uids ← lift (or_else From.set (codec.deserialize_set bytes))
      uids_and_values ← on_store (indexes_db.fetch index table uids)
      lift (or_else From.core (codec.serialize_table uids_and_values))

    unfoldable pub fetch_entries : Option Bytes → Bytes → Exec (Server M I) Bytes
    fetch_entries path body = do
      index ← from_request metadata_db path
      answer_fetch Table.entries index index.fetch_entries_key body

    unfoldable pub fetch_chains : Option Bytes → Bytes → Exec (Server M I) Bytes
    fetch_chains path body = do
      index ← from_request metadata_db path
      answer_fetch Table.chains index index.fetch_chains_key body

    unfoldable pub answer_upsert : Index → Bytes → Exec (Server M I) Bytes
    answer_upsert index body = do
      bytes ← lift (check_body_signature crypto now body index.id index.upsert_entries_key)
      items ← lift (or_else From.core (codec.deserialize_upsert_data bytes))
      rejected ← on_store (indexes_db.upsert_entries index items)
      lift (or_else From.core (codec.serialize_table rejected))

    unfoldable pub upsert_entries : Option Bytes → Bytes → Exec (Server M I) Bytes
    upsert_entries path body = do index ← from_request metadata_db path; answer_upsert index body

    unfoldable pub answer_insert : Index → Bytes → Exec (Server M I) (Unit {0})
    answer_insert index body = do
      bytes ← lift (check_body_signature crypto now body index.id index.insert_chains_key)
      items ← lift (or_else From.core (codec.deserialize_table bytes))
      on_store (indexes_db.insert_chains index items)

    unfoldable pub insert_chains : Option Bytes → Bytes → Exec (Server M I) (Unit {0})
    insert_chains path body = do index ← from_request metadata_db path; answer_insert index body
