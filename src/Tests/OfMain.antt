-- ===== src/Tests/OfMain.antt =====
-- src/main.rs and the cache of src/core.rs at concrete inputs.
use findex_cloud.Base.{bytes_beq, bytes_eq, some, [], ◌∷◌, ◌≡◌, refl, none}
use findex_cloud.Base.HashMap.{get, insert, remove}
use findex_cloud.Words.{to_be_bytes, from_be_bytes, be_bytes, be_value, add64}
use findex_cloud.Words.Signed.{as_i64, i64_bits, add_i64, pos}
use findex_cloud.Errors.{
  ok, err, bad_request, unknown_index, invalid_signature, ◌>>=◌ as bind_result,
}
use findex_cloud.Exec.{◌>>=◌}
use findex_cloud.Core.{set_sizes, UpsertData}
use findex_cloud.Core.Signature.{
  check_body_signature, check_rest, verify_parts, check_expiration, chunk_or, next_chunk,
}
use findex_cloud.Core.Cache
use findex_cloud.Core.Cache.Laws.{LookupPost, get_index_with_cache-reads}
use findex_cloud.Spec.{Content}
use findex_cloud.Heed
use findex_cloud.Heed.Keys.{key, size_key, table_to_prefix}
use findex_cloud.Heed.Txn
use findex_cloud.Sqlite
use findex_cloud.Sqlite.Table
use findex_cloud.Sqlite.Table.{Db}
use findex_cloud.Sqlite.Contract.{rows_of, database-IsMetadata}
use findex_cloud.Main
use findex_cloud.Main.{Draws}
use findex_cloud.Main.Race.{overtaken, overtaken_lookup-Stale}
use findex_cloud.Main.Listing.{ListedPost, get_indexes-lists}
use findex_cloud.Main.Served.{respond, upsert_entries-served}
use findex_cloud.Core.Signature.Laws.{IsSigned, check_body_signature_iff}
use findex_cloud.Main.Coherence.{DeletePost, delete_index-post}
use findex_cloud.Tests.Memory.{lmdb, lmdb_laws, crypto, crypto-IsKmac, codec}
use findex_cloud.Tests.Samples.{alpha, beta, server, server-IsCoherent, signed_body}

unfoldable pub program : Unit {0}
unfolding bytes_beq bind_result ◌>>=◌ get insert remove to_be_bytes from_be_bytes be_bytes be_value
    add64 as_i64 i64_bits add_i64 set_sizes check_body_signature check_rest verify_parts
    check_expiration chunk_or next_chunk Cache.on_metadata Cache.on_store Cache.cache_get
    Cache.cache_insert Cache.cache_remove Cache.modify_cache Cache.read_cache Cache.remember
    Cache.after_cache Cache.get_index_with_cache Cache.known_or_bad Cache.from_request Heed.set_size
    Heed.fetch Heed.upsert_entries Heed.insert_chains Heed.database key size_key table_to_prefix
    Txn.size_i64 Txn.i64_to_be_bytes Txn.read_size Txn.fetch_loop Txn.count_new Txn.accept
    Txn.upsert_one Txn.upsert_loop Txn.insert_loop Txn.put_size Sqlite.get_indexes Sqlite.get_index
    Sqlite.delete_index Sqlite.create_index Sqlite.database Table.faulty Table.statement
    Table.acquire Table.is_behind Table.insert_newest Table.order_by_created_at Table.select_all
    Table.where_id Table.select_by_id Table.delete_where_id Table.delete_by_id Table.new_row
    Table.insert_returning_id Table.select_one Main.get_indexes Main.post_indexes Main.get_index
    Main.delete_index Main.answer_fetch Main.fetch_entries Main.fetch_chains Main.answer_upsert
    Main.upsert_entries Main.answer_insert Main.insert_chains
program = tt

-- A signed request for the entry 7 is answered; one signed with another key is not.
fetched :
    ((Main.fetch_entries Sqlite.database
        (Heed.database lmdb)
        crypto
        codec
        (some 50)
        (some alpha.id)
        (signed_body (11 ∷ []) (7 ∷ []))
        server).0
      ≡ ok (7 ∷ 70 ∷ []))
    × ((Main.fetch_entries Sqlite.database
          (Heed.database lmdb)
          crypto
          codec
          (some 50)
          (some alpha.id)
          (signed_body (12 ∷ []) (7 ∷ []))
          server).0
        ≡ err invalid_signature)
unfolding program
fetched = (refl, refl)

listed :
    (Main.get_indexes Sqlite.database (Heed.database lmdb) server).0
    ≡ ok (record beta { size = some (pos 0) } ∷ record alpha { size = some (pos 2) } ∷ [])
unfolding program
listed = refl

unknown :
    (Main.get_index Sqlite.database (Heed.database lmdb) (3 ∷ []) server).0
    ≡ err (bad_request (unknown_index (3 ∷ [])))
unfolding program
unknown = refl

get_index_with_cache-reads_example :
    LookupPost rows_of server beta.id (Cache.get_index_with_cache Sqlite.database beta.id server)
get_index_with_cache-reads_example =
    get_index_with_cache-reads Sqlite.database rows_of database-IsMetadata server beta.id
      server-IsCoherent

abbrev rng : Draws
rng = record {
  fill_bytes_1 = λ n. 1 ∷ [];
  fill_bytes_2 = λ n. 2 ∷ [];
  fill_bytes_3 = λ n. 3 ∷ [];
  fill_bytes_4 = λ n. 4 ∷ [];
  sample_alphanumeric = λ n. 97 ∷ [];
}

delete_index-post_example :
    DeletePost Sqlite.database rows_of database-IsMetadata
      (Heed.database lmdb)
      server
      alpha.id
      (Main.delete_index Sqlite.database (Heed.database lmdb) alpha.id server)
delete_index-post_example =
    delete_index-post Sqlite.database rows_of database-IsMetadata (Heed.database lmdb) server
      alpha.id server-IsCoherent

-- The request of beta misses the cache, the deletion overtakes it, and beta stays cached.
overtaken_lookup-Stale_example :
    let end =
      overtaken Sqlite.database rows_of database-IsMetadata
        (Heed.database lmdb)
        server
        beta.id
        beta in
    (rows_of end.metadata beta.id ≡ none)
    × ((Cache.get_index_with_cache Sqlite.database beta.id end).0 ≡ ok (some beta))
unfolding program
overtaken_lookup-Stale_example =
    overtaken_lookup-Stale Sqlite.database rows_of database-IsMetadata (Heed.database lmdb) server
      beta.id beta refl refl refl

known :
    Cache.from_request {M = Db} {I = Content} Sqlite.database (some alpha.id) server
    ≡ (ok alpha, server)
unfolding program
known = refl

pub upsert_IsSigned :
    IsSigned crypto (some 50) (signed_body (13 ∷ []) (8 ∷ 80 ∷ [])) alpha.id (13 ∷ []) (8 ∷ 80 ∷ [])
unfolding program
upsert_IsSigned =
    (check_body_signature_iff crypto (some 50) (signed_body (13 ∷ []) (8 ∷ 80 ∷ [])) alpha.id
        (13 ∷ []) (8 ∷ 80 ∷ []) crypto-IsKmac).0
      refl

pub fetch_IsSigned :
    IsSigned crypto (some 50) (signed_body (11 ∷ []) (7 ∷ [])) alpha.id (11 ∷ []) (7 ∷ [])
unfolding program
fetch_IsSigned =
    (check_body_signature_iff crypto (some 50) (signed_body (11 ∷ []) (7 ∷ [])) alpha.id (11 ∷ [])
        (7 ∷ []) crypto-IsKmac).0
      refl

abbrev pub new_entry : UpsertData
new_entry = record { uid = 8 ∷ []; old_value = none; new_value = 80 ∷ [] } ∷ []

upsert_entries-served_example :
    Main.upsert_entries Sqlite.database
      (Heed.database lmdb)
      crypto
      codec
      (some 50)
      (some alpha.id)
      (signed_body (13 ∷ []) (8 ∷ 80 ∷ []))
      server
    ≡ respond Sqlite.database
        (Heed.database lmdb)
        crypto
        crypto-IsKmac
        codec
        (some 50)
        ((Heed.database lmdb).upsert_entries alpha new_entry)
        server
upsert_entries-served_example =
    upsert_entries-served Sqlite.database (Heed.database lmdb) crypto crypto-IsKmac codec (some 50)
      server server alpha.id (signed_body (13 ∷ []) (8 ∷ 80 ∷ [])) (8 ∷ 80 ∷ []) alpha known
      new_entry upsert_IsSigned refl

get_indexes-lists_example :
    ListedPost lmdb lmdb_laws server (Main.get_indexes Sqlite.database (Heed.database lmdb) server)
get_indexes-lists_example = get_indexes-lists lmdb lmdb_laws server

pub fetch_8_IsSigned :
    IsSigned crypto (some 50) (signed_body (11 ∷ []) (8 ∷ [])) alpha.id (11 ∷ []) (8 ∷ [])
unfolding program
fetch_8_IsSigned =
    (check_body_signature_iff crypto (some 50) (signed_body (11 ∷ []) (8 ∷ [])) alpha.id (11 ∷ [])
        (8 ∷ []) crypto-IsKmac).0
      refl
