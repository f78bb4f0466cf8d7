-- ===== src/Tests/OfSessions.antt =====
-- Requests to src/main.rs one after the other, at concrete inputs.
use findex_cloud.Base.{List, bytes_eq, some, [], ◌∷◌, refl, Bytes}
use findex_cloud.Core.{Table}
use findex_cloud.Core.Cache.{Server}
use findex_cloud.Core.Signature.Laws.{IsSigned, check_body_signature_iff}
use findex_cloud.Heed
use findex_cloud.Heed.Keys.{key}
use findex_cloud.Spec.{Content}
use findex_cloud.Spec.Laws.{find, cell_after}
use findex_cloud.Sqlite
use findex_cloud.Sqlite.Table.{Db}
use findex_cloud.Main
use findex_cloud.Main.Requests.{
  Request, upsert_entries, delete_index, fetch_entries, get_indexes, serve_all,
}
use findex_cloud.Main.Requests.Coherence.{serve_all-IsCoherent}
use findex_cloud.Core.Cache.Laws.{IsCoherent}
use findex_cloud.Sqlite.Contract.{rows_of, database-IsMetadata}
use findex_cloud.Main.Sessions.{Answered, upsert_entries-fetch_entries}
use findex_cloud.Tests.Memory.{lmdb, lmdb_laws, crypto, crypto-IsKmac, codec}
use findex_cloud.Tests.Samples.{alpha, server, server-IsCoherent, store, signed_body}
use findex_cloud.Tests.OfMain.{program, new_entry, upsert_IsSigned}

-- A new entry 8 ↦ 80.
abbrev upsert_body : Bytes
upsert_body = signed_body (13 ∷ []) (8 ∷ 80 ∷ [])

abbrev fetch_body : Bytes
fetch_body = signed_body (11 ∷ []) (8 ∷ [])

abbrev upserted : Server Db Content
upserted =
    (Main.upsert_entries Sqlite.database (Heed.database lmdb) crypto codec (some 50) (some alpha.id)
      upsert_body server).1

fetch_later_IsSigned : IsSigned crypto (some 60) fetch_body alpha.id (11 ∷ []) (8 ∷ [])
unfolding program
fetch_later_IsSigned =
    (check_body_signature_iff crypto (some 60) fetch_body alpha.id (11 ∷ []) (8 ∷ [])
        crypto-IsKmac).0
      refl

upsert_entries-fetch_entries_example :
    Answered Sqlite.database lmdb lmdb_laws crypto crypto-IsKmac codec
      (8 ∷ 80 ∷ [])
      (8 ∷ [])
      ((8 ∷ []) ∷ [])
      (cell_after (store (key alpha.id Table.entries (8 ∷ []))) (find (8 ∷ []) new_entry))
unfolding program find
upsert_entries-fetch_entries_example =
    upsert_entries-fetch_entries Sqlite.database lmdb lmdb_laws crypto crypto-IsKmac codec (some 50)
      (some 60) server upserted upserted alpha.id upsert_body (8 ∷ 80 ∷ []) [] fetch_body (8 ∷ [])
      (8 ∷ 80 ∷ []) alpha new_entry ((8 ∷ []) ∷ []) 1 (8 ∷ []) (server, refl, upsert_IsSigned) refl
      refl (upserted, refl, fetch_later_IsSigned) refl refl (refl, tt) (refl, tt) refl

-- An upsert, the deletion of the index, a fetch that comes too late, and a listing.
abbrev requests : List Request
requests =
    upsert_entries (some 50) (some alpha.id) upsert_body
    ∷ delete_index alpha.id
    ∷ fetch_entries (some 50) (some alpha.id) fetch_body
    ∷ get_indexes
    ∷ []

serve_all-IsCoherent_example :
    IsCoherent rows_of (serve_all Sqlite.database (Heed.database lmdb) crypto codec requests server)
serve_all-IsCoherent_example =
    serve_all-IsCoherent Sqlite.database rows_of database-IsMetadata (Heed.database lmdb) crypto
      codec requests server server-IsCoherent
