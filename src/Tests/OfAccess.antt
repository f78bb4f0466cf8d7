-- ===== src/Tests/OfAccess.antt =====
-- Which requests to src/main.rs reach the store, at concrete inputs.
use findex_cloud.Base.{bytes_eq, some, [], ◌∷◌, ◌⊎◌}
use findex_cloud.Heed
use findex_cloud.Sqlite
use findex_cloud.Sqlite.Contract.{rows_of, database-IsMetadata}
use findex_cloud.Main
use findex_cloud.Main.{Draws}
use findex_cloud.Main.Access.{
  Refused, Authorised, fetch-Authorised, upsert_entries-Authorised, insert_chains-Authorised,
}
use findex_cloud.Tests.Memory.{lmdb, crypto, crypto-IsKmac, codec}
use findex_cloud.Tests.Samples.{alpha, server, server-IsCoherent, signed_body}

upsert_entries-Authorised_example :
    let body = signed_body (13 ∷ []) (8 ∷ 80 ∷ []) in
    Refused Sqlite.database rows_of database-IsMetadata
      (Heed.database lmdb)
      crypto
      crypto-IsKmac
      codec
      (some 50)
      server
      (Main.upsert_entries Sqlite.database
        (Heed.database lmdb)
        crypto
        codec
        (some 50)
        (some alpha.id)
        body
        server)
    ⊎ Authorised Sqlite.database rows_of database-IsMetadata
        (Heed.database lmdb)
        crypto
        crypto-IsKmac
        codec
        (some 50)
        server
        alpha.id
        (λ index. index.upsert_entries_key)
        body
upsert_entries-Authorised_example =
    upsert_entries-Authorised Sqlite.database rows_of database-IsMetadata (Heed.database lmdb)
      crypto crypto-IsKmac codec (some 50) server alpha.id (signed_body (13 ∷ []) (8 ∷ 80 ∷ []))
      server-IsCoherent

insert_chains-Authorised_example :
    let body = signed_body (14 ∷ []) (9 ∷ 91 ∷ []) in
    Refused Sqlite.database rows_of database-IsMetadata
      (Heed.database lmdb)
      crypto
      crypto-IsKmac
      codec
      (some 50)
      server
      (Main.insert_chains Sqlite.database
        (Heed.database lmdb)
        crypto
        codec
        (some 50)
        (some alpha.id)
        body
        server)
    ⊎ Authorised Sqlite.database rows_of database-IsMetadata
        (Heed.database lmdb)
        crypto
        crypto-IsKmac
        codec
        (some 50)
        server
        alpha.id
        (λ index. index.insert_chains_key)
        body
insert_chains-Authorised_example =
    insert_chains-Authorised Sqlite.database rows_of database-IsMetadata (Heed.database lmdb) crypto
      crypto-IsKmac codec (some 50) server alpha.id (signed_body (14 ∷ []) (9 ∷ 91 ∷ []))
      server-IsCoherent

fetch-Authorised_example :
    (Refused Sqlite.database rows_of database-IsMetadata
        (Heed.database lmdb)
        crypto
        crypto-IsKmac
        codec
        (some 50)
        server
        (Main.fetch_entries Sqlite.database
          (Heed.database lmdb)
          crypto
          codec
          (some 50)
          (some alpha.id)
          (signed_body (12 ∷ []) (9 ∷ []))
          server)
      ⊎ Authorised Sqlite.database rows_of database-IsMetadata
          (Heed.database lmdb)
          crypto
          crypto-IsKmac
          codec
          (some 50)
          server
          alpha.id
          (λ index. index.fetch_entries_key)
          (signed_body (12 ∷ []) (9 ∷ [])))
    × (Refused Sqlite.database rows_of database-IsMetadata
          (Heed.database lmdb)
          crypto
          crypto-IsKmac
          codec
          (some 50)
          server
          (Main.fetch_chains Sqlite.database
            (Heed.database lmdb)
            crypto
            codec
            (some 50)
            (some alpha.id)
            (signed_body (12 ∷ []) (9 ∷ []))
            server)
        ⊎ Authorised Sqlite.database rows_of database-IsMetadata
            (Heed.database lmdb)
            crypto
            crypto-IsKmac
            codec
            (some 50)
            server
            alpha.id
            (λ index. index.fetch_chains_key)
            (signed_body (12 ∷ []) (9 ∷ [])))
fetch-Authorised_example =
    fetch-Authorised Sqlite.database rows_of database-IsMetadata (Heed.database lmdb) crypto
      crypto-IsKmac codec (some 50) server alpha.id (signed_body (12 ∷ []) (9 ∷ []))
      server-IsCoherent
