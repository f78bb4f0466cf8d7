-- ===== src/Tests/OfExport.antt =====
-- The export of src/rocksdb.rs and the handlers of src/debug_logs.rs at concrete inputs.
use findex_cloud.Base.{
  Bytes, bytes_beq, bytes_eq, some, List, [], ◌∷◌, ◌++◌, map, Among, join, ◌≡◌, ◌↔◌, refl, ◌⊎◌,
  arith,
}
use findex_cloud.Base.HashMap.{get}
use findex_cloud.Errors.{ok, done}
use findex_cloud.Core.{entries}
use findex_cloud.Heed
use findex_cloud.Sqlite
use findex_cloud.Main
use findex_cloud.DebugLogs.Handlers
use findex_cloud.DebugLogs.Transparency.{Transparent, fetch-Transparent}
use findex_cloud.Rocksdb.Export
use findex_cloud.Rocksdb.Export.{Iterating, json_pair, fetch_all_as_json}
use findex_cloud.Rocksdb.Export.Order.{lex}
use findex_cloud.Rocksdb.Export.Listing.{IsIterating, IsCell, fetch_all_as_json-lists}
use findex_cloud.Rocksdb.Keys
use findex_cloud.Heed.Keys as HeedKeys
use findex_cloud.Words.{to_be_bytes, be_bytes}
use findex_cloud.Rocksdb.Keys.{prefix, key}
use findex_cloud.Tests.Memory.{rocks, rocks_laws, lmdb, crypto, codec}
use findex_cloud.Tests.Samples.{alpha, store, server, signed_body}
use findex_cloud.Tests.OfDebugLogs.{outside, log}

program : Unit {0}
unfolding bytes_beq get Export.filter_ok Export.starts_with Export.take_while_prefix
    Export.json_pair Export.exported Export.fetch_all_as_json lex Keys.table_to_prefix Keys.prefix
    Keys.key Keys.size_key HeedKeys.key HeedKeys.size_key HeedKeys.table_to_prefix to_be_bytes
    be_bytes
program = tt

-- All the cells of the sample store, which stand behind the prefix of the entries of alpha.
abbrev iterating : Iterating rocks
iterating = record {
  iterator_from = λ start d. (
    done (1 ∷ 0 ∷ 7 ∷ [], 70 ∷ [])
        ∷ done (1 ∷ 1 ∷ 9 ∷ [], 90 ∷ [])
        ∷ done (1 ∷ 2 ∷ [], 0 ∷ 0 ∷ 0 ∷ 0 ∷ 0 ∷ 0 ∷ 0 ∷ 2 ∷ [])
        ∷ [],
    d,
  );
}

cell :
    (k v : Bytes)
    → store k ≡ some v
    → ◌≡◌ {A = Bytes × Bytes} (k, v) (1 ∷ 0 ∷ 7 ∷ [], 70 ∷ [])
      ⊎ (◌≡◌ {A = Bytes × Bytes} (k, v) (1 ∷ 1 ∷ 9 ∷ [], 90 ∷ [])
          ⊎ (◌≡◌ {A = Bytes × Bytes} (k, v) (1 ∷ 2 ∷ [], 0 ∷ 0 ∷ 0 ∷ 0 ∷ 0 ∷ 0 ∷ 0 ∷ 2 ∷ []) ⊎ ⊥))
unfolding program
cell k v stored = ground (
  arith,
  bytes_eq.same_iff (1 ∷ 0 ∷ 7 ∷ []) k,
  bytes_eq.same_iff (1 ∷ 1 ∷ 9 ∷ []) k,
  bytes_eq.same_iff (1 ∷ 2 ∷ []) k,
)

iterating-IsIterating : IsIterating rocks rocks_laws iterating (prefix alpha.id entries) store
unfolding program
iterating-IsIterating = record {
  yields-from = (refl, (refl, (refl, tt)));
  yields-stored = (refl, (refl, (refl, tt)));
  yields-Ascending = ((refl, (refl, tt)), ((refl, tt), (tt, tt)));
  yields_all = λ k v complete from stored. cell k v stored;
  content-iterator_from = refl;
}

fetch_all_as_json-lists_example :
    (pairs : List (Bytes × Bytes)) × ((k v : Bytes)
      → Among (k, v) pairs
        ↔ IsCell
            (λ bytes. bytes)
            rocks
            rocks_laws
            iterating
            alpha
            entries
            store
            iterating-IsIterating
            k
            v)
    × ((fetch_all_as_json (λ bytes. bytes) rocks iterating alpha entries store).0
        ≡ ok (91 ∷ join (44 ∷ 10 ∷ []) (map (json_pair (λ bytes. bytes)) pairs) ++ 93 ∷ []))
    × (rocks_laws.content (fetch_all_as_json (λ bytes. bytes) rocks iterating alpha entries store).1
        ≡ store)
fetch_all_as_json-lists_example =
    fetch_all_as_json-lists (λ bytes. bytes) rocks rocks_laws iterating alpha entries store
      iterating-IsIterating (tt, (tt, (tt, tt)))

-- One cell of alpha is exported: `"` stands for 34, `:` for 58, and the brackets for 91 and 93.
exported_text :
    (fetch_all_as_json (λ bytes. bytes) rocks iterating alpha entries store).0
    ≡ ok (91 ∷ 34 ∷ 1 ∷ 0 ∷ 7 ∷ 34 ∷ 58 ∷ 34 ∷ 70 ∷ 34 ∷ 93 ∷ [])
unfolding program
exported_text = refl

abbrev body : Bytes
body = signed_body (11 ∷ []) (7 ∷ [])

fetch-Transparent_example :
    Transparent
      (Handlers.fetch_entries Sqlite.database
        (Heed.database lmdb)
        crypto
        codec
        outside
        (some 50)
        (some 60)
        (some alpha.id)
        body
        (server, log))
      (Main.fetch_entries Sqlite.database
        (Heed.database lmdb)
        crypto
        codec
        (some 50)
        (some alpha.id)
        body
        server)
    × Transparent
        (Handlers.fetch_chains Sqlite.database
          (Heed.database lmdb)
          crypto
          codec
          outside
          (some 50)
          (some 60)
          (some alpha.id)
          body
          (server, log))
        (Main.fetch_chains Sqlite.database
          (Heed.database lmdb)
          crypto
          codec
          (some 50)
          (some alpha.id)
          body
          server)
fetch-Transparent_example =
    fetch-Transparent Sqlite.database (Heed.database lmdb) crypto codec outside (some 50) (some 60)
      (some alpha.id) body server log
