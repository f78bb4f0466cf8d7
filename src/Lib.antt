-- ===== src/Lib.antt =====
-- Findex Cloud: the server that stores the encrypted indexes of Findex clients.
--
-- A client asks over HTTP to fetch or write the entries and chains of an index. An index has four
-- keys, one for each kind of request; the body of a request carries a KMAC tag under one of them
-- and an expiry. The service reads the keys in a metadata database, through a cache, and the values
-- in an indexes database. Writes of entries are conditional: a client says which value it knows,
-- and gets the stored one back if it is another.
--
-- The files and the code (paths from the root of the repository):
--   * Base, Words, Exec: shared lists, maps, words of 64 bits, and steps over a state.
--   * Errors: `Error`, `status_code` and the `From` impls of src/errors.rs; a result
--     is a value, an error or a panic.
--   * Core: the structs and traits of src/core.rs. Core/Signature is `check_body_signature`,
--     Core/Cache is `MetadataCache`, `get_index_with_cache` and `Index::from_request`.
--   * Main: the eight handlers of src/main.rs. Main/Requests are requests in any sequence,
--     Main/Sessions an upsert and the fetch that follows it. Main/Interleaving lets requests overtake
--     each other between two accesses to the cache and the databases. Main/Startup is `main`,
--     `start_server` and the functions `create` of the drivers.
--   * Spec: the specification of an indexes database, shared by the drivers: a content is a
--     function from keys to values, an upsert is a compare and swap for each item, and the size of
--     an index stands in a cell of its own. Spec/Relaxed adds cells that other clients hold locked.
--   * Heed: src/heed.rs. Heed/Keys are its keys, Heed/Txn the loops inside a transaction (with the
--     interface of the crate, `Lmdb`, and its laws, `IsLmdb`), Heed/Atomic and Heed/Cells the
--     methods against the specification.
--   * Rocksdb: src/rocksdb.rs. Rocksdb/Client is the interface of the crate (`Rocks`, `IsRocks`),
--     Rocksdb/Merge the merge operator `merge_add`, Rocksdb/Export `fetch_all_as_json`,
--     Rocksdb/Locks the steps of clients that lock and write at the same time, the other modules the
--     methods.
--   * Sqlite: src/sqlite.rs. Sqlite/Table is the table of migrations/20230109090557_*.sql and the
--     SQL statements on it; the order of the rows of one instant is left to a field of its state.
--   * Dynamodb: src/dynamodb.rs. Dynamodb/Items are the stored IDs and the item of an index,
--     Dynamodb/Client the interface of the SDK (`Dynamo`, `IsDynamo`), Dynamodb/Metadata the methods
--     on indexes. The jobs that run at the same time in `upsert_entries` get their answers in the
--     order of a `Schedule`, one whole job after the other; in Dynamodb/Jobs they interleave, request
--     by request, with each other and with other clients.
--   * DebugLogs: src/debug_logs.rs, the log of requests and its time difference. DebugLogs/Handlers
--     are the handlers that the feature log_requests adds or changes.
--   * Tests: the parameters as functions in memory, concrete runs, and each theorem at an input.
--
-- State and steps. An `async fn` is a function from a state to a result and a state, since what has
-- been written before an error stays written. `Server` is the state that the handlers share: the
-- cache, the metadata and the store. Any call of a database may fail: the interfaces return an
-- outcome, and the table of Sqlite carries a list of the faults to come.
--
-- Parameters. The crates cloudproof_findex, cosmian_findex and cosmian_crypto_core (KMAC, key
-- derivation, encodings), heed, rocksdb, aws_sdk_dynamodb, chrono, and the random generators are
-- arguments. What a theorem relies on is a record of laws: `IsKmac` (the length of a tag), `IsLmdb`
-- (transactions read what they wrote, and commit all or nothing), `IsRocks` (the same for one call,
-- with the merge operator as Rocksdb/Merge defines it), `IsDynamo` and `HasItems` (eventually
-- consistent reads, which may give what a cell has held before, conditional writes of single items,
-- and batches that may stay unprocessed in part; nothing is said of a single write that fails),
-- `IsProcessing` (no batch stays unprocessed), `IsIterating` (an iterator goes in the order of the
-- keys), `IsHealthy` (no call fails at the start). `IsMetadata` is the contract of a metadata
-- database, which Sqlite/Contract fills; DynamoDB does not keep it, since a creation may write over
-- the row of the same ID.
--
-- Numbers. The target has 64 bits and the build is a release build: sums of `usize` and `i64` wrap,
-- `% 2 ^ 64` is written out, and an `i64` stands for its bit pattern. Bytes are numbers, a string
-- is its UTF-8 bytes, an instant is a number. The loops of the source run over their input or, in
-- `retry_loop`, over the three reads that the source allows. Only `chunks` has fuel, the length of
-- the list, which is enough since each chunk takes an element.
--
-- Not modelled: the registration of the handlers in the application of actix-web; the text of an
-- error's body; the options of the drivers beyond what decides an answer. Between the databases'
-- own calls the requests interleave in Main/Interleaving, for the cache, in Dynamodb/Jobs and, from
-- the lock of a key to what follows on it, in Rocksdb/Locks; the other theorems on one operation of
-- an indexes database take its steps without those of another request in between.
mod Base
pub mod Words
pub mod Errors
pub mod Exec
pub mod Core
pub mod Spec
pub mod Heed
pub mod Rocksdb
pub mod Main
pub mod Sqlite
pub mod Dynamodb
pub mod DebugLogs
pub mod Tests
