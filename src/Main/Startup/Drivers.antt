-- ===== src/Main/Startup/Drivers.antt =====
-- `Database::create` of src/heed.rs, src/rocksdb.rs, src/sqlite.rs and src/dynamodb.rs: each panics
-- where its database cannot be opened.
use findex_cloud.Base.{none, some, Bool, true, false, String}
use findex_cloud.Dynamodb.{Names}
use findex_cloud.Dynamodb.Items.{id_column}
use findex_cloud.Dynamodb.Metadata.{try_create_table}
use findex_cloud.Main.Startup.Calls.{Io, pure, expect, ◌>>=◌, ◌>>◌, Machine}

module _ (m : Machine) where
  open m use {State}

  unfoldable pub create_heed : Io State (Unit {0})
  create_heed = do
    expect (m.create_dir_all "data/indexes.lmdb")
    expect (m.open_lmdb "data/indexes.lmdb")
    expect m.create_lmdb_database

  unfoldable pub create_rocksdb : Io State (Unit {0})
  create_rocksdb = expect (m.open_rocksdb "data/indexes_rocksdb")

  abbrev pub create_unless : Bool → Io State (Unit {0})
  create_unless true = pure tt
  create_unless false = expect (m.create_database "sqlite://data/database.sqlite")

  unfoldable pub create_sqlite : Io State (Unit {0})
  create_sqlite = do
    exists ← expect (m.database_exists "sqlite://data/database.sqlite")
    create_unless exists
    expect (m.connect "sqlite://data/database.sqlite")
    expect m.migrate

  abbrev pub table_name : String → String → State → String
  table_name variable default s = elim (m.var variable s) [ none ↦ default | some name ↦ name ]

  unfoldable pub table_names : State → Names
  table_names s = record {
    metadata_table_name = table_name "DYNAMODB_METADATA_TABLE_NAME" "findex_cloud_metadata" s;
    entries_table_name = table_name "DYNAMODB_ENTRIES_TABLE_NAME" "findex_cloud_entries" s;
    chains_table_name = table_name "DYNAMODB_CHAINS_TABLE_NAME" "findex_cloud_chains" s;
  }

  -- A table that is there already is kept.
  unfoldable pub ensure_table : String → String → Io State (Unit {0})
  ensure_table table key =
      expect
        (λ s. let (creation, s') = m.create_table table key s in (try_create_table creation, s'))

  unfoldable pub create_tables : Names → Io State Names
  create_tables names = do
    ensure_table names.metadata_table_name "id"
    ensure_table names.entries_table_name id_column
    ensure_table names.chains_table_name id_column
    pure names

  unfoldable pub create_dynamodb : Io State Names
  create_dynamodb s = create_tables (table_names s) s
