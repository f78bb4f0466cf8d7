-- ===== src/Tests/OfStartup.antt =====
-- The start-up of src/main.rs on a machine without IPv6.
use text.Mathlib.Text.{◌==◌ as str_eq}
use findex_cloud.Base.{none, List, [], ◌∷◌, Bool, true, false, String, string_eq, ◌≡◌, refl}
use findex_cloud.Errors.{Outcome, done, failed}
use findex_cloud.Dynamodb.Metadata
use findex_cloud.Dynamodb.Metadata.{created}
use findex_cloud.Main.Startup
use findex_cloud.Main.Startup.{Features, IndexesDriver, MetadataDriver}
use findex_cloud.Main.Startup.Calls
use findex_cloud.Main.Startup.Calls.{Machine, IoResult, io}
use findex_cloud.Main.Startup.Drivers
use findex_cloud.Main.Startup.Serving.{IsHealthy, Served, main-Served}

program : Unit {0}
unfolding Calls.◌>>=◌ Metadata.try_create_table Startup.indexes_driver Startup.metadata_driver
    Startup.indexes_type Startup.metadata_type Startup.create_indexes Startup.create_metadata
    Startup.bind_ipv6 Startup.start_server Startup.main Drivers.create_heed Drivers.create_rocksdb
    Drivers.create_sqlite Drivers.table_names Drivers.ensure_table Drivers.create_tables
    Drivers.create_dynamodb
program = tt

abbrev bound : Bool → String → List String → Outcome (Unit {0}) × List String
bound true address log = (failed "Cannot assign requested address", log)
bound false address log = (done tt, address ∷ log)

abbrev did : String → List String → Outcome (Unit {0}) × List String
did call log = (done tt, call ∷ log)

-- The state is what has been done, the last call first.
abbrev machine : Machine
machine = record {
  State = List String;
  var = λ name log. none;
  exists = λ path log. true;
  dotenv = did "dotenv";
  create_dir_all = did;
  open_lmdb = did;
  create_lmdb_database = did "create_lmdb_database";
  open_rocksdb = did;
  database_exists = λ url log. (done true, log);
  create_database = did;
  connect = did;
  migrate = did "migrate";
  create_table = λ table key log. (created, table ∷ log);
  bind = λ address log. bound (str_eq address "[::1]:8080") address log;
  run = did "run";
}

-- The default features.
abbrev features : Features
features = record { lmmd = false; rocksdb = true; dynamodb = false; sqlite = true }

machine-IsHealthy : IsHealthy machine features
unfolding program
machine-IsHealthy = record {
  dotenv = λ s text e. cc;
  create_dir_all = λ path s text e. cc;
  open_lmdb = λ path s text e. cc;
  create_lmdb_database = λ s text e. cc;
  open_rocksdb = λ path s text e. cc;
  database_exists = λ url s text e. cc;
  create_database = λ url s text e. cc;
  connect = λ url s text e. cc;
  migrate = λ s text e. cc;
  create_table = λ table key text s e. cc;
  bind_ipv4 = λ s text e. cc;
  indexes_known = λ s. (IndexesDriver.rocksdb, refl);
  metadata_known = λ s. (MetadataDriver.sqlite, refl);
}

main-Served_example : Served machine features machine-IsHealthy (Startup.main machine features [])
main-Served_example = main-Served machine features machine-IsHealthy []

-- The databases are opened twice, and the server runs on IPv4 alone.
served_ipv4 : Startup.main machine features [] ≡ (
  IoResult.ok tt,
  "run" ∷ "0.0.0.0:8080" ∷ "migrate" ∷ "sqlite://data/database.sqlite" ∷ "data/indexes_rocksdb"
      ∷ "0.0.0.0:8080" ∷ "migrate" ∷ "sqlite://data/database.sqlite" ∷ "data/indexes_rocksdb"
      ∷ "dotenv" ∷ [],
)
unfolding program
served_ipv4 = refl

-- A driver that is not compiled in, and one that there is not, end the program.
not_compiled :
    (Startup.indexes_driver features "lmmd" ≡ IoResult.panicked)
    × (Startup.metadata_driver features "postgres" ≡ IoResult.panicked)
unfolding program
not_compiled = (refl, refl)
