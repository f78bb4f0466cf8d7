-- ===== src/Main/Startup.antt =====
-- The start-up of the service: `main` and `start_server` of src/main.rs.
pub mod Calls
pub mod Drivers
pub mod Serving
use findex_cloud.Base.{
  Option, none, some, Bool, true, false, String, string_eq, ◌==◌, if◌then◌else◌,
}
use findex_cloud.Main.Startup.Calls.{
  IoResult, panicked, ok, failed, Io, pure, panic, io, expect, ◌>>=◌, ◌>>◌, Machine,
}
use findex_cloud.Main.Startup.Drivers.{create_heed, create_rocksdb, create_sqlite, create_dynamodb}

-- The Cargo features that the program is compiled with.
pub record Features : Type 0 where
  pub lmmd : Bool
  pub rocksdb : Bool
  pub dynamodb : Bool
  pub sqlite : Bool

pub data IndexesDriver : Type 0 where
  lmmd rocksdb dynamodb : IndexesDriver

pub data MetadataDriver : Type 0 where
  sqlite dynamodb : MetadataDriver

pub data Network : Type 0 where
  ipv4_and_ipv6 ipv4_only : Network

abbrev pub unwrap_or : Option String → String → String
unwrap_or none default = default
unwrap_or (some text) default = text

-- The arm of a driver panics where the driver is not compiled in.
abbrev pub compiled : {D : Type 0} → Bool → D → IoResult D
compiled true driver = ok driver
compiled false driver = panicked

-- The arms of the two `match`es on the environment, in their order.
unfoldable pub indexes_driver : Features → String → IoResult IndexesDriver
indexes_driver features type =
    if type == "lmmd"
    then compiled features.lmmd IndexesDriver.lmmd
    else if type == "rocksdb"
    then compiled features.rocksdb IndexesDriver.rocksdb
    else if type == "dynamodb"
    then compiled features.dynamodb IndexesDriver.dynamodb
    else panicked

unfoldable pub metadata_driver : Features → String → IoResult MetadataDriver
metadata_driver features type =
    if type == "sqlite"
    then compiled features.sqlite MetadataDriver.sqlite
    else if type == "dynamodb"
    then compiled features.dynamodb MetadataDriver.dynamodb
    else panicked

module _ (m : Machine) (features : Features) where
  open m use {State}

  unfoldable pub indexes_type : State → String
  indexes_type s = unwrap_or (m.var "INDEXES_DATABASE_TYPE" s) "rocksdb"

  unfoldable pub metadata_type : State → String
  metadata_type s = unwrap_or (m.var "METADATA_DATABASE_TYPE" s) "sqlite"

  unfoldable pub create_indexes : IndexesDriver → Io State (Unit {0})
  create_indexes IndexesDriver.lmmd = create_heed m
  create_indexes IndexesDriver.rocksdb = create_rocksdb m
  create_indexes IndexesDriver.dynamodb = do names ← create_dynamodb m; pure tt

  unfoldable pub create_metadata : MetadataDriver → Io State (Unit {0})
  create_metadata MetadataDriver.sqlite = create_sqlite m
  create_metadata MetadataDriver.dynamodb = do names ← create_dynamodb m; pure tt

  -- If IPv6 is not wanted it is not bound.
  unfoldable pub bind_ipv6 : Network → Io State (Unit {0})
  bind_ipv6 Network.ipv4_and_ipv6 = io (m.bind "[::1]:8080")
  bind_ipv6 Network.ipv4_only = pure tt

  unfoldable pub start_server : Network → Io State (Unit {0})
  start_server network = do
    indexes ← (λ s. (indexes_driver features (indexes_type s), s))
    create_indexes indexes
    metadata ← (λ s. (metadata_driver features (metadata_type s), s))
    create_metadata metadata
    io (m.bind "0.0.0.0:8080")
    bind_ipv6 network
    io m.run

  abbrev pub or_again : IoResult (Unit {0}) → Io State (Unit {0}) → Io State (Unit {0})
  or_again (ok _) again s = (ok tt, s)
  or_again (failed _) again s = again s
  or_again panicked again s = (panicked, s)

  abbrev pub load_env : Bool → Io State (Unit {0})
  load_env true = expect m.dotenv
  load_env false = pure tt

  -- Whatever error ends the first server, a second one is started on IPv4 alone.
  unfoldable pub main : Io State (Unit {0})
  main = do
    (λ s. load_env (m.exists ".env" s) s)
    (λ s.
        let (r, s') = start_server Network.ipv4_and_ipv6 s in
        or_again r (start_server Network.ipv4_only) s')
