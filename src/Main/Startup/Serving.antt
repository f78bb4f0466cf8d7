-- ===== src/Main/Startup/Serving.antt =====
-- Where nothing is broken, the start-up of src/main.rs ends in a server, with IPv6 or without.
use findex_cloud.Base.{Bool, true, false, String, ◌≡◌, ◌≢◌, refl, sym, subst, ap}
use findex_cloud.Errors.{Outcome, done, failed as call_failed}
use findex_cloud.Exec.{Call}
use findex_cloud.Dynamodb.Items.{id_column}
use findex_cloud.Dynamodb.Metadata.{Creation, created, in_use, refused, try_create_table}
use findex_cloud.Main.Startup.Calls.{
  IoResult, panicked, ok, failed, Io, pure, io, expect, continue, ◌>>=◌, ◌>>◌, Machine, or_failed,
  or_panicked,
}
use findex_cloud.Main.Startup.Drivers.{
  create_heed, create_rocksdb, create_sqlite, create_dynamodb, create_tables, create_unless,
  ensure_table, table_names,
}
use findex_cloud.Main.Startup.{
  Features, IndexesDriver, MetadataDriver, Network, indexes_driver, metadata_driver, indexes_type,
  metadata_type, create_indexes, create_metadata, bind_ipv6, start_server, or_again, load_env, main,
}

abbrev pub NeverFails : {S A : Type 0} → Call S A → Type 0
NeverFails {S} c = (s : S) (text : String) → (c s).0 ≢ call_failed text

-- Every call succeeds, but that IPv6 may be missing; and the environment names drivers that are
-- compiled in.
pub record IsHealthy (m : Machine) (features : Features) : Type 0 where
  pub dotenv : NeverFails m.dotenv
  pub create_dir_all : (path : String) → NeverFails (m.create_dir_all path)
  pub open_lmdb : (path : String) → NeverFails (m.open_lmdb path)
  pub create_lmdb_database : NeverFails m.create_lmdb_database
  pub open_rocksdb : (path : String) → NeverFails (m.open_rocksdb path)
  pub database_exists : (url : String) → NeverFails (m.database_exists url)
  pub create_database : (url : String) → NeverFails (m.create_database url)
  pub connect : (url : String) → NeverFails (m.connect url)
  pub migrate : NeverFails m.migrate
  pub create_table :
      (table key text : String) (s : m.State) → (m.create_table table key s).0 ≢ refused text
  pub bind_ipv4 : NeverFails (m.bind "0.0.0.0:8080")
  pub indexes_known :
      (s : m.State)
      → (driver : IndexesDriver) × (indexes_driver features (indexes_type m features s)
          ≡ IoResult.ok driver)
  pub metadata_known :
      (s : m.State)
      → (driver : MetadataDriver) × (metadata_driver features (metadata_type m features s)
          ≡ IoResult.ok driver)

abbrev Succeeds : {S A : Type 0} → Io S A → Type 0
Succeeds {S} {A} c = (s : S) → (a : A) × ((c s).0 ≡ IoResult.ok a)

done_answer :
    {A : Type 0} (o : Outcome A) → ((text : String) → o ≢ call_failed text) → (a : A) × (o ≡ done a)
done_answer (done a) h = (a, refl)
done_answer (call_failed text) h = absurd (h text refl)

module _ {S A : Type 0} where
  expect-Succeeds : (c : Call S A) → NeverFails c → Succeeds (expect c)
  expect-Succeeds c h s = let (a, e) = done_answer (c s).0 (h s) in (a, ap or_panicked e)

  io-Succeeds : (c : Call S A) → NeverFails c → Succeeds (io c)
  io-Succeeds c h s = let (a, e) = done_answer (c s).0 (h s) in (a, ap or_failed e)

  module _ {B : Type 0} where
    -- A first step that succeeds hands over to the rest.
    bind_rule :
        (c : Io S A) (f : A → Io S B) (s : S) (Q : IoResult B × S → Type 0)
        → (a : A) × ((c s).0 ≡ IoResult.ok a)
        → ((a : A) (s' : S) → Q (f a s'))
        → Q ((c >>= f) s)
    unfolding ◌>>=◌
    bind_rule c f s Q (a, e) later = subst (λ r. Q (continue r f (c s).1)) (sym e) (later a (c s).1)

    bind-Succeeds :
        (c : Io S A) (f : A → Io S B) → Succeeds c → ((a : A) → Succeeds (f a)) → Succeeds (c >>= f)
    bind-Succeeds c f first later s =
        bind_rule c f s (λ p. (b : B) × (p.0 ≡ IoResult.ok b)) (first s) (λ a s'. later a s')

module _ (m : Machine) (features : Features) (healthy : IsHealthy m features) where
  open m use {State}

  create_heed-Succeeds : Succeeds (create_heed m)
  unfolding create_heed
  create_heed-Succeeds =
      bind-Succeeds (expect (m.create_dir_all "data/indexes.lmdb")) _
        (expect-Succeeds (m.create_dir_all "data/indexes.lmdb") (healthy.create_dir_all _))
        (λ _.
          bind-Succeeds (expect (m.open_lmdb "data/indexes.lmdb")) _
            (expect-Succeeds (m.open_lmdb "data/indexes.lmdb") (healthy.open_lmdb _))
            (λ _. expect-Succeeds m.create_lmdb_database healthy.create_lmdb_database))

  create_unless-Succeeds : (exists : Bool) → Succeeds (create_unless m exists)
  create_unless-Succeeds true s = (tt, refl)
  create_unless-Succeeds false s =
      expect-Succeeds (m.create_database "sqlite://data/database.sqlite")
        (healthy.create_database _) s

  create_sqlite-Succeeds : Succeeds (create_sqlite m)
  unfolding create_sqlite
  create_sqlite-Succeeds =
      let url : String = "sqlite://data/database.sqlite" in
      bind-Succeeds (expect (m.database_exists url)) _
        (expect-Succeeds (m.database_exists url) (healthy.database_exists url))
        (λ exists. bind-Succeeds (create_unless m exists) _ (create_unless-Succeeds exists) (λ _.
          bind-Succeeds (expect (m.connect url)) _
            (expect-Succeeds (m.connect url) (healthy.connect url))
            (λ _. expect-Succeeds m.migrate healthy.migrate)))

  creation_kept :
      (creation : Creation)
      → ((text : String) → creation ≢ refused text)
      → (text : String) → try_create_table creation ≢ call_failed text
  unfolding try_create_table
  creation_kept created h text e = cc
  creation_kept in_use h text e = cc
  creation_kept (refused t) h text e = h t refl

  ensure_table-Succeeds : (table key : String) → Succeeds (ensure_table m table key)
  unfolding ensure_table
  ensure_table-Succeeds table key s =
      let creation = (m.create_table table key s).0 in
      let (a, e) =
        done_answer (try_create_table creation)
          (creation_kept creation (λ text. healthy.create_table table key text s)) in
      (a, ap or_panicked e)

  create_dynamodb-Succeeds : Succeeds (create_dynamodb m)
  unfolding create_dynamodb create_tables
  create_dynamodb-Succeeds s =
      let names = table_names m s in
      bind-Succeeds (ensure_table m names.metadata_table_name "id") _
        (ensure_table-Succeeds names.metadata_table_name "id")
        (λ _.
          bind-Succeeds (ensure_table m names.entries_table_name id_column) _
            (ensure_table-Succeeds names.entries_table_name id_column)
            (λ _.
              bind-Succeeds (ensure_table m names.chains_table_name id_column) (λ _. pure names)
                (ensure_table-Succeeds names.chains_table_name id_column) (λ _ s'. (names, refl))))
        s

  create_indexes-Succeeds : (driver : IndexesDriver) → Succeeds (create_indexes m features driver)
  unfolding create_indexes create_rocksdb
  create_indexes-Succeeds IndexesDriver.lmmd = create_heed-Succeeds
  create_indexes-Succeeds IndexesDriver.rocksdb =
      expect-Succeeds (m.open_rocksdb "data/indexes_rocksdb") (healthy.open_rocksdb _)
  create_indexes-Succeeds IndexesDriver.dynamodb =
      bind-Succeeds (create_dynamodb m) (λ _. pure tt) create_dynamodb-Succeeds (λ _ s. (tt, refl))

  create_metadata-Succeeds :
      (driver : MetadataDriver) → Succeeds (create_metadata m features driver)
  unfolding create_metadata
  create_metadata-Succeeds MetadataDriver.sqlite = create_sqlite-Succeeds
  create_metadata-Succeeds MetadataDriver.dynamodb =
      bind-Succeeds (create_dynamodb m) (λ _. pure tt) create_dynamodb-Succeeds (λ _ s. (tt, refl))

  -- The server runs, and what ends it ends the program.
  abbrev pub Served : IoResult (Unit {0}) × State → Type 0
  Served p = (s : State) × (p ≡ io m.run s)

  -- Both databases are open and IPv4 is bound; what is left is IPv6 and the run.
  start_server_rule :
      (network : Network) (s : State) (Q : IoResult (Unit {0}) × State → Type 0)
      → ((s' : State) → Q ((bind_ipv6 m features network >> io m.run) s'))
      → Q (start_server m features network s)
  unfolding start_server
  start_server_rule network s Q later = bind_rule _ _ s Q (healthy.indexes_known s) (λ indexes s1.
      bind_rule (create_indexes m features indexes) _ s1 Q (create_indexes-Succeeds indexes s1)
        (λ _ s2. bind_rule _ _ s2 Q (healthy.metadata_known s2) (λ metadata s3.
          bind_rule (create_metadata m features metadata) _ s3 Q
            (create_metadata-Succeeds metadata s3)
            (λ _ s4.
              bind_rule (io (m.bind "0.0.0.0:8080")) _ s4 Q
                (io-Succeeds (m.bind "0.0.0.0:8080") healthy.bind_ipv4 s4) (λ _ s5. later s5)))))

  second_server : (s : State) → Served (start_server m features Network.ipv4_only s)
  unfolding bind_ipv6 ◌>>=◌
  second_server s = start_server_rule Network.ipv4_only s Served (λ s'. (s', refl))

  -- The first server does not panic, and an end without an error is the end of a run.
  abbrev First : IoResult (Unit {0}) × State → Type 0
  First (ok a, s) = Served (ok a, s)
  First (failed _, s) = Unit
  First (panicked, s) = ⊥

  First-run : (o : Outcome (Unit {0})) (s s' : State) → m.run s ≡ (o, s') → First (or_failed o, s')
  First-run (done a) s s' e = (s, ap (λ p. (or_failed p.0, p.1)) (sym e))
  First-run (call_failed text) s s' e = tt

  First-ipv6 :
      (o : Outcome (Unit {0})) (s : State) → First (continue (or_failed o) (λ _. io m.run) s)
  First-ipv6 (done a) s = First-run (m.run s).0 s (m.run s).1 refl
  First-ipv6 (call_failed text) s = tt

  start_server-First : (s : State) → First (start_server m features Network.ipv4_and_ipv6 s)
  unfolding bind_ipv6 ◌>>=◌
  start_server-First s =
      start_server_rule Network.ipv4_and_ipv6 s First
        (λ s'. First-ipv6 (m.bind "[::1]:8080" s').0 (m.bind "[::1]:8080" s').1)

  servers :
      (p : IoResult (Unit {0}) × State)
      → First p
      → Served (or_again m features p.0 (start_server m features Network.ipv4_only) p.1)
  servers (ok tt, s) first = first
  servers (failed _, s) first = second_server s
  servers (panicked, s) first = absurd first

  load_env-Succeeds : (exists : Bool) → Succeeds (load_env m features exists)
  load_env-Succeeds true s = expect-Succeeds m.dotenv healthy.dotenv s
  load_env-Succeeds false s = (tt, refl)

  -- Where every call of the machine at the start succeeds, but that IPv6 may be missing and a run
  -- may fail, and the environment names drivers that are compiled in: `main` ends as a run of the
  -- server ends, and so does not panic before.
  pub main-Served : (s : State) → Served (main m features s)
  unfolding main
  main-Served s =
      bind_rule _ _ s Served (load_env-Succeeds (m.exists ".env" s) s)
        (λ _ s1. servers (start_server m features Network.ipv4_and_ipv6 s1) (start_server-First s1))
