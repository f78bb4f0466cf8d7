-- ===== src/Dynamodb/Jobs.antt =====
-- The jobs of `upsert_entries` of src/dynamodb.rs, interleaved with each other and with the requests
-- of other clients: a job is one conditional write and, where its condition has failed, one read.
pub mod Phases
pub mod Moments
pub mod History
use findex_cloud.Base.{ℕ, Bytes, Option, none, some, ◌≡◌, ite, ℕ_discrete}
use findex_cloud.Errors.{Result, ok, err, panicked}
use findex_cloud.Core.{Index, Table, UpsertItem}
use findex_cloud.Dynamodb
use findex_cloud.Dynamodb.Client.{Dynamo, Conditional, written, check_failed, failed}

-- Where a job stands. `reported` carries what the client is told: nothing if the write was accepted.
pub data Phase : Type 0 where
  waiting : (item : UpsertItem) → Phase
  checking : (item : UpsertItem) → Phase  -- the condition has failed, the value is to be read
  reported : (item : UpsertItem) → (value : Option Bytes) → Phase
  broken : Phase

unfoldable pub after_condition : UpsertItem → Conditional → Phase
after_condition item written = reported item none
after_condition item check_failed = checking item
after_condition item (failed _) = broken

unfoldable pub after_read : UpsertItem → Result Bytes → Phase
after_read item (ok value) = reported item (some value)
after_read item (err _) = broken
after_read item panicked = broken

abbrev pub update : (ℕ → Phase) → ℕ → Phase → ℕ → Phase
update f i p j = ite (ℕ_discrete i j) p (f j)

pub record System (db : Dynamo) : Type 0 where
  pub tables : db.Db
  pub phase : ℕ → Phase

module _ (db : Dynamo) (names : Dynamodb.Names) (uid_length : ℕ) (index : Index) where
  abbrev pub written_by : UpsertItem → System db → Conditional × db.Db
  written_by item s = Dynamodb.conditional_write db names uid_length index item s.tables

  abbrev pub read_by : UpsertItem → System db → Result Bytes × db.Db
  read_by item s = Dynamodb.fetch_value db names uid_length index Table.entries item.uid s.tables

-- A request of another client may leave anything.
pub data Step (db : Dynamo) (names : Dynamodb.Names) (uid_length : ℕ) (index : Index)
    (s : System db) : System db → Type 0 where
  write :
      (i : ℕ) (item : UpsertItem)
      → s.phase i ≡ waiting item
      → Step db names uid_length index s (record {
        tables = (written_by db names uid_length index item s).1;
        phase =
            update s.phase i (after_condition item (written_by db names uid_length index item s).0);
      })
  read :
      (i : ℕ) (item : UpsertItem)
      → s.phase i ≡ checking item
      → Step db names uid_length index s (record {
        tables = (read_by db names uid_length index item s).1;
        phase = update s.phase i (after_read item (read_by db names uid_length index item s).0);
      })
  elsewhere : (tables : db.Db) → Step db names uid_length index s (record s { tables = tables })

pub data Reach (db : Dynamo) (names : Dynamodb.Names) (uid_length : ℕ) (index : Index)
    (s : System db) : System db → Type 0 where
  start : Reach db names uid_length index s s
  later :
      {t u : System db}
      → Reach db names uid_length index s t
      → Step db names uid_length index t u
      → Reach db names uid_length index s u
