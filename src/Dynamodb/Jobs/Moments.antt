-- ===== src/Dynamodb/Jobs/Moments.antt =====
-- What a job of src/dynamodb.rs has done in one step of a run.
use findex_cloud.Base.{ℕ, Bytes, Option, some, ◌++◌, ◌≡◌, ◌≢◌}
use findex_cloud.Core.{Index, UpsertItem}
use findex_cloud.Dynamodb
use findex_cloud.Dynamodb.Client.{Dynamo, IsDynamo, Stood, set_value}
use findex_cloud.Dynamodb.Jobs.{
  waiting, checking, System, written_by, Step, write, read, Reach, later,
}

module _ (db : Dynamo) (dynamo : IsDynamo db) (names : Dynamodb.Names) (index : Index) where
  -- The value of the entry of an item.
  abbrev pub cell : UpsertItem → System db → Option Bytes
  cell item s = dynamo.values s.tables names.entries_table_name (index.id ++ item.uid)

-- In one step of this run the job `i` has found the old value in its entry and made it the new one.
pub data Accepted (db : Dynamo) (dynamo : IsDynamo db) (names : Dynamodb.Names) (n : ℕ)
    (index : Index) (s0 : System db) (i : ℕ) (item : UpsertItem)
    : (s : System db) → Reach db names n index s0 s → Type 0 where
  accepted_now :
      (s : System db) (run : Reach db names n index s0 s) (at : s.phase i ≡ waiting item)
      → cell db dynamo names index item s ≡ item.old_value
      → dynamo.values (written_by db names n index item s).1
        ≡ set_value
            (dynamo.values s.tables)
            names.entries_table_name
            (index.id ++ item.uid)
            item.new_value
      → Accepted db dynamo names n index s0 i item _ (later run (write i item at))
  accepted_before :
      (s u : System db) (run : Reach db names n index s0 s) (step : Step db names n index s u)
      → Accepted db dynamo names n index s0 i item s run
      → Accepted db dynamo names n index s0 i item u (later run step)

-- In one step of this run the job `i` has found another value than the old one, and has changed none.
pub data Differed (db : Dynamo) (dynamo : IsDynamo db) (names : Dynamodb.Names) (n : ℕ)
    (index : Index) (s0 : System db) (i : ℕ) (item : UpsertItem)
    : (s : System db) → Reach db names n index s0 s → Type 0 where
  differed_now :
      (s : System db) (run : Reach db names n index s0 s) (at : s.phase i ≡ waiting item)
      → cell db dynamo names index item s ≢ item.old_value
      → dynamo.values (written_by db names n index item s).1 ≡ dynamo.values s.tables
      → Differed db dynamo names n index s0 i item _ (later run (write i item at))
  differed_before :
      (s u : System db) (run : Reach db names n index s0 s) (step : Step db names n index s u)
      → Differed db dynamo names n index s0 i item s run
      → Differed db dynamo names n index s0 i item u (later run step)

-- In one step of this run the job `i` has read the value, which its entry held then or before.
pub data HasRead (db : Dynamo) (dynamo : IsDynamo db) (names : Dynamodb.Names) (n : ℕ)
    (index : Index) (s0 : System db) (i : ℕ) (item : UpsertItem) (v : Bytes)
    : (s : System db) → Reach db names n index s0 s → Type 0 where
  read_now :
      (s : System db) (run : Reach db names n index s0 s) (at : s.phase i ≡ checking item)
      → Stood
          (dynamo.values s.tables)
          (dynamo.past s.tables)
          names.entries_table_name
          (index.id ++ item.uid)
          (some v)
      → HasRead db dynamo names n index s0 i item v _ (later run (read i item at))
  read_before :
      (s u : System db) (run : Reach db names n index s0 s) (step : Step db names n index s u)
      → HasRead db dynamo names n index s0 i item v s run
      → HasRead db dynamo names n index s0 i item v u (later run step)
