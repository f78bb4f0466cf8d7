-- ===== src/Rocksdb/Locks.antt =====
-- The items of clients of src/rocksdb.rs, interleaved: between the lock of a key and what follows on
-- it, other clients may do anything that the locks allow.
pub mod Held
pub mod Invariant
pub mod History
use findex_cloud.Base.{ℕ, Bytes, Option, [], ◌≡◌, ◌≢◌, ite, ℕ_discrete}
use findex_cloud.Errors.{Result, Outcome, done}
use findex_cloud.Core.{Table, EncryptedTable, UpsertItem}
use findex_cloud.Spec.{IsSized}
use findex_cloud.Rocksdb.{on_lock}
use findex_cloud.Rocksdb.Keys.{key, size_key}
use findex_cloud.Rocksdb.Client.{Rocks, IsRocks}

-- Where an item of `upsert_entries` stands: before `get_for_update`, with its answer, at its end.
pub data Phase (db : Rocks) : Type 0 where
  waiting : (item : UpsertItem) → Phase db
  answered :
      (item : UpsertItem) → (answer : Outcome (Option Bytes × db.Txn)) → (t : db.Txn) → Phase db
  settled : (item : UpsertItem) → (result : Result EncryptedTable) → Phase db

abbrev pub update : {A : Type 0} → (ℕ → A) → ℕ → A → ℕ → A
update f i a j = ite (ℕ_discrete i j) a (f j)

pub record System (db : Rocks) : Type 0 where
  pub store : db.Db
  pub phase : ℕ → Phase db

module _ {db : Rocks} where
  -- The item holds the lock of its entry.
  abbrev pub Holds : System db → ℕ → UpsertItem → Option Bytes → db.Txn → db.Txn → Type 0
  Holds s i item existing u t = s.phase i ≡ answered item (done (existing, u)) t

module _ (db : Rocks) (id : Bytes) where
  abbrev pub entry : UpsertItem → Bytes
  entry item = key id Table.entries item.uid

  -- `transaction` and `get_for_update`
  abbrev pub lock_call : UpsertItem → System db → Outcome (Option Bytes × db.Txn) × db.Txn × db.Db
  lock_call item s =
      let (t, d1) = db.transaction s.store in
      let (answer, d2) = db.get_for_update t (key id Table.entries item.uid) d1 in (answer, t, d2)

  -- What follows on its answer, for one item.
  abbrev pub finish_call :
      UpsertItem
      → Outcome (Option Bytes × db.Txn)
      → db.Txn
      → System db
      → Result EncryptedTable × db.Db
  finish_call item answer t s = on_lock db id answer t item [] s.store

-- A key is given to one holder at a time, and a write elsewhere leaves the locked entries alone and
-- the size well formed.
pub data Step (db : Rocks) (rocks : IsRocks db) (id : Bytes) (s : System db)
    : System db → Type 0 where
  lock :
      (i : ℕ) (item : UpsertItem)
      → s.phase i ≡ waiting item
      → ((existing : Option Bytes) (u : db.Txn)
          → (lock_call db id item s).0 ≡ done (existing, u)
          → (j : ℕ) (item' : UpsertItem) (existing' : Option Bytes) (u' t' : db.Txn)
          → Holds s j item' existing' u' t'
          → entry db id item ≢ entry db id item')
      → Step db rocks id s (record {
        store = (lock_call db id item s).2;
        phase =
            update s.phase i (answered item (lock_call db id item s).0 (lock_call db id item s).1);
      })
  finish :
      (i : ℕ) (item : UpsertItem) (answer : Outcome (Option Bytes × db.Txn)) (t : db.Txn)
      → s.phase i ≡ answered item answer t
      → Step db rocks id s (record {
        store = (finish_call db id item answer t s).1;
        phase = update s.phase i (settled item (finish_call db id item answer t s).0);
      })
  elsewhere :
      (store : db.Db)
      → ((j : ℕ) (item : UpsertItem) (existing : Option Bytes) (u t : db.Txn)
          → Holds s j item existing u t
          → rocks.content store (entry db id item) ≡ rocks.content s.store (entry db id item))
      → IsSized (rocks.content store (size_key id))
      → Step db rocks id s (record s { store = store })

pub data Reach (db : Rocks) (rocks : IsRocks db) (id : Bytes) (s : System db)
    : System db → Type 0 where
  start : Reach db rocks id s s
  later : {t u : System db} → Reach db rocks id s t → Step db rocks id t u → Reach db rocks id s u
