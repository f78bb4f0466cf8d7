-- ===== src/Core.antt =====
-- src/core.rs: the data of the service and the two traits that the databases implement.
pub mod Signature
pub mod Cache
use findex_cloud.Base.{ℕ, Bytes, Option, List, [], ◌∷◌}
use findex_cloud.Words.Signed.{ℤ}
use findex_cloud.Errors.{Result}
use findex_cloud.Exec.{Exec, pure, ◌>>=◌}

-- Strings are their UTF-8 bytes, and a `NaiveDateTime` is a number, the instant.
pub record Index : Type 0 where
  pub id : Bytes
  pub name : Bytes
  pub fetch_entries_key : Bytes
  pub fetch_chains_key : Bytes
  pub upsert_entries_key : Bytes
  pub insert_chains_key : Bytes
  pub size : Option ℤ
  pub created_at : ℕ

pub record NewIndex : Type 0 where
  pub id : Bytes
  pub name : Bytes
  pub fetch_entries_key : Bytes
  pub fetch_chains_key : Bytes
  pub upsert_entries_key : Bytes
  pub insert_chains_key : Bytes

pub data Table : Type 0 where
  entries chains : Table

-- `Uid<UID_LENGTH>`, `HashSet<Uid>`, `EncryptedTable` and `UpsertData` of `cosmian_findex`; sets
-- and maps stand in the order of their iteration.
abbrev pub Uid : Type 0
Uid = Bytes

abbrev pub Uids : Type 0
Uids = List Uid

abbrev pub EncryptedTable : Type 0
EncryptedTable = List (Uid × Bytes)

-- A UID with the value that the client knows and the value that it wants.
pub record UpsertItem : Type 0 where
  pub uid : Uid
  pub old_value : Option Bytes
  pub new_value : Bytes

abbrev pub UpsertData : Type 0
UpsertData = List UpsertItem

-- `set_size` sets a field of the index that it is given: the index comes back.
pub record IndexesDatabase (S : Type 0) : Type 0 where
  pub set_size : Index → Exec S Index
  pub fetch : Index → Table → Uids → Exec S EncryptedTable
  pub upsert_entries : Index → UpsertData → Exec S EncryptedTable
  pub insert_chains : Index → EncryptedTable → Exec S (Unit {0})

pub record MetadataDatabase (S : Type 0) : Type 0 where
  pub get_indexes : Exec S (List Index)
  pub get_index : Bytes → Exec S (Option Index)
  pub delete_index : Bytes → Exec S (Unit {0})
  pub create_index : NewIndex → Exec S Index

-- The default method of the trait, which every database keeps.
unfoldable pub set_sizes : {S : Type 0} → IndexesDatabase S → List Index → Exec S (List Index)
set_sizes db [] = pure []
set_sizes db (index ∷ indexes) = do
  sized ← db.set_size index
  rest ← set_sizes db indexes
  pure (sized ∷ rest)
