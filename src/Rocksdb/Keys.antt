-- ===== src/Rocksdb/Keys.antt =====
-- The keys of src/rocksdb.rs: the prefix of a table of an index, and the UID.
use mathlib.Core.List.{append_assoc}
use findex_cloud.Base.{ℕ, Bytes, [], ◌∷◌, ◌++◌, ◌≡◌, sym, subst}
use findex_cloud.Core.{Table, Uid}
use findex_cloud.Spec.{Layout, IsInjective}
use findex_cloud.Heed.Keys

pub data Prefix : Type 0 where
  entries chains size : Prefix

unfoldable pub table_to_prefix : Table → Prefix
table_to_prefix Table.entries = Prefix.entries
table_to_prefix Table.chains = Prefix.chains

-- `prefix as u8` under `repr(u8)`
abbrev pub prefix_byte : Prefix → ℕ
prefix_byte Prefix.entries = 0
prefix_byte Prefix.chains = 1
prefix_byte Prefix.size = 2

unfoldable pub prefix : Bytes → Table → Bytes
unfolding table_to_prefix
prefix id table = id ++ prefix_byte (table_to_prefix table) ∷ []

unfoldable pub key : Bytes → Table → Uid → Bytes
unfolding prefix
key id table uid = prefix id table ++ uid

unfoldable pub size_key : Bytes → Bytes
size_key id = id ++ prefix_byte Prefix.size ∷ []

abbrev pub layout : Layout
layout = record { key = key; size_key = size_key }

key-eq-heed : (id : Bytes) (t : Table) (x : Uid) → key id t x ≡ Keys.key id t x
unfolding key Keys.key
key-eq-heed id Table.entries x = rw append_assoc
key-eq-heed id Table.chains x = rw append_assoc

-- RocksDB and LMDB keep every value and every size under the same key.
pub layout-eq-heed : layout ≡ Keys.layout
unfolding size_key Keys.size_key
layout-eq-heed = λ i. record { key = λ id t x. key-eq-heed id t x i; size_key = λ id. id ++ 2 ∷ [] }

pub layout-IsInjective : IsInjective layout
layout-IsInjective = subst IsInjective (sym layout-eq-heed) Keys.layout-IsInjective
