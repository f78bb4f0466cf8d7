-- ===== src/Tests/Samples.antt =====
-- Sample data: two indexes, stores of one, and servers that hold them.
use findex_cloud.Base.{Bytes, none, some, [], ◌∷◌, ◌++◌, false, arith, bytes_eq}
use findex_cloud.Base.HashMap.{get}
use findex_cloud.Words.{to_be_bytes}
use findex_cloud.Core.{Index, Table, EncryptedTable, UpsertData}
use findex_cloud.Core.Cache.{Server, cache_get}
use findex_cloud.Core.Cache.Laws.{IsCoherent}
use findex_cloud.Spec.{Content, update}
use findex_cloud.Heed.Keys.{key, size_key}
use findex_cloud.Sqlite.Contract.{rows_of}
use findex_cloud.Tests.Memory.{crypto}
use findex_cloud.Sqlite.Table.{Db, where_id}

abbrev pub alpha : Index
alpha = record {
  id = 1 ∷ [];
  name = [];
  fetch_entries_key = 11 ∷ [];
  fetch_chains_key = 12 ∷ [];
  upsert_entries_key = 13 ∷ [];
  insert_chains_key = 14 ∷ [];
  size = none;
  created_at = 1;
}

abbrev pub beta : Index
beta = record alpha { id = 2 ∷ []; created_at = 5 }

-- A store in which the index alpha has the entry 7 ↦ 70 and the chain 9 ↦ 90.
abbrev pub empty_store : Content
empty_store k = none

abbrev pub store : Content
store =
    update
      (update (update empty_store (key alpha.id Table.entries (7 ∷ [])) (70 ∷ []))
        (key alpha.id Table.chains (9 ∷ [])) (90 ∷ []))
      (size_key alpha.id) (to_be_bytes 2)

-- A change of 7, a change of 7 from a wrong old value would be rejected, and a new entry 8.
abbrev pub items : UpsertData
items =
    record { uid = 7 ∷ []; old_value = some (70 ∷ []); new_value = 71 ∷ [] }
    ∷ record { uid = 8 ∷ []; old_value = none; new_value = 80 ∷ 81 ∷ [] }
    ∷ []

-- A client that has not seen the entry of 7.
abbrev pub stale_items : UpsertData
stale_items = record { uid = 7 ∷ []; old_value = none; new_value = 72 ∷ [] } ∷ []

abbrev pub chains : EncryptedTable
chains = (9 ∷ [], 91 ∷ 92 ∷ []) ∷ (10 ∷ [], 93 ∷ []) ∷ []

abbrev pub db : Db
db = record { rows = alpha ∷ beta ∷ []; clock = 9; faults = []; ties = λ a b. false }

-- The index alpha has been looked up before.
abbrev pub server : Server Db Content
server = record {
  cache = record { poisoned = false; indexes = (alpha.id, alpha) ∷ [] };
  metadata = db;
  store = store;
}

pub server-IsCoherent : IsCoherent rows_of server
unfolding cache_get get where_id
server-IsCoherent id index h = ground arith

abbrev timestamp : Bytes
timestamp = to_be_bytes 100

-- A body for the index alpha, signed under a seed to expire at 100.
abbrev pub signed_body : Bytes → Bytes → Bytes
signed_body seed text =
    crypto.kmac (crypto.derive_kmac_key seed alpha.id) timestamp text ++ (timestamp ++ text)
