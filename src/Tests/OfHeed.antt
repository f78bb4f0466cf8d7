-- ===== src/Tests/OfHeed.antt =====
-- src/heed.rs at concrete inputs.
use findex_cloud.Base.{bytes_beq, bytes_eq, some, [], ◌∷◌, ◌≡◌, refl, arith}
use findex_cloud.Base.HashMap.{insert}
use findex_cloud.Words.{to_be_bytes, from_be_bytes, be_bytes, be_value, add64}
use findex_cloud.Words.Signed.{as_i64, i64_bits, add_i64, pos}
use findex_cloud.Errors.{ok, ◌>>=◌ as bind_result}
use findex_cloud.Exec.{◌>>=◌}
use findex_cloud.Core.{Table}
use findex_cloud.Spec
use findex_cloud.Spec.{size_of, IsInjective}
use findex_cloud.Spec.Laws.{find, DistinctUids}
use findex_cloud.Heed.{upsert_entries, insert_chains, fetch, set_size}
use findex_cloud.Heed.Keys.{key, size_key, layout, layout-IsInjective, table_to_prefix}
use findex_cloud.Heed.Txn
use findex_cloud.Heed.Atomic.{
  AllOrNothing, upsert_entries-atomic, insert_chains-atomic, fetch-atomic,
}
use findex_cloud.Heed.Cells.{
  OrUnchanged, Swapped, Grown, Stored, Found, Untouched, upsert_entries-cell, upsert_entries-size,
  insert_chains-get, fetch-get, upsert_entries-other_index,
}
use findex_cloud.Tests.Memory.{lmdb, lmdb_laws}
use findex_cloud.Tests.Samples.{alpha, beta, store, items, stale_items, chains}

program : Unit {0}
unfolding to_be_bytes from_be_bytes be_bytes be_value add64 as_i64 i64_bits add_i64 bytes_beq
    bind_result ◌>>=◌ upsert_entries insert_chains fetch set_size key size_key table_to_prefix
    Txn.size_i64 Txn.i64_to_be_bytes Txn.read_size Txn.fetch_loop Txn.count_new Txn.accept
    Txn.upsert_one Txn.upsert_loop Txn.insert_loop Txn.put_size insert
program = tt

-- An upsert of a known and of a new entry: both are accepted, and the size grows by the new one.
upserted :
    let (r, after) = upsert_entries lmdb alpha items store in
    (r ≡ ok [])
    × (after (key alpha.id Table.entries (7 ∷ [])) ≡ some (71 ∷ []))
    × (after (key alpha.id Table.entries (8 ∷ [])) ≡ some (80 ∷ 81 ∷ []))
    × (after (size_key alpha.id) ≡ some (to_be_bytes 4))
unfolding program
upserted = (refl, refl, refl, refl)

-- A client that does not know the entry has it reported.
rejected : (upsert_entries lmdb alpha stale_items store).0 ≡ ok ((7 ∷ [], 70 ∷ []) ∷ [])
unfolding program
rejected = refl

sized : (set_size lmdb alpha store).0 ≡ ok (record alpha { size = some (pos 2) })
unfolding program
sized = refl

-- The chain of 9 is replaced, and counted again.
recounted : (insert_chains lmdb alpha chains store).1 (size_key alpha.id) ≡ some (to_be_bytes 5)
unfolding program
recounted = refl

upsert_entries-atomic_example :
    let (after, rejected) = Spec.upsert layout alpha.id (store, []) items in
    AllOrNothing lmdb lmdb_laws rejected after store (upsert_entries lmdb alpha items store)
upsert_entries-atomic_example = upsert_entries-atomic lmdb lmdb_laws alpha items store

insert_chains-atomic_example :
    AllOrNothing lmdb lmdb_laws tt
      (Spec.insert_chains layout alpha.id store chains)
      store
      (insert_chains lmdb alpha chains store)
insert_chains-atomic_example = insert_chains-atomic lmdb lmdb_laws alpha chains store

fetch-atomic_example :
    AllOrNothing lmdb lmdb_laws
      (Spec.fetch layout alpha.id store Table.entries ((7 ∷ []) ∷ (8 ∷ []) ∷ []) [])
      store
      store
      (fetch lmdb alpha Table.entries ((7 ∷ []) ∷ (8 ∷ []) ∷ []) store)
fetch-atomic_example =
    fetch-atomic lmdb lmdb_laws alpha Table.entries ((7 ∷ []) ∷ (8 ∷ []) ∷ []) store

items_distinct : DistinctUids items
unfolding find bytes_beq
items_distinct = (refl, (refl, tt))

upsert_entries-cell_example :
    OrUnchanged lmdb lmdb_laws store
      (Swapped lmdb lmdb_laws alpha (7 ∷ []) items store)
      (upsert_entries lmdb alpha items store)
upsert_entries-cell_example =
    upsert_entries-cell lmdb lmdb_laws alpha 1 store items (7 ∷ []) (refl, (refl, tt))
      items_distinct refl

upsert_entries-size_example :
    OrUnchanged lmdb lmdb_laws store
      (Grown lmdb lmdb_laws alpha items store)
      (upsert_entries lmdb alpha items store)
upsert_entries-size_example =
    upsert_entries-size lmdb lmdb_laws alpha 1 store items (refl, (refl, tt)) items_distinct

insert_chains-get_example :
    OrUnchanged lmdb lmdb_laws store
      (Stored lmdb lmdb_laws alpha (9 ∷ []) chains store)
      (insert_chains lmdb alpha chains store)
insert_chains-get_example =
    insert_chains-get lmdb lmdb_laws alpha 1 store chains (9 ∷ []) (refl, (refl, tt))
      (((λ e. absurd (ground arith)), tt), (tt, tt)) refl

fetch-get_example :
    OrUnchanged lmdb lmdb_laws store
      (Found lmdb lmdb_laws alpha Table.entries ((7 ∷ []) ∷ []) (7 ∷ []) store)
      (fetch lmdb alpha Table.entries ((7 ∷ []) ∷ []) store)
fetch-get_example = fetch-get lmdb lmdb_laws alpha store Table.entries ((7 ∷ []) ∷ []) (7 ∷ [])

upsert_entries-other_index_example :
    OrUnchanged lmdb lmdb_laws store
      (Untouched lmdb lmdb_laws beta.id Table.chains (9 ∷ []) store)
      (upsert_entries lmdb alpha items store)
upsert_entries-other_index_example =
    upsert_entries-other_index lmdb lmdb_laws alpha store items beta.id Table.chains (9 ∷ []) refl
      (λ e. absurd (ground arith))

layout-IsInjective_example : IsInjective layout
layout-IsInjective_example = layout-IsInjective
