-- ===== src/Tests/OfRocksdb.antt =====
-- src/rocksdb.rs at concrete inputs.
use findex_cloud.Base.{bytes_beq, bytes_eq, map, some, none, [], ◌∷◌, ◌++◌, ◌≡◌, refl}
use findex_cloud.Base.HashMap.{insert}
use findex_cloud.Words.{to_be_bytes, from_be_bytes, be_bytes, be_value, add64}
use findex_cloud.Words.Signed.{as_i64}
use findex_cloud.Errors.{ok, ◌>>=◌ as bind_result}
use findex_cloud.Exec.{◌>>=◌}
use findex_cloud.Core.{Table}
use findex_cloud.Spec
use findex_cloud.Spec.{size_of, size_value, IsSized}
use findex_cloud.Heed.Keys
use findex_cloud.Rocksdb
use findex_cloud.Rocksdb.Keys.{key, size_key, layout, table_to_prefix, prefix}
use findex_cloud.Rocksdb.Merge.{merge_add, add_existing, add_operand, add_operands}
use findex_cloud.Rocksdb.Merge.Grouping.{merge_add-append, then_merge}
use findex_cloud.Rocksdb.Loop.{UpsertsPost, upsert_loop-post}
use findex_cloud.Rocksdb.Chains.{ChainsPost, insert_chains-post}
use findex_cloud.Rocksdb.Reads.{FetchPost, fetch-reads}
use findex_cloud.Tests.Memory.{rocks, rocks_laws}
use findex_cloud.Tests.Samples.{alpha, store, items, stale_items, chains}

unfoldable pub program : Unit {0}
unfolding to_be_bytes from_be_bytes be_bytes be_value add64 as_i64 bytes_beq bind_result ◌>>=◌ key
    size_key table_to_prefix prefix insert Rocksdb.size_i64 Rocksdb.set_size Rocksdb.zip_loop
    Rocksdb.fetch Rocksdb.count_new Rocksdb.compare_and_put Rocksdb.retry_loop Rocksdb.timed_out
    Rocksdb.on_lock Rocksdb.upsert_one Rocksdb.upsert_loop Rocksdb.put_loop Rocksdb.upsert_entries
    Rocksdb.insert_chains merge_add add_existing add_operand add_operands Keys.key Keys.size_key
    Keys.table_to_prefix
program = tt

-- The same upsert as in LMDB, with the same end.
upserted :
    let (r, after) = Rocksdb.upsert_entries rocks alpha items store in
    (r ≡ ok [])
    × (after (key alpha.id Table.entries (7 ∷ [])) ≡ some (71 ∷ []))
    × (after (key alpha.id Table.entries (8 ∷ [])) ≡ some (80 ∷ 81 ∷ []))
    × (after (size_key alpha.id) ≡ some (to_be_bytes 4))
unfolding program
upserted = (refl, refl, refl, refl)

rejected : (Rocksdb.upsert_entries rocks alpha stale_items store).0 ≡ ok ((7 ∷ [], 70 ∷ []) ∷ [])
unfolding program
rejected = refl

merged :
    merge_add (some (to_be_bytes 2)) (to_be_bytes 3 ∷ to_be_bytes 4 ∷ []) ≡ some (to_be_bytes 9)
unfolding program
merged = refl

-- An operand of another length makes the whole merge fail.
not_merged : merge_add none (to_be_bytes 3 ∷ (1 ∷ []) ∷ []) ≡ none
unfolding program
not_merged = refl

pub sized : IsSized (store (size_key alpha.id))
unfolding program
sized = refl

merge_add-append_example :
    merge_add (some (to_be_bytes 2)) ((to_be_bytes 3 ∷ []) ++ to_be_bytes 4 ∷ [])
    ≡ then_merge (merge_add (some (to_be_bytes 2)) (to_be_bytes 3 ∷ [])) (to_be_bytes 4 ∷ [])
merge_add-append_example =
    merge_add-append (some (to_be_bytes 2)) (to_be_bytes 3 ∷ []) (to_be_bytes 4 ∷ [])

partly : merge_add none (to_be_bytes 3 ∷ to_be_bytes 5 ∷ []) ≡ some (to_be_bytes 8)
unfolding program
partly = refl

upsert_loop-post_example :
    UpsertsPost rocks rocks_laws alpha.id store [] items
      (Rocksdb.upsert_loop rocks alpha.id items [] store)
upsert_loop-post_example = upsert_loop-post rocks rocks_laws alpha.id items [] store sized

insert_chains-post_example :
    ChainsPost rocks rocks_laws alpha.id store chains
      (Rocksdb.insert_chains rocks alpha chains store)
insert_chains-post_example = insert_chains-post rocks rocks_laws alpha chains store sized

fetch-reads_example :
    FetchPost rocks rocks_laws store
      (Spec.fetch layout alpha.id store Table.chains ((9 ∷ []) ∷ (10 ∷ []) ∷ []) [])
      (rocks.multi_get (map (key alpha.id Table.chains) ((9 ∷ []) ∷ (10 ∷ []) ∷ [])) store).0
      (Rocksdb.fetch rocks alpha Table.chains ((9 ∷ []) ∷ (10 ∷ []) ∷ []) store)
fetch-reads_example =
    fetch-reads rocks rocks_laws alpha Table.chains ((9 ∷ []) ∷ (10 ∷ []) ∷ []) store
