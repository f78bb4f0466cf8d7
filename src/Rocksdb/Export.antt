-- ===== src/Rocksdb/Export.antt =====
-- `fetch_all_as_json` of src/rocksdb.rs, under the feature log_requests: the cells of a table of an
-- index as text.
pub mod Order
pub mod Listing
use findex_cloud.Base.{
  ℕ, Bytes, List, [], ◌∷◌, ◌++◌, map, Bool, true, false, ◌&&◌, nat_beq, if◌then◌else◌, join,
}
use findex_cloud.Errors.{Result, ok, Outcome, done, failed}
use findex_cloud.Exec.{Exec}
use findex_cloud.Core.{Index, Table}
use findex_cloud.Rocksdb.Client.{Rocks}
use findex_cloud.Rocksdb.Keys.{prefix}

-- `iterator(IteratorMode::From(key, Direction::Forward))`, all that it yields.
pub record Iterating (db : Rocks) : Type 0 where
  pub iterator_from : Bytes → db.Db → List (Outcome (Bytes × Bytes)) × db.Db

-- `filter_map(|result| result.ok())`
unfoldable pub filter_ok : List (Outcome (Bytes × Bytes)) → List (Bytes × Bytes)
filter_ok [] = []
filter_ok (done pair ∷ results) = pair ∷ filter_ok results
filter_ok (failed _ ∷ results) = filter_ok results

-- `[u8]::starts_with`
unfoldable pub starts_with : Bytes → Bytes → Bool
starts_with [] key = true
starts_with (x ∷ xs) [] = false
starts_with (x ∷ xs) (y ∷ ys) = nat_beq x y && starts_with xs ys

-- `take_while(|(key, _)| key.starts_with(&prefix))`
unfoldable pub take_while_prefix : Bytes → List (Bytes × Bytes) → List (Bytes × Bytes)
take_while_prefix prefix [] = []
take_while_prefix prefix ((key, value) ∷ pairs) =
    let rest = take_while_prefix prefix pairs in
    if starts_with prefix key then (key, value) ∷ rest else []

module _ (encode : Bytes → Bytes) where
  -- A key and a value in Base64, each between quotes, with a colon between them.
  unfoldable pub json_pair : Bytes × Bytes → Bytes
  json_pair (key, value) = 34 ∷ encode key ++ 34 ∷ 58 ∷ 34 ∷ encode value ++ 34 ∷ []

  module _ (db : Rocks) (iterating : Iterating db) where
    unfoldable pub exported : Index → Table → db.Db → List (Bytes × Bytes)
    exported index table d =
        let start = prefix index.id table in
        take_while_prefix start (filter_ok (iterating.iterator_from start d).0)

    unfoldable pub fetch_all_as_json : Index → Table → Exec db.Db Bytes
    fetch_all_as_json index table d = (
      ok (91 ∷ join (44 ∷ 10 ∷ []) (map json_pair (exported index table d)) ++ 93 ∷ []),
      (iterating.iterator_from (prefix index.id table) d).1,
    )
