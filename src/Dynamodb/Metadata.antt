-- ===== src/Dynamodb/Metadata.antt =====
-- The metadata of src/dynamodb.rs: one item for each index.
use findex_cloud.Base.{ℕ, Bytes, Option, none, some, List, [], ◌∷◌, String}
use findex_cloud.Words.Signed.{pos}
use findex_cloud.Errors.{Result, ok, Outcome, done, failed, ◌>>=◌ as bind_result}
use findex_cloud.Exec.{Exec, pure, lift, attempt, ◌>>=◌, ◌>>◌}
use findex_cloud.Core.{Index, NewIndex, MetadataDatabase}
use findex_cloud.Dynamodb.{Names, sdk_error}
use findex_cloud.Dynamodb.Items.{s, Item, Dates, item_to_index, index_item}
use findex_cloud.Dynamodb.Client.{Dynamo}

-- The result of `create_table`: `in_use` is `ResourceInUseException`.
pub data Creation : Type 0 where
  created in_use : Creation
  refused : String → Creation

unfoldable pub try_create_table : Creation → Outcome (Unit {0})
try_create_table created = done tt
try_create_table in_use = done tt
try_create_table (refused text) = failed text

unfoldable pub items_to_indexes : Dates → List Item → Result (List Index)
unfolding bind_result
items_to_indexes dates [] = ok []
items_to_indexes dates (item ∷ items) =
    bind_result (item_to_index dates item)
      (λ index. bind_result (items_to_indexes dates items) (λ indexes. ok (index ∷ indexes)))

unfoldable pub scanned : Dates → Option (List Item) → Result (List Index)
scanned dates none = ok []
scanned dates (some items) = items_to_indexes dates items

unfoldable pub found : Dates → Option Item → Result (Option Index)
unfolding bind_result
found dates none = ok none
found dates (some item) = bind_result (item_to_index dates item) (λ index. ok (some index))

-- `now` is `Utc::now().naive_utc()`.
unfoldable pub index_of : NewIndex → ℕ → Index
index_of new_index now = record {
  id = new_index.id;
  name = new_index.name;
  fetch_entries_key = new_index.fetch_entries_key;
  fetch_chains_key = new_index.fetch_chains_key;
  upsert_entries_key = new_index.upsert_entries_key;
  insert_chains_key = new_index.insert_chains_key;
  size = some (pos 0);
  created_at = now;
}

module _ (db : Dynamo) (names : Names) (dates : Dates) where
  unfoldable pub get_indexes : Exec db.Db (List Index)
  get_indexes = do
    items ← attempt sdk_error (db.scan names.metadata_table_name)
    lift (scanned dates items)

  unfoldable pub get_index : Bytes → Exec db.Db (Option Index)
  get_index id = do
    item ← attempt sdk_error (db.get_item names.metadata_table_name (s id))
    lift (found dates item)

  -- The request names no table.
  unfoldable pub delete_index : Bytes → Exec db.Db (Unit {0})
  delete_index id = do attempt sdk_error (db.delete_item none (s id)); pure tt

  -- An index of the same ID is overwritten.
  unfoldable pub create_index : ℕ → NewIndex → Exec db.Db Index
  create_index now new_index = do
    let index = index_of new_index now
    attempt sdk_error (db.put_item names.metadata_table_name (index_item dates index))
    pure index

  unfoldable pub metadata_database : ℕ → MetadataDatabase db.Db
  metadata_database now = record {
    get_indexes = get_indexes;
    get_index = get_index;
    delete_index = delete_index;
    create_index = create_index now;
  }
