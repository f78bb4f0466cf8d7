-- ===== src/Dynamodb.antt =====
-- src/dynamodb.rs: metadata and indexes in DynamoDB, an item for each index, entry and chain.
pub mod Items
pub mod Chunks
pub mod Client
pub mod Ids
pub mod Upserts
pub mod Metadata
pub mod Rows
pub mod Reads
pub mod Inserts
pub mod Jobs
use findex_cloud.Base.{
  bytes_eq, ℕ, zero, suc, Bytes, Option, none, some, List, [], ◌∷◌, map, length, if◌then◌else◌,
  nat_beq, ◌==◌, String, string_eq,
}
use findex_cloud.Base.HashMap.{insert}
use findex_cloud.Words.Signed.{ℤ, pos}
use findex_cloud.Errors.{
  Error, dynamo_db, sdk, missing_value, Result, ok, err, panicked, ◌>>=◌ as bind_result,
}
use findex_cloud.Exec.{Exec, pure, raise, lift, attempt, ◌>>=◌, ◌>>◌}
use findex_cloud.Core.{
  Index, NewIndex, Table, Uid, Uids, EncryptedTable, UpsertItem, UpsertData, IndexesDatabase,
  MetadataDatabase,
}
use Items.{
  AttributeValue, b, s, Item, Dates, id_column, value_column, get_uid_attribute_value,
  extract_uid_from_stored_id, extract_bytes, item_to_index,
}
use Chunks.{chunks}
use Client.{Dynamo, Conditional, written, check_failed, failed}

-- The names come from the environment.
pub record Names : Type 0 where
  pub metadata_table_name : String
  pub entries_table_name : String
  pub chains_table_name : String

unfoldable pub get_table_name : Names → Table → String
get_table_name names Table.entries = names.entries_table_name
get_table_name names Table.chains = names.chains_table_name

-- `From<SdkError<T>>`
abbrev pub sdk_error : String → Error
sdk_error text = dynamo_db (sdk text)

-- How `buffer_unordered` runs the jobs of one `upsert_entries`: the order in which they get their
-- answers, and how many more have reached DynamoDB when an error ends the loop.
pub record Schedule : Type 0 where
  pub order : UpsertData → UpsertData
  pub in_flight : ℕ

-- DYNAMODB_MAX_READ_ELEMENTS and DYNAMODB_MAX_WRITE_ELEMENTS
abbrev pub max_read_elements : ℕ
max_read_elements = 100

abbrev pub max_write_elements : ℕ
max_write_elements = 25

module _ (db : Dynamo) (names : Names) (uid_length : ℕ) where
  unfoldable pub value_of : Uid → Option Item → Result Bytes
  value_of uid none = err (dynamo_db (missing_value uid))
  value_of uid (some item) = extract_bytes item value_column

  unfoldable pub fetch_value : Index → Table → Uid → Exec db.Db Bytes
  fetch_value index table uid = do
    item ←
        attempt sdk_error
          (db.get_item (get_table_name names table) (get_uid_attribute_value index uid))
    lift (value_of uid item)

  -- The `match` on the result of a conditional write.
  unfoldable pub after_write : Index → Uid → Conditional → Exec db.Db (Option (Uid × Bytes))
  after_write index uid written = pure none
  after_write index uid check_failed = do
    value ← fetch_value index Table.entries uid
    pure (some (uid, value))
  after_write index uid (failed text) = raise (sdk_error text)

  unfoldable pub conditional_write : Index → UpsertItem → db.Db → Conditional × db.Db
  conditional_write index item = elim item.old_value as (λ _. db.Db → Conditional × db.Db) [
    | some old_value ↦
        db.update_item_if_equal (get_table_name names Table.entries)
          (get_uid_attribute_value index item.uid) value_column (b old_value) (b item.new_value)
    | none ↦ db.put_item_if_absent (get_table_name names Table.entries) (
        (id_column, get_uid_attribute_value index item.uid) ∷ (value_column, b item.new_value) ∷ [])
  ]

  unfoldable pub upsert_entry : Index → UpsertItem → Exec db.Db (Option (Uid × Bytes))
  upsert_entry index item d =
      let (result, d') = conditional_write index item d in after_write index item.uid result d'

  unfoldable pub set_size : Index → Exec db.Db Index
  set_size index = pure index

  -- One request for at most a hundred items; keys left unprocessed are not looked at.
  unfoldable pub read_items : List Item → EncryptedTable → Result EncryptedTable
  unfolding bind_result
  read_items [] uids_and_values = ok uids_and_values
  read_items (item ∷ items) uids_and_values = bind_result (extract_bytes item id_column) (λ id.
      bind_result (extract_uid_from_stored_id uid_length id) (λ uid.
        bind_result (extract_bytes item value_column)
          (λ value. read_items items (insert uid value uids_and_values))))

  unfoldable pub fetch_chunks :
      Index → Table → List Uids → EncryptedTable → Exec db.Db EncryptedTable
  fetch_chunks index table [] uids_and_values = pure uids_and_values
  fetch_chunks index table (chunk ∷ rest) uids_and_values = do
    items ←
        attempt sdk_error (
          db.batch_get_item (get_table_name names table)
            (map (get_uid_attribute_value index) chunk))
    found ← lift (read_items items uids_and_values)
    fetch_chunks index table rest found

  unfoldable pub fetch : Index → Table → Uids → Exec db.Db EncryptedTable
  fetch index table uids = fetch_chunks index table (chunks max_read_elements uids) []

  unfoldable pub report : Option (Uid × Bytes) → EncryptedTable → EncryptedTable
  report none rejected = rejected
  report (some (uid, value)) rejected = insert uid value rejected

  -- The jobs that reach DynamoDB though nobody waits for their answers.
  unfoldable pub run_unanswered : Index → ℕ → UpsertData → db.Db → db.Db
  run_unanswered index zero items d = d
  run_unanswered index (suc n) [] d = d
  run_unanswered index (suc n) (item ∷ items) d =
      run_unanswered index n items (conditional_write index item d).1

  unfoldable pub upsert_loop : Index → ℕ → UpsertData → EncryptedTable → Exec db.Db EncryptedTable
  upsert_loop index in_flight [] rejected d = (ok rejected, d)
  upsert_loop index in_flight (item ∷ rest) rejected d =
      let (result, d') = upsert_entry index item d in
      elim result as (λ _. Result EncryptedTable × db.Db) [
        | ok conflict ↦ upsert_loop index in_flight rest (report conflict rejected) d'
        | err e ↦ (err e, run_unanswered index in_flight rest d')
        | panicked ↦ (panicked, run_unanswered index in_flight rest d')
      ]

  unfoldable pub upsert_entries : Schedule → Index → UpsertData → Exec db.Db EncryptedTable
  upsert_entries schedule index items =
      upsert_loop index schedule.in_flight (schedule.order items) []

  -- `PutRequest`s of at most 25 chains; items left unprocessed are not looked at.
  unfoldable pub put_request : Index → Uid × Bytes → Item
  put_request index (uid, value) =
      (id_column, get_uid_attribute_value index uid) ∷ (value_column, b value) ∷ []

  unfoldable pub insert_chunks : Index → List EncryptedTable → Exec db.Db (Unit {0})
  insert_chunks index [] = pure tt
  insert_chunks index (chunk ∷ rest) = do
    unprocessed ←
        attempt sdk_error
          (db.batch_write_item (get_table_name names Table.chains) (map (put_request index) chunk))
    insert_chunks index rest

  unfoldable pub insert_chains : Index → EncryptedTable → Exec db.Db (Unit {0})
  insert_chains index items = insert_chunks index (chunks max_write_elements items)

  unfoldable pub indexes_database : Schedule → IndexesDatabase db.Db
  indexes_database schedule = record {
    set_size = set_size;
    fetch = fetch;
    upsert_entries = upsert_entries schedule;
    insert_chains = insert_chains;
  }
