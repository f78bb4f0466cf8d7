-- ===== src/Tests/OfDynamodb.antt =====
-- src/dynamodb.rs at concrete inputs.
use findex_cloud.Base.{
  Bytes, bytes_beq, bytes_eq, option_eq, some, none, [], ◌∷◌, ◌≡◌, refl, string_eq, true, List, sym,
}
use findex_cloud.Base.HashMap.{get, insert, DistinctKeys}
use findex_cloud.Errors.{done, ok, err, dynamo_db, missing_value, sdk, ◌>>=◌ as bind_result}
use findex_cloud.Exec.{◌>>=◌}
use findex_cloud.Core.{Table, NewIndex}
use findex_cloud.Dynamodb
use findex_cloud.Dynamodb.{Names, Schedule}
use findex_cloud.Dynamodb.Items
use findex_cloud.Dynamodb.Items.{
  get_uid_attribute_value, extract_uid_from_stored_id, item_to_index, index_item, as_b, Item,
  AttributeValue, b, id_column, value_item,
}
use findex_cloud.Dynamodb.Client.{set_value, Dynamo, IsProcessing}
use findex_cloud.Dynamodb.Chunks.{chunks, chunks_from}
use findex_cloud.Dynamodb.Metadata.{get_index, create_index, delete_index, index_of, found}
use findex_cloud.Spec.Guarantees.{contains}
use findex_cloud.Dynamodb.Reads.{FetchPost, fetch-Sound}
use findex_cloud.Dynamodb.Inserts.{InsertPost, insert_chains-Inserted}
use findex_cloud.Dynamodb.Inserts.Complete.{insert_chains-cell}
use findex_cloud.Tests.Memory.{done-injective}
use findex_cloud.Tests.Tables.{Tables, dynamo, dynamo_laws, dates}
use findex_cloud.Tests.Samples.{alpha, items, stale_items, chains}

unfoldable pub program : Unit {0}
unfolding get insert bytes_beq bind_result ◌>>=◌ get_uid_attribute_value extract_uid_from_stored_id
    item_to_index index_item Items.extract_bytes Items.extract_string chunks chunks_from get_index
    create_index delete_index index_of found Dynamodb.get_table_name Dynamodb.value_of
    Dynamodb.fetch_value Dynamodb.after_write Dynamodb.conditional_write Dynamodb.upsert_entry
    Dynamodb.set_size Dynamodb.read_items Dynamodb.fetch_chunks Dynamodb.fetch Dynamodb.report
    Dynamodb.run_unanswered Dynamodb.upsert_loop Dynamodb.upsert_entries Dynamodb.put_request
    Dynamodb.insert_chunks Dynamodb.insert_chains
program = tt

abbrev pub names : Names
names = record {
  metadata_table_name = "metadata";
  entries_table_name = "entries";
  chains_table_name = "chains";
}

abbrev schedule : Schedule
schedule = record { order = λ items. items; in_flight = 3 }

-- The entry 7 ↦ 70 of the index alpha, and no index.
abbrev pub tables : Tables
tables = record {
  values = set_value (λ _ _. none) "entries" (1 ∷ 7 ∷ []) (70 ∷ []);
  items = λ _. none;
}

upserted :
    let (r, after) = Dynamodb.upsert_entries dynamo names 1 schedule alpha items tables in
    (r ≡ ok [])
    × (after.values "entries" (1 ∷ 7 ∷ []) ≡ some (71 ∷ []))
    × (after.values "entries" (1 ∷ 8 ∷ []) ≡ some (80 ∷ 81 ∷ []))
unfolding program
upserted = (refl, refl, refl)

rejected :
    (Dynamodb.upsert_entries dynamo names 1 schedule alpha stale_items tables).0
    ≡ ok ((7 ∷ [], 70 ∷ []) ∷ [])
unfolding program
rejected = refl

-- An old value where there is none is an error, unlike in the other drivers.
not_there :
    (Dynamodb.upsert_entries dynamo names 1 schedule alpha
      (record { uid = 5 ∷ []; old_value = some (1 ∷ []); new_value = 2 ∷ [] } ∷ [])
      tables).0
    ≡ err (dynamo_db (missing_value (5 ∷ [])))
unfolding program
not_there = refl

inserted :
    let after = (Dynamodb.insert_chains dynamo names 1 alpha chains tables).1 in
    (Dynamodb.fetch dynamo names 1 alpha Table.chains ((9 ∷ []) ∷ (4 ∷ []) ∷ []) after).0
    ≡ ok ((9 ∷ [], 91 ∷ 92 ∷ []) ∷ [])
unfolding program
inserted = refl

-- A deletion asks for no table.
not_deleted :
    (delete_index dynamo names dates (1 ∷ []) tables).0
    ≡ err (dynamo_db (sdk "ValidationException"))
unfolding program
not_deleted = refl

abbrev seven : Bytes
seven = 1 ∷ 2 ∷ 3 ∷ 4 ∷ 5 ∷ 6 ∷ 7 ∷ []

chunked : chunks 3 seven ≡ (1 ∷ 2 ∷ 3 ∷ []) ∷ (4 ∷ 5 ∷ 6 ∷ []) ∷ (7 ∷ []) ∷ []
unfolding program
chunked = refl

abbrev gamma : NewIndex
gamma = record {
  id = 3 ∷ [];
  name = 103 ∷ [];
  fetch_entries_key = 31 ∷ [];
  fetch_chains_key = 32 ∷ [];
  upsert_entries_key = 33 ∷ [];
  insert_chains_key = 34 ∷ [];
}

fetch-Sound_example :
    FetchPost dynamo dynamo_laws names 1 alpha Table.entries
      (λ x. contains x ((7 ∷ []) ∷ (8 ∷ []) ∷ []) ≡ true)
      tables.values
      []
      (Dynamodb.fetch dynamo names 1 alpha Table.entries ((7 ∷ []) ∷ (8 ∷ []) ∷ []) tables)
unfolding dynamo_laws
fetch-Sound_example =
    fetch-Sound dynamo dynamo_laws names 1 alpha Table.entries ((7 ∷ []) ∷ (8 ∷ []) ∷ []) tables
      (refl, (refl, tt))

unprocessed_none : (unprocessed : List Item) → done [] ≡ done unprocessed → unprocessed ≡ []
unprocessed_none unprocessed h = sym (done-injective h)

dynamo-IsProcessing : IsProcessing dynamo dynamo_laws
unfolding dynamo_laws
dynamo-IsProcessing = record {
  all_written = λ table items d unprocessed h. unprocessed_none unprocessed h;
}

-- The chain of 9 is written over and that of 10 is new.
abbrev with_chain : Tables
with_chain = record tables { values = set_value tables.values "chains" (1 ∷ 9 ∷ []) (90 ∷ []) }

insert_chains-Inserted_example :
    InsertPost dynamo dynamo_laws names 1 alpha chains with_chain.values
      (Dynamodb.insert_chains dynamo names 1 alpha chains with_chain)
unfolding dynamo_laws
insert_chains-Inserted_example =
    insert_chains-Inserted dynamo dynamo_laws names 1 alpha chains with_chain

chains-DistinctKeys : DistinctKeys chains
chains-DistinctKeys = ((λ e. cc, tt), (tt, tt))

insert_chains-cell_example :
    (Dynamodb.insert_chains dynamo names 1 alpha chains with_chain).1.values "chains" (1 ∷ 9 ∷ [])
    ≡ some (91 ∷ 92 ∷ [])
unfolding program dynamo_laws
insert_chains-cell_example =
    insert_chains-cell dynamo dynamo_laws dynamo-IsProcessing names 1 alpha chains with_chain
      (9 ∷ []) chains-DistinctKeys refl

-- A service that is short of capacity: it answers a batch of writes and has written none of them.
abbrev throttled : Dynamo
throttled = record dynamo { batch_write_item = λ table items d. (done items, d) }

-- The client of such a service sees a success, and its chains are lost.
chains_lost :
    let (r, after) = Dynamodb.insert_chains throttled names 1 alpha chains tables in
    (r ≡ ok tt) × (after.values "chains" (1 ∷ 9 ∷ []) ≡ none)
unfolding program
chains_lost = (refl, refl)
