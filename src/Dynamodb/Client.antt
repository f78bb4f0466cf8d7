-- ===== src/Dynamodb/Client.antt =====
-- The crate `aws_sdk_dynamodb` as src/dynamodb.rs uses it.
use findex_cloud.Base.{
  Bytes, bytes_eq, Option, none, some, List, ◌≡◌, ◌≢◌, String, string_eq, ◌&&◌, ◌==◌, if◌then◌else◌,
  [], ◌∷◌, All, Among,
}
use findex_cloud.Base.HashMap.{get}
use findex_cloud.Errors.{done}
use findex_cloud.Exec.{Call}
use findex_cloud.Dynamodb.Items.{AttributeValue, b, Item, value_item, id_column, value_column}

-- The result of a conditional write: `check_failed` is `ConditionalCheckFailedException`.
pub data Conditional : Type 0 where
  written check_failed : Conditional
  failed : String → Conditional

-- `update_item` with "SET column = :new" on the condition "column = :old"; `put_item` on the
-- condition that no item has its ID. `batch_get_item` leaves out what the service has not processed,
-- which the program does not look at, and `batch_write_item` hands back the items that it has not
-- written. `delete_item` takes the name of the
-- table if one is given.
pub record Dynamo : Type 1 where
  pub Db : Type 0
  pub get_item : String → AttributeValue → Call Db (Option Item)
  pub update_item_if_equal :
      String → AttributeValue → String → AttributeValue → AttributeValue → Db → Conditional × Db
  pub put_item_if_absent : String → Item → Db → Conditional × Db
  pub batch_get_item : String → List AttributeValue → Call Db (List Item)
  pub batch_write_item : String → List Item → Call Db (List Item)
  pub scan : String → Call Db (Option (List Item))
  pub put_item : String → Item → Call Db (Unit {0})
  pub delete_item : Option String → AttributeValue → Call Db (Unit {0})

-- The values of the tables of entries and chains.
abbrev pub Values : Type 0
Values = String → Bytes → Option Bytes

abbrev pub set_value : Values → String → Bytes → Bytes → Values
set_value f table id value t j = if table == t && id == j then some value else f t j

-- Cells of one table written one after the other.
abbrev pub set_values : Values → String → List (Bytes × Bytes) → Values
set_values f table [] = f
set_values f table ((id, value) ∷ cells) = set_values (set_value f table id value) table cells

abbrev pub cell_items : List (Bytes × Bytes) → List Item
cell_items [] = []
cell_items ((id, value) ∷ cells) = value_item id value ∷ cell_items cells

-- A list dealt out into two, each in the order of the list.
pub data Dealt {A : Type 0} : List A → List A → List A → Type 0 where
  dealt : Dealt [] [] []
  to_first : (x : A) {xs ys zs : List A} → Dealt xs ys zs → Dealt (x ∷ xs) (x ∷ ys) zs
  to_second : (x : A) {xs ys zs : List A} → Dealt xs ys zs → Dealt (x ∷ xs) ys (x ∷ zs)

abbrev pub bytes_of : Option AttributeValue → Option Bytes
bytes_of (some (b bytes)) = some bytes
bytes_of _ = none

abbrev pub value_in : Option Item → Option Bytes
value_in none = none
value_in (some item) = bytes_of (get value_column item)

-- What a read of a cell may give.
abbrev pub Readable : Type 1
Readable = String → Bytes → Option Bytes → Type 0

-- A read that does not ask to be consistent gives what the cell holds or has held.
abbrev pub Stood : Values → List Values → Readable
Stood f past table id o = (g : Values) × Among g (f ∷ past) × (g table id ≡ o)

-- An item of a batch: it has one of the IDs asked for, and a value that may be read under it.
abbrev pub Answer : Readable → String → List AttributeValue → Item → Type 0
Answer readable table ids item =
    (id : Bytes) × (get id_column item ≡ some (b id))
    × Among (b id) ids
    × readable table id (value_in (some item))

-- What DynamoDB documents of single items: eventually consistent reads, since the program asks for
-- no others, and writes on a condition; and of batches. `past` is what the tables have held before.
-- Nothing is said of a single write that fails: it may have been carried out. A batch of writes may
-- have been carried out in part, also where it fails.
pub record IsDynamo (db : Dynamo) : Type 0 where
  pub values : db.Db → Values
  pub past : db.Db → List Values
  pub get_item-reads :
      (table : String) (id : Bytes) (d : db.Db) (o : Option Item)
      → (db.get_item table (b id) d).0 ≡ done o
      → Stood (values d) (past d) table id (value_in o)
  pub get_item-keeps :
      (table : String) (id : AttributeValue) (d : db.Db)
      → values (db.get_item table id d).1 ≡ values d
  pub update-written :
      (table : String) (id old new : Bytes) (d : db.Db)
      → (db.update_item_if_equal table (b id) value_column (b old) (b new) d).0 ≡ written
      → (values d table id ≡ some old)
        × (values (db.update_item_if_equal table (b id) value_column (b old) (b new) d).1
            ≡ set_value (values d) table id new)
  pub update-check_failed :
      (table : String) (id old new : Bytes) (d : db.Db)
      → (db.update_item_if_equal table (b id) value_column (b old) (b new) d).0 ≡ check_failed
      → (values d table id ≢ some old)
        × (values (db.update_item_if_equal table (b id) value_column (b old) (b new) d).1
            ≡ values d)
        × (past (db.update_item_if_equal table (b id) value_column (b old) (b new) d).1 ≡ past d)
  pub put-written :
      (table : String) (id value : Bytes) (d : db.Db)
      → (db.put_item_if_absent table (value_item id value) d).0 ≡ written
      → (values d table id ≡ none)
        × (values (db.put_item_if_absent table (value_item id value) d).1
            ≡ set_value (values d) table id value)
  pub put-check_failed :
      (table : String) (id value : Bytes) (d : db.Db)
      → (db.put_item_if_absent table (value_item id value) d).0 ≡ check_failed
      → (values d table id ≢ none)
        × (values (db.put_item_if_absent table (value_item id value) d).1 ≡ values d)
        × (past (db.put_item_if_absent table (value_item id value) d).1 ≡ past d)
  pub batch_get_item-answers :
      (table : String) (ids : List AttributeValue) (d : db.Db) (found : List Item)
      → (db.batch_get_item table ids d).0 ≡ done found
      → All (Answer (Stood (values d) (past d)) table ids) found
  pub batch_get_item-keeps :
      (table : String) (ids : List AttributeValue) (d : db.Db)
      → (values (db.batch_get_item table ids d).1 ≡ values d)
        × (past (db.batch_get_item table ids d).1 ≡ past d)
  pub batch_write_item-writes :
      (table : String) (cells : List (Bytes × Bytes)) (d : db.Db)
      → (stored : List (Bytes × Bytes)) × (left : List (Bytes × Bytes)) × Dealt cells stored left
        × (values (db.batch_write_item table (cell_items cells) d).1
            ≡ set_values (values d) table stored)
        × ((unprocessed : List Item)
            → (db.batch_write_item table (cell_items cells) d).0 ≡ done unprocessed
            → unprocessed ≡ cell_items left)

-- A service that processes all of every batch that it answers.
pub record IsProcessing (db : Dynamo) (dynamo : IsDynamo db) : Type 0 where
  pub all_written :
      (table : String) (items : List Item) (d : db.Db) (unprocessed : List Item)
      → (db.batch_write_item table items d).0 ≡ done unprocessed
      → unprocessed ≡ []
