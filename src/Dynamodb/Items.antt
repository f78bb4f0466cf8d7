-- ===== src/Dynamodb/Items.antt =====
-- The items of src/dynamodb.rs: the IDs under which values are stored, and the item of an index.
use findex_cloud.Base.{
  ℕ, ◌-◌, Bytes, Option, none, some, List, [], ◌∷◌, ◌++◌, length, drop, ltb, nat_beq, if◌then◌else◌,
  String, string_eq,
}
use findex_cloud.Base.HashMap.{get}
use findex_cloud.Errors.{
  dynamo_db, missing_attribute, not_bytes, not_a_string, no_uid_at_tail, bad_date, Result, ok, err,
  panicked, ◌>>=◌,
}
use findex_cloud.Core.{Index, Uid}

-- `AttributeValue`, as far as the program tells its variants apart.
pub data AttributeValue : Type 0 where
  b : Bytes → AttributeValue
  s : Bytes → AttributeValue
  other : AttributeValue

abbrev pub Item : Type 0
Item = List (String × AttributeValue)

-- ENTRIES_AND_CHAINS_ID_COLUMN_NAME and ENTRIES_AND_CHAINS_VALUE_COLUMN_NAME
abbrev pub id_column : String
id_column = "id"

abbrev pub value_column : String
value_column = "value_bytes"

-- The item of an entry or a chain.
abbrev pub value_item : Bytes → Bytes → Item
value_item id value = (id_column, b id) ∷ (value_column, b value) ∷ []

unfoldable pub get_uid_attribute_value : Index → Uid → AttributeValue
get_uid_attribute_value index uid = b (index.id ++ uid)

-- `id.as_slice()[id.len() - UID_LENGTH..]`: a shorter ID is out of range.
unfoldable pub extract_uid_from_stored_id : ℕ → Bytes → Result Uid
extract_uid_from_stored_id uid_length id =
    let tail = drop (length id - uid_length) id in
    if ltb (length id) uid_length
    then panicked
    else if nat_beq (length tail) uid_length
    then ok tail
    else err (dynamo_db (no_uid_at_tail id))

abbrev pub as_b : String → AttributeValue → Result Bytes
as_b key (b bytes) = ok bytes
as_b key _ = err (dynamo_db (not_bytes key))

abbrev pub as_s : String → AttributeValue → Result Bytes
as_s key (s text) = ok text
as_s key _ = err (dynamo_db (not_a_string key))

abbrev pub attribute : String → Option AttributeValue → Result AttributeValue
attribute key none = err (dynamo_db (missing_attribute key))
attribute key (some value) = ok value

unfoldable pub extract_bytes : Item → String → Result Bytes
extract_bytes item key = do value ← attribute key (get key item); as_b key value

unfoldable pub extract_string : Item → String → Result Bytes
extract_string item key = do value ← attribute key (get key item); as_s key value

-- `chrono`: `to_string` of a `NaiveDateTime`, and `parse_from_str` with "%Y-%m-%d %H:%M:%S%.f".
pub record Dates : Type 0 where
  pub to_string : ℕ → Bytes
  pub parse_from_str : Bytes → Option ℕ

abbrev pub date_or : Bytes → Option ℕ → Result ℕ
date_or text none = err (dynamo_db (bad_date text))
date_or text (some instant) = ok instant

unfoldable pub item_to_index : Dates → Item → Result Index
item_to_index dates item = do
  created_at ← extract_string item "created_at"
  id ← extract_string item "id"
  name ← extract_string item "name"
  fetch_entries_key ← extract_bytes item "fetch_entries_key"
  fetch_chains_key ← extract_bytes item "fetch_chains_key"
  upsert_entries_key ← extract_bytes item "upsert_entries_key"
  insert_chains_key ← extract_bytes item "insert_chains_key"
  instant ← date_or created_at (dates.parse_from_str created_at)
  ok (record {
    id = id;
    name = name;
    fetch_entries_key = fetch_entries_key;
    fetch_chains_key = fetch_chains_key;
    upsert_entries_key = upsert_entries_key;
    insert_chains_key = insert_chains_key;
    size = none;
    created_at = instant;
  })

-- The item that `create_index` puts.
unfoldable pub index_item : Dates → Index → Item
index_item dates index =
    ("id", s index.id)
    ∷ ("name", s index.name)
    ∷ ("fetch_entries_key", b index.fetch_entries_key)
    ∷ ("fetch_chains_key", b index.fetch_chains_key)
    ∷ ("upsert_entries_key", b index.upsert_entries_key)
    ∷ ("insert_chains_key", b index.insert_chains_key)
    ∷ ("created_at", s (dates.to_string index.created_at))
    ∷ []
