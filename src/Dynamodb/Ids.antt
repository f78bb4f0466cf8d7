-- ===== src/Dynamodb/Ids.antt =====
-- What src/dynamodb.rs stores is read back: the UID in an ID, and the index in an item.
use findex_cloud.Base.{
  ℕ, ◌-◌, Bytes, none, some, ◌++◌, length, drop, length-append, drop-length-append, ◌≡◌, ap, ◌∙◌,
  arith, string_eq,
}
use findex_cloud.Base.HashMap.{get}
use findex_cloud.Errors.{ok, ◌>>=◌}
use findex_cloud.Core.{Index, Uid}
use findex_cloud.Dynamodb.Items.{
  Dates, get_uid_attribute_value, extract_uid_from_stored_id, extract_bytes, extract_string,
  item_to_index, index_item, as_b, date_or,
}

drop_index : (id uid : Bytes) → drop (length (id ++ uid) - length uid) (id ++ uid) ≡ uid
drop_index id uid =
    ap (λ n. drop n (id ++ uid)) (omega (arith, length-append {0} id uid))
    ∙ drop-length-append id uid

pub extract_uid-append :
    (id uid : Bytes) → extract_uid_from_stored_id (length uid) (id ++ uid) ≡ ok uid
unfolding extract_uid_from_stored_id
extract_uid-append id uid = ground (arith, drop_index id uid, length-append {0} id uid)

-- The UID extracted from the ID under which it is stored is the UID.
pub extract_uid-get_uid :
    (index : Index) (uid : Uid)
    → (as_b "id" (get_uid_attribute_value index uid) >>= extract_uid_from_stored_id (length uid))
      ≡ ok uid
unfolding get_uid_attribute_value ◌>>=◌
extract_uid-get_uid index uid = extract_uid-append index.id uid

-- Where printed dates can be parsed: the item that stores an index is read as that index without
-- its size.
pub item_to_index-index_item :
    (dates : Dates) (index : Index)
    → ((t : ℕ) → dates.parse_from_str (dates.to_string t) ≡ some t)
    → item_to_index dates (index_item dates index) ≡ ok (record index { size = none })
unfolding item_to_index index_item extract_bytes extract_string get ◌>>=◌
item_to_index-index_item dates index printed =
    ap
      (λ o. date_or (dates.to_string index.created_at) o >>= λ instant.
        ok (record index { size = none; created_at = instant }))
      (printed index.created_at)
