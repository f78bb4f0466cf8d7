-- ===== src/Tests/Tables.antt =====
-- DynamoDB in memory: the values of its tables and the items of the metadata.
use findex_cloud.Base.{
  Bytes, bytes_eq, option_eq, Option, none, some, List, [], ◌∷◌, map, String, string_eq, Bool, true,
  false, ◌==◌, if◌then◌else◌, ◌≡◌, ◌≢◌, refl, ap, sym, subst, inl, inr, All, ◌∙◌, eq_of_beq,
  ne_of_beq-false,
}
use findex_cloud.Base.HashMap.{get}
use findex_cloud.Errors.{Outcome, done, failed as call_failed}
use findex_cloud.Dynamodb.Items.{
  AttributeValue, b, s, other, Item, Dates, id_column, value_column, value_item, index_item,
}
use findex_cloud.Dynamodb.Client.{
  Dynamo, IsDynamo, Values, Stood, set_value, value_in, Answer, bytes_of, Dealt, dealt, to_first,
  set_values, cell_items, Conditional, written, check_failed, failed,
}
use findex_cloud.Dynamodb.Rows.{HasItems}
use findex_cloud.Tests.Memory.{done-injective}

pub record Tables : Type 0 where
  pub values : Values
  pub items : Bytes → Option Item

abbrev pub swap : Bool → Tables → Tables → Conditional × Tables
swap true old new = (written, new)
swap false old new = (check_failed, old)

abbrev pub with_value : Tables → String → Bytes → Bytes → Tables
with_value d table id v = record d { values = set_value d.values table id v }

abbrev pub stored : Bytes → Option Bytes → Option Item
stored id none = none
stored id (some v) = some (value_item id v)

abbrev pub get_item : Tables → String → AttributeValue → Option Item
get_item d table (b id) = stored id (d.values table id)
get_item d table (s id) = d.items id
get_item d table other = none

abbrev pub value_at : Tables → String → AttributeValue → Option Item
value_at d table (b id) = stored id (d.values table id)
value_at d table (s id) = none
value_at d table other = none

abbrev pub update_item :
    String → AttributeValue → AttributeValue → AttributeValue → Tables → Conditional × Tables
update_item table (b id) (b old) (b new) d =
    swap (d.values table id == some old) d (with_value d table id new)
update_item table _ _ _ d = (failed "ValidationException", d)

abbrev pub put_parts :
    String → Option AttributeValue → Option AttributeValue → Tables → Conditional × Tables
put_parts table (some (b id)) (some (b v)) d =
    swap (d.values table id == none) d (with_value d table id v)
put_parts table _ _ d = (failed "ValidationException", d)

abbrev pub present : List (Option Item) → List Item
present [] = []
present (none ∷ rest) = present rest
present (some item ∷ rest) = item ∷ present rest

abbrev pub put_row : Option AttributeValue → Item → Tables → Outcome (Unit {0}) × Tables
put_row (some (s id)) item d =
    (done tt, record d { items = λ j. if id == j then some item else d.items j })
put_row _ item d = (call_failed "ValidationException", d)

abbrev pub delete_row : Option String → AttributeValue → Tables → Outcome (Unit {0}) × Tables
delete_row (some table) (s id) d =
    (done tt, record d { items = λ j. if id == j then none else d.items j })
delete_row _ _ d = (call_failed "ValidationException", d)

abbrev pub overwritten : String → Option Bytes → Option Bytes → Tables → Tables
overwritten table (some id) (some v) d = with_value d table id v
overwritten table _ _ d = d

abbrev pub write_all : String → List Item → Tables → Tables
write_all table [] d = d
write_all table (item ∷ rest) d =
    write_all table rest
      (overwritten table (bytes_of (get id_column item)) (bytes_of (get value_column item)) d)

abbrev pub dynamo : Dynamo
dynamo = record {
  Db = Tables;
  get_item = λ table id d. (done (get_item d table id), d);
  update_item_if_equal = λ table id column old new d. update_item table id old new d;
  put_item_if_absent =
      λ table item d. put_parts table (get id_column item) (get value_column item) d;
  batch_get_item = λ table ids d. (done (present (map (value_at d table) ids)), d);
  batch_write_item = λ table items d. (done [], write_all table items d);
  scan = λ table d. (done none, d);
  put_item = λ table item d. put_row (get id_column item) item d;
  delete_item = delete_row;
}

pub swap-written :
    (c : Bool) (old new : Tables)
    → (swap c old new).0 ≡ written
    → (c ≡ true) × ((swap c old new).1 ≡ new)
swap-written true old new e = (refl, refl)
swap-written false old new e = cc

pub swap-check_failed :
    (c : Bool) (old new : Tables)
    → (swap c old new).0 ≡ check_failed
    → (c ≡ false) × ((swap c old new).1 ≡ old)
swap-check_failed true old new e = cc
swap-check_failed false old new e = (refl, refl)

module _ (table : String) (id : Bytes) (o : Option Bytes) (v : Bytes) (d : Tables) where
  pub after_written :
      (swap (d.values table id == o) d (with_value d table id v)).0 ≡ written
      → (d.values table id ≡ o)
        × ((swap (d.values table id == o) d (with_value d table id v)).1.values
            ≡ set_value d.values table id v)
  after_written e =
      let (same, new) = swap-written (d.values table id == o) d (with_value d table id v) e in
      (eq_of_beq (d.values table id) o same, ap (λ t. t.values) new)

  pub after_check_failed :
      (swap (d.values table id == o) d (with_value d table id v)).0 ≡ check_failed
      → (d.values table id ≢ o)
        × ((swap (d.values table id == o) d (with_value d table id v)).1.values ≡ d.values)
        × (◌≡◌ {A = List Values} [] [])
  after_check_failed e =
      let (differs, old) =
        swap-check_failed (d.values table id == o) d (with_value d table id v) e in
      (ne_of_beq-false (d.values table id) o differs, ap (λ t. t.values) old, refl)

pub stored-value_in : (id : Bytes) (o : Option Bytes) → value_in (stored id o) ≡ o
unfolding get
stored-value_in id none = refl
stored-value_in id (some v) = refl

module _ (d : Tables) (table : String) where
  pub one_more :
      (k : AttributeValue) (ids : List AttributeValue) (found : List Item)
      → All (Answer (Stood d.values []) table ids) found
      → All (Answer (Stood d.values []) table (k ∷ ids)) found
  one_more k ids [] answers = tt
  one_more k ids (item ∷ found) ((id, has_id, among, value), answers) =
      ((id, has_id, inr among, value), one_more k ids found answers)

  pub stored_answers :
      (id : Bytes) (o : Option Bytes) (ids : List AttributeValue) (rest : List (Option Item))
      → o ≡ d.values table id
      → All (Answer (Stood d.values []) table (b id ∷ ids)) (present rest)
      → All (Answer (Stood d.values []) table (b id ∷ ids)) (present (stored id o ∷ rest))
  unfolding get
  stored_answers id none ids rest e answers = answers
  stored_answers id (some v) ids rest e answers =
      ((id, refl, inl refl, (d.values, inl refl, sym e)), answers)

  pub present_answers :
      (ids : List AttributeValue)
      → All (Answer (Stood d.values []) table ids) (present (map (value_at d table) ids))
  present_answers [] = tt
  present_answers (b id ∷ ids) =
      stored_answers id (d.values table id) ids (map (value_at d table) ids) refl
        (one_more (b id) ids (present (map (value_at d table) ids)) (present_answers ids))
  present_answers (s id ∷ ids) =
      one_more (s id) ids (present (map (value_at d table) ids)) (present_answers ids)
  present_answers (other ∷ ids) =
      one_more other ids (present (map (value_at d table) ids)) (present_answers ids)

pub all_stored : (cells : List (Bytes × Bytes)) → Dealt cells cells []
all_stored [] = dealt
all_stored (cell ∷ cells) = to_first cell (all_stored cells)

pub write_all-values :
    (table : String) (cells : List (Bytes × Bytes)) (d : Tables)
    → (write_all table (cell_items cells) d).values ≡ set_values d.values table cells
unfolding get
write_all-values table [] d = refl
write_all-values table ((id, v) ∷ cells) d = write_all-values table cells (with_value d table id v)

unfoldable pub dynamo_laws : IsDynamo dynamo
unfolding get
dynamo_laws = record {
  values = λ d. d.values;
  past = λ d. [];
  get_item-reads = λ table id d o h. (
    d.values,
    inl refl,
    sym (ap value_in (sym (done-injective h)) ∙ stored-value_in id (d.values table id)),
  );
  get_item-keeps = λ table id d. refl;
  update-written = λ table id old new d. after_written table id (some old) new d;
  update-check_failed = λ table id old new d. after_check_failed table id (some old) new d;
  put-written = λ table id v d. after_written table id none v d;
  put-check_failed = λ table id v d. after_check_failed table id none v d;
  batch_get_item-answers = λ table ids d found h.
      subst (All (Answer (Stood d.values []) table ids)) (done-injective h)
        (present_answers d table ids);
  batch_get_item-keeps = λ table ids d. (refl, refl);
  batch_write_item-writes = λ table cells d. (
    cells,
    [],
    all_stored cells,
    write_all-values table cells d,
    λ unprocessed h. sym (done-injective h),
  );
}

-- A text for a date: the number of the instant as a byte.
abbrev pub dates : Dates
dates = record {
  to_string = λ t. t ∷ [];
  parse_from_str = λ text. elim text [ [] ↦ none | t ∷ rest ↦ some t ];
}

unfoldable pub rows : (table : String) → HasItems dynamo table
unfolding index_item get
rows table = record {
  items = λ d. d.items;
  past = λ d. [];
  get_item-reads = λ id d o h. (d.items, inl refl, done-injective h);
  get_item-keeps = λ id d. refl;
  put_item-writes = λ dates' index d h. (refl, λ g was. absurd was);
}
