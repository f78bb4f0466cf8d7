-- ===== src/Dynamodb/Rows.antt =====
-- The row of an index in src/dynamodb.rs, written and read.
use findex_cloud.Base.{
  ℕ, Bytes, bytes_eq, List, ◌∷◌, Among, ◌⊎◌, Option, none, some, ◌≡◌, ◌==◌, if◌then◌else◌, String,
}
use findex_cloud.Errors.{Result, ok, err, panicked, done, ◌>>=◌ as bind_result}
use findex_cloud.Core.{Index, NewIndex}
use findex_cloud.Dynamodb.{Names}
use findex_cloud.Dynamodb.Items.{s, Item, Dates, index_item}
use findex_cloud.Dynamodb.Client.{Dynamo}
use findex_cloud.Dynamodb.Metadata.{index_of}

abbrev pub Items : Type 0
Items = Bytes → Option Item

-- What DynamoDB documents of the items of one table with a text as ID: a read that does not ask to be
-- consistent gives what the ID has or has had. Nothing is said of a write that fails.
pub record HasItems (db : Dynamo) (table : String) : Type 0 where
  pub items : db.Db → Items
  pub past : db.Db → List Items
  pub get_item-reads :
      (id : Bytes) (d : db.Db) (o : Option Item)
      → (db.get_item table (s id) d).0 ≡ done o
      → (g : Items) × Among g (items d ∷ past d) × (g id ≡ o)
  pub get_item-keeps : (id : Bytes) (d : db.Db) → items (db.get_item table (s id) d).1 ≡ items d
  pub put_item-writes :
      (dates : Dates) (index : Index) (d : db.Db)
      → (db.put_item table (index_item dates index) d).0 ≡ done tt
      → (items (db.put_item table (index_item dates index) d).1
          ≡ (λ id. if index.id == id then some (index_item dates index) else items d id))
        × ((g : Items)
            → Among g (past (db.put_item table (index_item dates index) d).1)
            → Among g (items d ∷ past d))

module _ (db : Dynamo) (names : Names) (dates : Dates)
    (printed : (t : ℕ) → dates.parse_from_str (dates.to_string t) ≡ some t)
    (has : HasItems db names.metadata_table_name) where
  open has use {items, past}

  -- The index that `create_index` returns stands under its ID, and no other item has changed.
  abbrev pub CreatedPost : ℕ → NewIndex → db.Db → Result Index × db.Db → Type 0
  CreatedPost now new_index before (ok index, d) =
      (index ≡ index_of new_index now)
      × (items d
          ≡ (λ id. if new_index.id == id then some (index_item dates index) else items before id))
      × ((g : Items) → Among g (past d) → Among g (items before ∷ past before))
  CreatedPost now new_index before (err _, d) = Unit
  CreatedPost now new_index before (panicked, d) = ⊥

  -- No item has or has had the ID.
  abbrev pub IsUnused : Bytes → db.Db → Type 0
  IsUnused id d = (g : Items) → Among g (items d ∷ past d) → g id ≡ none

  -- A read gives the index without its size, or nothing yet.
  abbrev pub ReadPost : Index → Items → Result (Option Index) × db.Db → Type 0
  ReadPost index before (ok o, d) =
      ((o ≡ some (record index { size = none })) ⊎ (o ≡ none)) × (items d ≡ before)
  ReadPost index before (err _, d) = items d ≡ before
  ReadPost index before (panicked, d) = ⊥
