-- ===== src/Dynamodb/Inserts.antt =====
-- What `insert_chains` of src/dynamodb.rs leaves in the table of chains.
pub mod Complete
use mathlib.Core.List.{append_assoc}
use findex_cloud.Base.{
  ℕ, Bytes, bytes_eq, Option, none, some, List, [], ◌∷◌, ◌++◌, map, append_cancel, ◌≡◌, ◌≢◌, refl,
  sym, ap, subst, ◌∙◌, ◌==◌, String, string_eq, ==_refl, arith,
}
use findex_cloud.Base.HashMap.{get, DistinctKeys}
use findex_cloud.Errors.{Result, ok, err, panicked, done, failed}
use findex_cloud.Exec.{◌>>=◌}
use findex_cloud.Exec.Laws.{attempt_rule}
use findex_cloud.Core.{Index, Table, Uid, EncryptedTable}
use findex_cloud.Dynamodb
use findex_cloud.Dynamodb.Items.{Item, value_item, get_uid_attribute_value}
use findex_cloud.Dynamodb.Client.{
  Dynamo, IsDynamo, IsProcessing, Values, set_value, set_values, cell_items, Dealt, dealt, to_first,
  to_second,
}
use findex_cloud.Dynamodb.Chunks.{concat, chunks, chunks-partition}

module _ {A : Type 0} where
  Dealt-append :
      {xs ys zs us vs ws : List A}
      → Dealt xs ys zs
      → Dealt us vs ws
      → Dealt (xs ++ us) (ys ++ vs) (zs ++ ws)
  Dealt-append dealt later = later
  Dealt-append (to_first x d) later = to_first x (Dealt-append d later)
  Dealt-append (to_second x d) later = to_second x (Dealt-append d later)

  all_left : (xs : List A) → Dealt xs [] xs
  all_left [] = dealt
  all_left (x ∷ xs) = to_second x (all_left xs)

  pub Dealt-eq : {xs ys zs : List A} → Dealt xs ys zs → zs ≡ [] → xs ≡ ys
  Dealt-eq dealt h = refl
  Dealt-eq (to_first x d) h = ap (◌∷◌ x) (Dealt-eq d h)
  Dealt-eq (to_second x d) h = absurd cc

pub set_values-append :
    (f : Values) (table : String) (xs ys : List (Bytes × Bytes))
    → set_values f table (xs ++ ys) ≡ set_values (set_values f table xs) table ys
set_values-append f table [] ys = refl
set_values-append f table ((id, v) ∷ xs) ys = set_values-append (set_value f table id v) table xs ys

-- The cells of chains of an index.
abbrev pub cells_of : Index → EncryptedTable → List (Bytes × Bytes)
cells_of index [] = []
cells_of index ((uid, value) ∷ rest) = (index.id ++ uid, value) ∷ cells_of index rest

pub cells_of-append :
    (index : Index) (xs ys : EncryptedTable)
    → cells_of index (xs ++ ys) ≡ cells_of index xs ++ cells_of index ys
cells_of-append index [] ys = refl
cells_of-append index ((uid, value) ∷ xs) ys =
    ap (◌∷◌ (index.id ++ uid, value)) (cells_of-append index xs ys)

module _ (db : Dynamo) (dynamo : IsDynamo db) (names : Dynamodb.Names) (uid_length : ℕ)
    (index : Index) where
  open dynamo use {values}

  abbrev table : String
  table = Dynamodb.get_table_name names Table.chains

  -- Some of the chains have been stored, and of the rest nothing.
  abbrev pub Inserted : EncryptedTable → Values → Values → Type 0
  Inserted items f f' =
      (stored : List (Bytes × Bytes)) × (left : List (Bytes × Bytes)) × Dealt (cells_of index items)
        stored left
      × (f' ≡ set_values f (Dynamodb.get_table_name names Table.chains) stored)

  abbrev pub InsertPost : EncryptedTable → Values → Result (Unit {0}) × db.Db → Type 0
  InsertPost items f (ok _, d) = Inserted items f (values d)
  InsertPost items f (err _, d) = Inserted items f (values d)
  InsertPost items f (panicked, d) = ⊥

  pub requests-cell_items :
      (items : EncryptedTable)
      → map (Dynamodb.put_request db names uid_length index) items
        ≡ cell_items (cells_of index items)
  unfolding Dynamodb.put_request get_uid_attribute_value
  requests-cell_items [] = refl
  requests-cell_items ((uid, value) ∷ items) =
      ap (◌∷◌ (value_item (index.id ++ uid) value)) (requests-cell_items items)

  Inserted-append :
      (xs ys : EncryptedTable) (f g h : Values)
      → Inserted xs f g
      → Inserted ys g h
      → Inserted (xs ++ ys) f h
  Inserted-append xs ys f g h (stored, left, dealt_1, wrote) (stored', left', dealt_2, wrote') = (
    stored ++ stored',
    left ++ left',
    subst (λ cells. Dealt cells (stored ++ stored') (left ++ left'))
        (sym (cells_of-append index xs ys)) (Dealt-append dealt_1 dealt_2),
    wrote'
        ∙ ap (λ g'. set_values g' table stored') wrote
        ∙ sym (set_values-append f table stored stored'),
  )

  InsertPost-append :
      (xs ys : EncryptedTable) (f g : Values) (p : Result (Unit {0}) × db.Db)
      → Inserted xs f g
      → InsertPost ys g p
      → InsertPost (xs ++ ys) f p
  InsertPost-append xs ys f g (ok _, d) first later =
      Inserted-append xs ys f g (values d) first later
  InsertPost-append xs ys f g (err _, d) first later =
      Inserted-append xs ys f g (values d) first later
  InsertPost-append xs ys f g (panicked, d) first later = later

  nothing-Inserted : (items : EncryptedTable) (f : Values) → Inserted items f f
  nothing-Inserted items f = ([], cells_of index items, all_left (cells_of index items), refl)

  insert_chunks-post :
      (cs : List EncryptedTable) (d : db.Db)
      → InsertPost (concat cs) (values d) (Dynamodb.insert_chunks db names uid_length index cs d)
  unfolding Dynamodb.insert_chunks
  insert_chunks-post [] d = nothing-Inserted [] (values d)
  insert_chunks-post (chunk ∷ rest) d =
      let items = map (Dynamodb.put_request db names uid_length index) chunk in
      let call = db.batch_write_item table items in
      let (stored, left, parts, wrote, _) =
        dynamo.batch_write_item-writes table (cells_of index chunk) d in
      let first : Inserted chunk (values d) (values (call d).1) = (
        stored,
        left,
        parts,
        ap (λ is. values (db.batch_write_item table is d).1) (requests-cell_items chunk) ∙ wrote,
      ) in
      let f = values d in
      attempt_rule Dynamodb.sdk_error call _ d (InsertPost (chunk ++ concat rest) f)
        (λ _ _.
          InsertPost-append chunk (concat rest) f (values (call d).1) _ first
            (insert_chunks-post rest (call d).1))
        (λ _ _.
          Inserted-append chunk (concat rest) f (values (call d).1) (values (call d).1) first
            (nothing-Inserted (concat rest) (values (call d).1)))

  -- `insert_chains` on DynamoDB, whether it returns or fails, has written some of the chains, in
  -- their order, and changed no other cell of an entry or a chain; it does not panic.
  pub insert_chains-Inserted :
      (items : EncryptedTable) (d : db.Db)
      → InsertPost items (values d) (Dynamodb.insert_chains db names uid_length index items d)
  unfolding Dynamodb.insert_chains
  insert_chains-Inserted items d =
      let cs = chunks Dynamodb.max_write_elements items in
      subst (λ xs. InsertPost xs (values d) (Dynamodb.insert_chunks db names uid_length index cs d))
        (chunks-partition Dynamodb.max_write_elements items (omega arith)).0
        (insert_chunks-post cs d)
