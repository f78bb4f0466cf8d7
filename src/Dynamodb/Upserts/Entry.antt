-- ===== src/Dynamodb/Upserts/Entry.antt =====
-- One job of `upsert_entries` of src/dynamodb.rs: the conditional write of an entry, and the read
-- that follows where its condition has failed.
use findex_cloud.Base.{
  ℕ, Bytes, bytes_eq, Option, none, some, [], ◌∷◌, ◌++◌, ◌≡◌, ◌≢◌, ◌⊎◌, inl, inr, subst, refl, sym,
  ◌∙◌, option_eq, String, string_eq,
}
use findex_cloud.Base.HashMap.{get, insert}
use findex_cloud.Errors.{Result, ok, err, panicked, ◌>>=◌ as bind_result}
use findex_cloud.Exec.Laws.{post_rule, attempt_rule}
use findex_cloud.Core.{Index, Table, Uid, EncryptedTable, UpsertItem, UpsertData}
use findex_cloud.Dynamodb
use findex_cloud.Dynamodb.Items.{
  Item, get_uid_attribute_value, extract_bytes, value_column, value_item, AttributeValue, b, s,
  other, attribute, as_b,
}
use findex_cloud.Dynamodb.Client.{
  Dynamo, IsDynamo, Stood, set_value, value_in, bytes_of, Conditional, written, check_failed,
  failed,
}

module _ (db : Dynamo) (dynamo : IsDynamo db) (names : Dynamodb.Names) (n : ℕ) where
  open dynamo use {values, past}

  abbrev table : String
  table = names.entries_table_name

  -- An item, before and after: its entry is swapped, or it is reported with a value that the entry
  -- has or has had.
  abbrev pub SwapStep :
      Index → db.Db × EncryptedTable → UpsertItem → db.Db × EncryptedTable → Type 0
  SwapStep index (d, r) item (d', r') =
      let id = index.id ++ item.uid in
      ((values d table id ≡ item.old_value)
        × (values d' ≡ set_value (values d) table id item.new_value)
        × (r' ≡ r))
      ⊎ ((values d table id ≢ item.old_value)
          × (values d' ≡ values d)
          × ((v : Bytes) × Stood (values d) (past d) table id (some v)
              × (r' ≡ insert item.uid v r)))

  -- The items one after the other.
  abbrev pub SwapSteps :
      Index → db.Db × EncryptedTable → UpsertData → db.Db × EncryptedTable → Type 0
  SwapSteps index st [] end = st ≡ end
  SwapSteps index st (item ∷ rest) end =
      (mid : db.Db × EncryptedTable) × SwapStep index st item mid × SwapSteps index mid rest end

  -- A read that returns a value returns one that the entry has or has had.
  abbrev pub FetchPost : db.Db → Bytes → Result Bytes × db.Db → Type 0
  FetchPost d0 id (ok v, d) = Stood (values d0) (past d0) table id (some v) × (values d ≡ values d0)
  FetchPost d0 id (err _, d) = values d ≡ values d0
  FetchPost d0 id (panicked, d) = ⊥

  module _ (d0 : db.Db) (id : Bytes) (d : db.Db) (kept : values d ≡ values d0) where
    extracted :
        (o : Option AttributeValue)
        → Stood (values d0) (past d0) table id (bytes_of o)
        → FetchPost d0 id (bind_result (attribute value_column o) (as_b value_column), d)
    unfolding bind_result
    extracted none cell = kept
    extracted (some (b bytes)) cell = (cell, kept)
    extracted (some (s text)) cell = kept
    extracted (some other) cell = kept

    value_of-reads :
        (uid : Uid) (o : Option Item)
        → Stood (values d0) (past d0) table id (value_in o)
        → FetchPost d0 id (Dynamodb.value_of db names n uid o, d)
    unfolding Dynamodb.value_of extract_bytes
    value_of-reads uid none cell = kept
    value_of-reads uid (some item) cell = extracted (get value_column item) cell

  pub fetch_value-reads :
      (index : Index) (uid : Uid) (d : db.Db)
      → FetchPost d (index.id ++ uid) (Dynamodb.fetch_value db names n index Table.entries uid d)
  unfolding Dynamodb.fetch_value Dynamodb.get_table_name get_uid_attribute_value
  fetch_value-reads index uid d =
      let id = index.id ++ uid in
      attempt_rule Dynamodb.sdk_error (db.get_item table (b id)) _ d (FetchPost d id)
        (λ o got.
          value_of-reads d id (db.get_item table (b id) d).1 (dynamo.get_item-keeps table (b id) d)
            uid o (dynamo.get_item-reads table id d o got))
        (λ _ _. dynamo.get_item-keeps table (b id) d)

  -- The answer of a job that returns.
  abbrev pub EntryPost : Index → db.Db → UpsertItem → Result (Option (Uid × Bytes)) × db.Db → Type 0
  EntryPost index d0 item (ok conflict, d) =
      (r : EncryptedTable) → SwapStep index (d0, r) item (d, Dynamodb.report db names n conflict r)
  EntryPost index d0 item (err _, d) = Unit
  EntryPost index d0 item (panicked, d) = ⊥

  -- What is known once the conditional write has its answer.
  abbrev pub WritePost : Index → db.Db → UpsertItem → Conditional × db.Db → Type 0
  WritePost index d0 item (written, d) =
      (values d0 table (index.id ++ item.uid) ≡ item.old_value)
      × (values d ≡ set_value (values d0) table (index.id ++ item.uid) item.new_value)
  WritePost index d0 item (check_failed, d) =
      (values d0 table (index.id ++ item.uid) ≢ item.old_value)
      × (values d ≡ values d0)
      × (past d ≡ past d0)
  WritePost index d0 item (failed _, d) = Unit

  pub conditional_write-post :
      (index : Index) (item : UpsertItem) (d : db.Db)
      → WritePost index d item (Dynamodb.conditional_write db names n index item d)
  unfolding Dynamodb.conditional_write Dynamodb.get_table_name get_uid_attribute_value
  conditional_write-post index item d = go item.old_value refl
    where
      id : Bytes
      id = index.id ++ item.uid

      update : Bytes → Conditional × db.Db
      update old = db.update_item_if_equal table (b id) value_column (b old) (b item.new_value) d

      put : Conditional × db.Db
      put = db.put_item_if_absent table (value_item id item.new_value) d

      go_update :
          (old : Bytes) (c : Conditional)
          → some old ≡ item.old_value
          → (update old).0 ≡ c
          → WritePost index d item (c, (update old).1)
      go_update old written same e =
          let (cell, wrote) = dynamo.update-written table id old item.new_value d e in
          (cell ∙ same, wrote)
      go_update old check_failed same e =
          let (differs, kept, kept_past) =
            dynamo.update-check_failed table id old item.new_value d e in
          ((λ h. differs (h ∙ sym same)), kept, kept_past)
      go_update old (failed _) same e = tt

      go_put :
          (c : Conditional) → none ≡ item.old_value → put.0 ≡ c → WritePost index d item (c, put.1)
      go_put written same e =
          let (cell, wrote) = dynamo.put-written table id item.new_value d e in (cell ∙ same, wrote)
      go_put check_failed same e =
          let (differs, kept, kept_past) = dynamo.put-check_failed table id item.new_value d e in
          ((λ h. differs (h ∙ sym same)), kept, kept_past)
      go_put (failed _) same e = tt

      go :
          (old : Option Bytes)
          → old ≡ item.old_value
          → WritePost index d item (
              (elim old as (λ _. db.Db → Conditional × db.Db) [
                | some old_value ↦
                    db.update_item_if_equal table
                      (b id)
                      value_column
                      (b old_value)
                      (b item.new_value)
                | none ↦ db.put_item_if_absent table (value_item id item.new_value)
              ])
                d)
      go (some old) same = go_update old (update old).0 same refl
      go none same = go_put put.0 same refl

  after_write-post :
      (index : Index) (d0 : db.Db) (item : UpsertItem) (c : Conditional) (d : db.Db)
      → WritePost index d0 item (c, d)
      → EntryPost index d0 item (Dynamodb.after_write db names n index item.uid c d)
  unfolding Dynamodb.after_write Dynamodb.report
  after_write-post index d0 item written d (same, wrote) = λ r. inl (same, wrote, refl)
  after_write-post index d0 item check_failed d (differs, kept, kept_past) =
      post_rule (Dynamodb.fetch_value db names n index Table.entries item.uid) _ d
        (FetchPost d (index.id ++ item.uid)) (EntryPost index d0 item)
        (fetch_value-reads index item.uid d)
        (λ v d' (cell, unchanged) r. inr (
          differs,
          unchanged ∙ kept,
          (
            v,
            subst (λ f. Stood f (past d0) table (index.id ++ item.uid) (some v)) kept
                (subst (λ p. Stood (values d) p table (index.id ++ item.uid) (some v)) kept_past
                  cell),
            refl,
          ),
        ))
        (λ _ _ _. tt) (λ _ impossible. impossible)
  after_write-post index d0 item (failed _) d post = tt

  -- A job of `upsert_entries` on DynamoDB that returns has compared and swapped its entry or reports
  -- a value of it; it does not panic.
  pub upsert_entry-post :
      (index : Index) (item : UpsertItem) (d : db.Db)
      → EntryPost index d item (Dynamodb.upsert_entry db names n index item d)
  unfolding Dynamodb.upsert_entry
  upsert_entry-post index item d =
      let (c, d') = Dynamodb.conditional_write db names n index item d in
      after_write-post index d item c d' (conditional_write-post index item d)
