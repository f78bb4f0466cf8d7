-- ===== src/Dynamodb/Inserts/Complete.antt =====
-- What a client reads after `insert_chains` of src/dynamodb.rs, where DynamoDB leaves no item of a
-- batch unprocessed.
use findex_cloud.Base.{
  ℕ, Bytes, bytes_eq, List, [], ◌∷◌, ◌++◌, map, append_cancel, ◌≡◌, refl, sym, ap, subst, ◌∙◌, ◌==◌,
  String, string_eq, ==_refl, beq-false_of_ne, arith, Bool-cases, inl, inr, eq_of_beq,
  ne_of_beq-false,
}
use findex_cloud.Base.HashMap.{get, DistinctKeys}
use findex_cloud.Errors.{Result, ok, err, panicked, done}
use findex_cloud.Exec.Laws.{attempt_rule}
use findex_cloud.Core.{Index, Table, Uid, EncryptedTable}
use findex_cloud.Spec.Laws.{or_get}
use findex_cloud.Spec.Chains.{get-absent}
use findex_cloud.Dynamodb
use findex_cloud.Dynamodb.Client.{
  Dynamo, IsDynamo, IsProcessing, Values, set_value, set_values, cell_items,
}
use findex_cloud.Dynamodb.Chunks.{concat, chunks, chunks-partition}
use findex_cloud.Dynamodb.Inserts.{
  Dealt-eq, set_values-append, cells_of, cells_of-append, requests-cell_items,
}

cell_items-empty : (cells : List (Bytes × Bytes)) → cell_items cells ≡ [] → cells ≡ []
cell_items-empty [] h = refl
cell_items-empty (cell ∷ cells) h = absurd cc

module _ (index : Index) (table : String) where
  id_beq : (x y : Uid) → (index.id ++ x == index.id ++ y) ≡ (x == y)
  id_beq x y = elim (Bool-cases (x == y)) [
    | inl same ↦ rw same (rw (eq_of_beq x y same) (==_refl (index.id ++ y)))
    | inr other ↦ rw other (
        beq-false_of_ne (index.id ++ x) (index.id ++ y)
          (λ e. ne_of_beq-false x y other (append_cancel index.id index.id refl e).1))
  ]

  set_values-cell :
      (items : EncryptedTable) (f : Values) (x : Uid)
      → DistinctKeys items
      → set_values f table (cells_of index items) table (index.id ++ x)
        ≡ or_get (get x items) (f table (index.id ++ x))
  unfolding get
  set_values-cell [] f x ds = refl
  set_values-cell ((uid, value) ∷ rest) f x (fresh, ds) =
      let later = set_values-cell rest (set_value f table (index.id ++ uid) value) x ds in
      ground (
        arith,
        later,
        id_beq uid x,
        ==_refl table,
        bytes_eq.same_iff uid x,
        get-absent uid rest fresh,
      )

module _ (db : Dynamo) (dynamo : IsDynamo db) (processing : IsProcessing db dynamo)
    (names : Dynamodb.Names) (uid_length : ℕ) (index : Index) where
  open dynamo use {values}

  abbrev table : String
  table = Dynamodb.get_table_name names Table.chains

  -- All of the chains are stored, if an answer comes.
  abbrev CompletePost : EncryptedTable → Values → Result (Unit {0}) × db.Db → Type 0
  CompletePost items f (ok _, d) = values d ≡ set_values f table (cells_of index items)
  CompletePost items f (err _, d) = Unit
  CompletePost items f (panicked, d) = Unit

  CompletePost-append :
      (xs ys : EncryptedTable) (f g : Values) (p : Result (Unit {0}) × db.Db)
      → g ≡ set_values f table (cells_of index xs)
      → CompletePost ys g p
      → CompletePost (xs ++ ys) f p
  CompletePost-append xs ys f g (ok _, d) first later =
      later
      ∙ ap (λ h. set_values h table (cells_of index ys)) first
      ∙ sym (set_values-append f table (cells_of index xs) (cells_of index ys))
      ∙ ap (set_values f table) (sym (cells_of-append index xs ys))
  CompletePost-append xs ys f g (err _, d) first later = tt
  CompletePost-append xs ys f g (panicked, d) first later = tt

  insert_chunks_complete :
      (cs : List EncryptedTable) (d : db.Db)
      → CompletePost (concat cs) (values d) (Dynamodb.insert_chunks db names uid_length index cs d)
  unfolding Dynamodb.insert_chunks
  insert_chunks_complete [] d = refl
  insert_chunks_complete (chunk ∷ rest) d =
      let items = map (Dynamodb.put_request db names uid_length index) chunk in
      let call = db.batch_write_item table items in
      let same : items ≡ cell_items (cells_of index chunk) =
        requests-cell_items db dynamo names uid_length index chunk in
      let (stored, left, parts, wrote, unwritten) =
        dynamo.batch_write_item-writes table (cells_of index chunk) d in
      attempt_rule Dynamodb.sdk_error call _ d (CompletePost (chunk ++ concat rest) (values d))
        (λ unprocessed e.
          let none_left = cell_items-empty left (
            sym (
              unwritten unprocessed
                (subst (λ is. (db.batch_write_item table is d).0 ≡ done unprocessed) same e))
            ∙ processing.all_written table items d unprocessed e) in
          CompletePost-append chunk (concat rest) (values d) (values (call d).1) _
            (ap (λ is. values (db.batch_write_item table is d).1) same
              ∙ wrote
              ∙ ap (set_values (values d) table) (sym (Dealt-eq parts none_left)))
            (insert_chunks_complete rest (call d).1))
        (λ _ _. tt)

  insert_chains_complete :
      (items : EncryptedTable) (d : db.Db)
      → CompletePost items (values d) (Dynamodb.insert_chains db names uid_length index items d)
  unfolding Dynamodb.insert_chains
  insert_chains_complete items d =
      let cs = chunks Dynamodb.max_write_elements items in
      subst
        (λ xs. CompletePost xs (values d) (Dynamodb.insert_chunks db names uid_length index cs d))
        (chunks-partition Dynamodb.max_write_elements items (omega arith)).0
        (insert_chunks_complete cs d)

  CompletePost-ok :
      (items : EncryptedTable) (f : Values) (p : Result (Unit {0}) × db.Db)
      → p.0 ≡ ok tt
      → CompletePost items f p
      → values p.1 ≡ set_values f table (cells_of index items)
  CompletePost-ok items f (ok _, d) e h = h
  CompletePost-ok items f (err x, d) e h = absurd cc
  CompletePost-ok items f (panicked, d) e h = absurd cc

  -- Where DynamoDB leaves nothing unprocessed: after an `insert_chains` of distinct UIDs that
  -- returns, the chain of a UID is the one given, or the old one if none was given.
  pub insert_chains-cell :
      (items : EncryptedTable) (d : db.Db) (x : Uid)
      → DistinctKeys items
      → (Dynamodb.insert_chains db names uid_length index items d).0 ≡ ok tt
      → values (Dynamodb.insert_chains db names uid_length index items d).1 table (index.id ++ x)
        ≡ or_get (get x items) (values d table (index.id ++ x))
  insert_chains-cell items d x distinct answered =
      ap (λ f. f table (index.id ++ x))
        (CompletePost-ok items (values d) (Dynamodb.insert_chains db names uid_length index items d)
          answered (insert_chains_complete items d))
      ∙ set_values-cell index table items (values d) x distinct
