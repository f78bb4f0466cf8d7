-- ===== src/Dynamodb/Reads.antt =====
-- What `fetch` of src/dynamodb.rs returns, against what the cells hold or have held.
use findex_cloud.Base.{
  ℕ, Bytes, bytes_eq, Option, none, some, List, [], ◌∷◌, ◌++◌, map, length, ◌≡◌, inl, inr, refl, ap,
  sym, subst, ◌∙◌, ◌==◌, String, string_eq, All, Among, arith, Bool-cases, eq_of_beq, ==_refl, true,
}
use findex_cloud.Base.HashMap.{get, insert, get-insert}
use findex_cloud.Errors.{Result, ok, err, panicked, ◌>>=◌ as bind_result}
use findex_cloud.Exec.Laws.{lift_rule, attempt_rule}
use findex_cloud.Core.{Index, Table, Uid, Uids, EncryptedTable}
use findex_cloud.Spec.Guarantees.{contains}
use findex_cloud.Dynamodb
use findex_cloud.Dynamodb.Items.{
  Item, AttributeValue, b, s, other, value_column, attribute, as_b, extract_bytes,
  get_uid_attribute_value, extract_uid_from_stored_id,
}
use findex_cloud.Dynamodb.Client.{
  Dynamo, IsDynamo, Values, Readable, Stood, Answer, bytes_of, value_in,
}
use findex_cloud.Dynamodb.Chunks.{concat, chunks, chunks-partition}
use findex_cloud.Dynamodb.Ids.{extract_uid-append}

module _ {A : Type 0} (P : A → Type 0) where
  All-append : (xs ys : List A) → All P (xs ++ ys) → All P xs × All P ys
  All-append [] ys h = (tt, h)
  All-append (x ∷ xs) ys (first, rest) =
      let (left, right) = All-append xs ys rest in ((first, left), right)

  All-concat : (chunks' : List (List A)) → All P (concat chunks') → All (All P) chunks'
  All-concat [] h = tt
  All-concat (chunk ∷ rest) h =
      let (first, others) = All-append chunk (concat rest) h in (first, All-concat rest others)

module _ (db : Dynamo) (dynamo : IsDynamo db) (names : Dynamodb.Names) (n : ℕ) (index : Index)
    (t : Table) (Asked : Uid → Type 0) where
  open dynamo use {values, past}

  abbrev table : String
  table = Dynamodb.get_table_name names t

  abbrev Wanted : Uid → Type 0
  Wanted uid = (length uid ≡ n) × Asked uid

  -- Every value in `found` was asked for and may be read under its UID.
  abbrev pub Sound : Readable → EncryptedTable → Type 0
  Sound f found =
      (x : Uid) (v : Bytes)
      → get x found ≡ some v
      → Asked x × f (Dynamodb.get_table_name names t) (index.id ++ x) (some v)

  Sound-insert :
      (f : Readable) (found : EncryptedTable) (uid : Uid) (v : Bytes)
      → Asked uid
      → f table (index.id ++ uid) (some v)
      → Sound f found
      → Sound f (insert uid v found)
  Sound-insert f found uid v asked cell sound x w got = elim (Bool-cases (uid == x)) [
    | inl same ↦
        let here : uid ≡ x = eq_of_beq uid x same in
        let value : v ≡ w = ground (arith, get-insert uid x v found) in
        subst (λ y. Asked y × f table (index.id ++ y) (some w)) here
          (asked, subst (λ o. f table (index.id ++ uid) (some o)) value cell)
    | inr other_uid ↦ sound x w (ground (arith, get-insert uid x v found))
  ]

  Among-id :
      (id : Bytes) (chunk : Uids)
      → All Wanted chunk
      → Among (b id) (map (get_uid_attribute_value index) chunk)
      → (uid : Uid) × (id ≡ index.id ++ uid) × Wanted uid
  unfolding get_uid_attribute_value
  Among-id id [] wanted among = absurd among
  Among-id id (uid ∷ chunk) (here, rest) (inl same) = (uid, cc, here)
  Among-id id (uid ∷ chunk) (here, rest) (inr later) = Among-id id chunk rest later

  -- Reading items that answer the request.
  abbrev ReadPost : Readable → Result EncryptedTable → Type 0
  ReadPost f (ok found) = Sound f found
  ReadPost f (err _) = Unit
  ReadPost f panicked = ⊥

  module _ (f : Readable) (uid : Uid) (wanted : Wanted uid) (found : EncryptedTable)
      (rest : EncryptedTable → Result EncryptedTable)
      (later : (found' : EncryptedTable) → Sound f found' → ReadPost f (rest found')) where
    read_value :
        (o : Option AttributeValue)
        → f table (index.id ++ uid) (bytes_of o)
        → Sound f found
        → ReadPost f (
            bind_result
              (bind_result (attribute value_column o) (as_b value_column))
              (λ value. rest (insert uid value found)))
    unfolding bind_result
    read_value none cell sound = tt
    read_value (some (b v)) cell sound =
        later (insert uid v found) (Sound-insert f found uid v wanted.1 cell sound)
    read_value (some (s text)) cell sound = tt
    read_value (some other) cell sound = tt

  pub stored_uid :
      (uid : Uid) → length uid ≡ n → extract_uid_from_stored_id n (index.id ++ uid) ≡ ok uid
  stored_uid uid same =
      subst (λ m. extract_uid_from_stored_id m (index.id ++ uid) ≡ ok uid) same
        (extract_uid-append index.id uid)

  read_items-Sound :
      (f : Readable) (chunk : Uids) (items : List Item) (found : EncryptedTable)
      → All Wanted chunk
      → All (Answer f table (map (get_uid_attribute_value index) chunk)) items
      → Sound f found
      → ReadPost f (Dynamodb.read_items db names n items found)
  unfolding Dynamodb.read_items extract_bytes bind_result
  read_items-Sound f chunk [] found wanted answers sound = sound
  read_items-Sound f chunk (item ∷ items) found wanted ((id, has_id, among, value), answers) sound =
      let (uid, same, here) = Among-id id chunk wanted among in
      let uid_read = ap (extract_uid_from_stored_id n) same ∙ stored_uid uid here.0 in
      rw (has_id, uid_read)
        (read_value f uid here found (Dynamodb.read_items db names n items)
          (λ found' sound'. read_items-Sound f chunk items found' wanted answers sound')
          (get value_column item) (subst (λ i. f table i (value_in (some item))) same value) sound)

  -- A fetch that returns is sound for the cells as they are and have been, and changes no value.
  abbrev pub FetchPost : Values → List Values → Result EncryptedTable × db.Db → Type 0
  FetchPost f p (ok found, d) = Sound (Stood f p) found × (values d ≡ f)
  FetchPost f p (err _, d) = values d ≡ f
  FetchPost f p (panicked, d) = ⊥

  fetch_chunks-Sound :
      (cs : List Uids) (f : Values) (p : List Values) (found : EncryptedTable) (d : db.Db)
      → values d ≡ f
      → past d ≡ p
      → All (All Wanted) cs
      → Sound (Stood f p) found
      → FetchPost f p (Dynamodb.fetch_chunks db names n index t cs found d)
  unfolding Dynamodb.fetch_chunks
  fetch_chunks-Sound [] f p found d start start_past wanted sound = (sound, start)
  fetch_chunks-Sound (chunk ∷ rest) f p found d start start_past (here, others) sound =
      let ids = map (get_uid_attribute_value index) chunk in
      let batch = db.batch_get_item table ids in
      let kept = (dynamo.batch_get_item-keeps table ids d).0 ∙ start in
      let kept_past = (dynamo.batch_get_item-keeps table ids d).1 ∙ start_past in
      attempt_rule Dynamodb.sdk_error batch _ d (FetchPost f p)
        (λ items got.
          let answers =
            subst (λ g. All (Answer (Stood g p) table ids) items) start
              (subst (λ q. All (Answer (Stood (values d) q) table ids) items) start_past
                (dynamo.batch_get_item-answers table ids d items got)) in
          let read = read_items-Sound (Stood f p) chunk items found here answers sound in
          lift_rule (Dynamodb.read_items db names n items found) _ (batch d).1 (FetchPost f p)
            (λ found' e.
              fetch_chunks-Sound rest f p found' (batch d).1 kept kept_past others
                (subst (ReadPost (Stood f p)) e read))
            (λ _ _. kept) (λ e. subst (ReadPost (Stood f p)) e read))
        (λ _ _. kept)

  fetch_asked-Sound :
      (uids : Uids) (d : db.Db)
      → All Wanted uids
      → FetchPost (values d) (past d) (Dynamodb.fetch db names n index t uids d)
  unfolding Dynamodb.fetch
  fetch_asked-Sound uids d wanted =
      fetch_chunks-Sound (chunks Dynamodb.max_read_elements uids) (values d) (past d) [] d refl refl
        (All-concat Wanted (chunks Dynamodb.max_read_elements uids) (
          subst (All Wanted)
            (sym (chunks-partition Dynamodb.max_read_elements uids (omega arith)).0) wanted))
        (λ x v got. absurd (unfold get in ground arith))

contained :
    (n : ℕ) (uid : Uid) (uids ys : Uids)
    → All (λ x. (length x ≡ n) × (contains x uids ≡ true)) ys
    → All (λ x. (length x ≡ n) × (contains x (uid ∷ uids) ≡ true)) ys
unfolding contains
contained n uid uids [] h = tt
contained n uid uids (y ∷ ys) ((same, there), rest) =
    ((same, ground arith), contained n uid uids ys rest)

contained_self :
    (n : ℕ) (uids : Uids)
    → All (λ x. length x ≡ n) uids
    → All (λ x. (length x ≡ n) × (contains x uids ≡ true)) uids
unfolding contains
contained_self n [] h = tt
contained_self n (uid ∷ uids) (same, rest) =
    ((same, rw (==_refl uid) refl), contained n uid uids uids (contained_self n uids rest))

-- For UIDs of one length: every value that `fetch` on DynamoDB returns was asked for and is one
-- that is or has been stored under its UID; no fetch changes a value; none panics.
pub fetch-Sound :
    (db : Dynamo) (dynamo : IsDynamo db) (names : Dynamodb.Names) (n : ℕ) (index : Index)
    (t : Table) (uids : Uids) (d : db.Db)
    → All (λ x. length x ≡ n) uids
    → FetchPost db dynamo names n index t
        (λ x. contains x uids ≡ true)
        (dynamo.values d)
        (dynamo.past d)
        (Dynamodb.fetch db names n index t uids d)
fetch-Sound db dynamo names n index t uids d lengths =
    fetch_asked-Sound db dynamo names n index t (λ x. contains x uids ≡ true) uids d
      (contained_self n uids lengths)
