-- ===== src/Rocksdb/Reads.antt =====
-- `fetch` and `set_size` of src/rocksdb.rs.
use findex_cloud.Base.{
  Bytes, String, Among, inl, inr, Option, none, some, List, [], ◌∷◌, map, ◌≡◌, refl, ap, ◌∙◌, subst,
  arith,
}
use findex_cloud.Words.Signed.{as_i64}
use findex_cloud.Errors.{Error, rocksdb, Result, ok, err, panicked, Outcome, done, failed}
use findex_cloud.Exec.Laws.{attempt_rule}
use findex_cloud.Core.{Index, Table, Uids, EncryptedTable}
use findex_cloud.Spec
use findex_cloud.Spec.{Content, reject, size_of, size_value}
use findex_cloud.Rocksdb.{zip_loop, fetch, set_size, size_i64}
use findex_cloud.Rocksdb.Keys.{key, size_key, layout}
use findex_cloud.Rocksdb.Client.{Rocks, IsRocks, Answers}

size_i64-as_i64 : (o : Option Bytes) → size_i64 o ≡ as_i64 (size_value o)
unfolding size_i64 size_value as_i64
size_i64-as_i64 none = refl
size_i64-as_i64 (some bytes) = ground arith

module _ (db : Rocks) (rocks : IsRocks db) where
  open rocks use {content}

  -- A read that returns a value returns `value`, and no read changes the content.
  abbrev pub ReadPost : {A : Type 0} → Content → A → Result A × db.Db → Type 0
  ReadPost f value (ok a, d) = (a ≡ value) × (content d ≡ f)
  ReadPost f value (err _, d) = content d ≡ f
  ReadPost f value (panicked, d) = ⊥

  -- One of the answers is an error, and this is it.
  abbrev IsReadError : List (Outcome (Option Bytes)) → Error → Type 0
  IsReadError values e = (text : String) × Among (failed text) values × (e ≡ rocksdb text)

  -- A fetch that returns returns `value`; one that fails hands on the error of a read.
  abbrev pub FetchPost :
      Content
      → EncryptedTable
      → List (Outcome (Option Bytes))
      → Result EncryptedTable × db.Db
      → Type 0
  FetchPost f value values (ok found, d) = (found ≡ value) × (content d ≡ f)
  FetchPost f value values (err e, d) = IsReadError values e × (content d ≡ f)
  FetchPost f value values (panicked, d) = ⊥

  FetchPost-cons :
      (f : Content) (value : EncryptedTable) (o : Outcome (Option Bytes))
      (values : List (Outcome (Option Bytes))) (p : Result EncryptedTable × db.Db)
      → FetchPost f value values p
      → FetchPost f value (o ∷ values) p
  FetchPost-cons f value o values (ok found, d) post = post
  FetchPost-cons f value o values (err e, d) ((text, among, same), kept) =
      ((text, inr among, same), kept)
  FetchPost-cons f value o values (panicked, d) impossible = impossible

  zip_loop-fetches :
      (f : Content) (id : Bytes) (table : Table) (uids : Uids)
      (values : List (Outcome (Option Bytes))) (found : EncryptedTable) (d : db.Db)
      → Answers f (map (key id table) uids) values
      → content d ≡ f
      → FetchPost f
          (Spec.fetch layout id f table uids found)
          values
          (zip_loop db uids values found, d)
  unfolding zip_loop Spec.fetch
  zip_loop-fetches f id table [] [] found d answers start = (refl, start)
  zip_loop-fetches f id table [] (o ∷ values) found d answers start = absurd answers
  zip_loop-fetches f id table (uid ∷ uids) [] found d answers start = absurd answers
  zip_loop-fetches f id table (uid ∷ uids) (failed text ∷ values) found d answers start =
      ((text, inl refl, refl), start)
  zip_loop-fetches f id table (uid ∷ uids) (done value ∷ values) found d (first, rest) start =
      subst
        (λ o.
          FetchPost f (Spec.fetch layout id f table uids (reject uid o found)) (done value ∷ values)
            (zip_loop db uids values (reject uid value found), d))
        (first value refl)
        (FetchPost-cons f _ (done value) values
          (zip_loop db uids values (reject uid value found), d)
          (zip_loop-fetches f id table uids values (reject uid value found) d rest start))

  -- `fetch` on RocksDB that returns gives the values that stand in the cells of the UIDs asked for;
  -- one that fails gives the error of one of the reads of these cells; it changes nothing and does
  -- not panic.
  pub fetch-reads :
      (index : Index) (table : Table) (uids : Uids) (d : db.Db)
      → FetchPost
          (content d)
          (Spec.fetch layout index.id (content d) table uids [])
          (db.multi_get (map (key index.id table) uids) d).0
          (fetch db index table uids d)
  unfolding fetch
  fetch-reads index table uids d =
      let keys = map (key index.id table) uids in
      zip_loop-fetches (content d) index.id table uids (db.multi_get keys d).0 []
        (db.multi_get keys d).1 (rocks.multi_get-answers keys d) (rocks.content-multi_get keys d)

  -- `set_size` on RocksDB sets what the size cell holds as an `i64`, 0 if there is none or it has
  -- not eight bytes, and changes nothing.
  pub set_size-reads :
      (index : Index) (d : db.Db)
      → ReadPost
          (content d)
          (record index { size = some (as_i64 (size_of layout index.id (content d))) })
          (set_size db index d)
  unfolding set_size size_of
  set_size-reads index d =
      let k = size_key index.id in
      let result = record index { size = some (as_i64 (size_value (content d k))) } in
      attempt_rule rocksdb (db.get k) _ d (ReadPost (content d) result)
        (λ o got. (
          ap (λ n. record index { size = some n })
              (ap size_i64 (rocks.get-reads k d o got) ∙ size_i64-as_i64 (content d k)),
          rocks.content-get k d,
        ))
        (λ _ _. rocks.content-get k d)
