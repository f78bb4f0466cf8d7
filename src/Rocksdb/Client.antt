-- ===== src/Rocksdb/Client.antt =====
-- The crate `rocksdb` as src/rocksdb.rs uses it: a transactional database opened with `merge_add`
-- as its merge operator.
use findex_cloud.Base.{Bytes, Option, some, List, [], ◌∷◌, ◌≡◌, String}
use findex_cloud.Errors.{Outcome, done, failed}
use findex_cloud.Exec.{Call}
use findex_cloud.Spec.{Content, update}
use findex_cloud.Rocksdb.Merge.{merge_add}

-- The operations that write to a transaction hand it back. `get_for_update` locks the key.
pub record Rocks : Type 1 where
  pub Db : Type 0
  pub Txn : Type 0
  pub get : Bytes → Call Db (Option Bytes)
  pub multi_get : List Bytes → Db → List (Outcome (Option Bytes)) × Db
  pub put : Bytes → Bytes → Call Db (Unit {0})
  pub merge : Bytes → Bytes → Call Db (Unit {0})
  pub transaction : Db → Txn × Db
  pub get_for_update : Txn → Bytes → Call Db (Option Bytes × Txn)
  pub txn_merge : Txn → Bytes → Bytes → Call Db Txn
  pub txn_put : Txn → Bytes → Bytes → Call Db Txn
  pub commit : Txn → Call Db (Unit {0})
  pub rollback : Txn → Call Db (Unit {0})

-- The answers of `multi_get`: for each key its value, or an error.
abbrev pub Answers : Content → List Bytes → List (Outcome (Option Bytes)) → Type 0
Answers f [] [] = Unit
Answers f [] (_ ∷ _) = ⊥
Answers f (_ ∷ _) [] = ⊥
Answers f (k ∷ ks) (o ∷ os) = ((v : Option Bytes) → o ≡ done v → v ≡ f k) × Answers f ks os

-- What RocksDB documents, for the time of one call during which no other client writes the cells
-- that it reads: `content` is what is committed, and `pending t` is what the commit of `t` makes of
-- a content. A call that fails changes nothing.
pub record IsRocks (db : Rocks) : Type 0 where
  pub content : db.Db → Content
  pub pending : db.Txn → Content → Content
  pub content-get : (k : Bytes) (d : db.Db) → content (db.get k d).1 ≡ content d
  pub get-reads :
      (k : Bytes) (d : db.Db) (o : Option Bytes) → (db.get k d).0 ≡ done o → o ≡ content d k
  pub content-multi_get : (ks : List Bytes) (d : db.Db) → content (db.multi_get ks d).1 ≡ content d
  pub multi_get-answers :
      (ks : List Bytes) (d : db.Db) → Answers (content d) ks (db.multi_get ks d).0
  pub content-put :
      (k v : Bytes) (d : db.Db)
      → (db.put k v d).0 ≡ done tt
      → content (db.put k v d).1 ≡ update (content d) k v
  pub content-put_failed :
      (k v : Bytes) (d : db.Db) (text : String)
      → (db.put k v d).0 ≡ failed text
      → content (db.put k v d).1 ≡ content d
  pub content-merge :
      (k v w : Bytes) (d : db.Db)
      → merge_add (content d k) (v ∷ []) ≡ some w
      → (db.merge k v d).0 ≡ done tt
      → content (db.merge k v d).1 ≡ update (content d) k w
  pub content-merge_failed :
      (k v : Bytes) (d : db.Db) (text : String)
      → (db.merge k v d).0 ≡ failed text
      → content (db.merge k v d).1 ≡ content d
  pub content-transaction : (d : db.Db) → content (db.transaction d).1 ≡ content d
  pub pending-transaction : (d : db.Db) (f : Content) → pending (db.transaction d).0 f ≡ f
  pub content-get_for_update :
      (t : db.Txn) (k : Bytes) (d : db.Db) → content (db.get_for_update t k d).1 ≡ content d
  pub get_for_update-reads :
      (t u : db.Txn) (k : Bytes) (d : db.Db) (o : Option Bytes)
      → (db.get_for_update t k d).0 ≡ done (o, u)
      → o ≡ pending t (content d) k
  pub pending-get_for_update :
      (t u : db.Txn) (k : Bytes) (d : db.Db) (o : Option Bytes) (f : Content)
      → (db.get_for_update t k d).0 ≡ done (o, u)
      → pending u f ≡ pending t f
  pub content-txn_merge :
      (t : db.Txn) (k v : Bytes) (d : db.Db) → content (db.txn_merge t k v d).1 ≡ content d
  pub pending-txn_merge :
      (t u : db.Txn) (k v w : Bytes) (d : db.Db) (f : Content)
      → merge_add (pending t f k) (v ∷ []) ≡ some w
      → (db.txn_merge t k v d).0 ≡ done u
      → pending u f ≡ update (pending t f) k w
  pub content-txn_put :
      (t : db.Txn) (k v : Bytes) (d : db.Db) → content (db.txn_put t k v d).1 ≡ content d
  pub pending-txn_put :
      (t u : db.Txn) (k v : Bytes) (d : db.Db) (f : Content)
      → (db.txn_put t k v d).0 ≡ done u
      → pending u f ≡ update (pending t f) k v
  pub content-commit :
      (t : db.Txn) (d : db.Db)
      → (db.commit t d).0 ≡ done tt
      → content (db.commit t d).1 ≡ pending t (content d)
  pub content-commit_failed :
      (t : db.Txn) (d : db.Db) (text : String)
      → (db.commit t d).0 ≡ failed text
      → content (db.commit t d).1 ≡ content d
  pub content-rollback : (t : db.Txn) (d : db.Db) → content (db.rollback t d).1 ≡ content d
