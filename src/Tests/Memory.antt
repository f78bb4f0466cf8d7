-- ===== src/Tests/Memory.antt =====
-- The parameters of the development as concrete functions: an LMDB environment and a RocksDB that
-- are contents in memory, a KMAC of two bytes and encodings of one byte for a UID and a value.
use findex_cloud.Base.{
  ◌+◌, Bytes, Option, none, some, List, [], ◌∷◌, ◌++◌, map, ◌≡◌, refl, sym, ap, ◌∙◌, bytes_eq,
}
use findex_cloud.Words.{be_bytes, be_value}
use findex_cloud.Words.RoundTrip.{length-be_bytes}
use findex_cloud.Errors.{Outcome, done, failed}
use findex_cloud.Core.{EncryptedTable, UpsertData}
use findex_cloud.Core.Signature.{Crypto, IsKmac}
use findex_cloud.Main.{Codec}
use findex_cloud.Spec.{Content, update}
use findex_cloud.Heed.Txn.{Lmdb, IsLmdb}
use findex_cloud.Rocksdb.Merge.{merge_add}
use findex_cloud.Rocksdb.Client.{Rocks, IsRocks, Answers}

abbrev pub lmdb : Lmdb
lmdb = record {
  Env = Content;
  Txn = Content;
  read_txn = λ e. (done e, e);
  write_txn = λ e. (done e, e);
  get = λ t k. done (t k);
  put = λ t k v. done (update t k v);
  commit = λ t e. (done tt, t);
}

abbrev pub lmdb_laws : IsLmdb lmdb
lmdb_laws = record {
  content = λ e. e;
  seen = λ t. t;
  content-read_txn = λ e. refl;
  seen-read_txn = λ e t h. cc;
  content-write_txn = λ e. refl;
  seen-write_txn = λ e t h. cc;
  seen-get = λ t k o h. cc;
  seen-put = λ t u k v h. cc;
  content-commit = λ t e h. refl;
  content-commit_failed = λ t e h. cc;
}

abbrev pub merged : Content → Bytes → Option Bytes → Content
merged f k none = f
merged f k (some w) = update f k w

abbrev pub rocks : Rocks
rocks = record {
  Db = Content;
  Txn = Content → Content;
  get = λ k d. (done (d k), d);
  multi_get = λ ks d. (map (λ k. done (d k)) ks, d);
  put = λ k v d. (done tt, update d k v);
  merge = λ k v d. (done tt, merged d k (merge_add (d k) (v ∷ [])));
  transaction = λ d. ((λ f. f), d);
  get_for_update = λ t k d. (done (t d k, t), d);
  txn_merge = λ t k v d. (done (λ f. merged (t f) k (merge_add (t f k) (v ∷ []))), d);
  txn_put = λ t k v d. (done (λ f. update (t f) k v), d);
  commit = λ t d. (done tt, t d);
  rollback = λ t d. (done tt, d);
}

pub done-injective : {A : Type 0} {a b : A} → done a ≡ done b → a ≡ b
done-injective h = cc

pub all_answered : (ks : List Bytes) (d : Content) → Answers d ks (map (λ k. done (d k)) ks)
all_answered [] d = tt
all_answered (k ∷ ks) d = ((λ v h. cc), all_answered ks d)

abbrev pub rocks_laws : IsRocks rocks
rocks_laws = record {
  content = λ d. d;
  pending = λ t f. t f;
  content-get = λ k d. refl;
  get-reads = λ k d o h. cc;
  content-multi_get = λ ks d. refl;
  multi_get-answers = all_answered;
  content-put = λ k v d h. refl;
  content-put_failed = λ k v d text h. cc;
  content-merge = λ k v w d summed h. rw summed refl;
  content-merge_failed = λ k v d text h. cc;
  content-transaction = λ d. refl;
  pending-transaction = λ d f. refl;
  content-get_for_update = λ t k d. refl;
  get_for_update-reads = λ t u k d o h. cc;
  pending-get_for_update = λ t u k d o f h. cc;
  content-txn_merge = λ t k v d. refl;
  pending-txn_merge =
      λ t u k v w d f summed h. ap (λ p. p f) (sym (done-injective h)) ∙ rw summed refl;
  content-txn_put = λ t k v d. refl;
  pending-txn_put = λ t u k v d f h. ap (λ p. p f) (sym (done-injective h));
  content-commit = λ t d h. refl;
  content-commit_failed = λ t d text h. cc;
  content-rollback = λ t d. refl;
}

abbrev pub crypto : Crypto
crypto = record {
  callback_signature_length = 2;
  uid_length = 1;
  KeyingMaterial = Bytes;
  KmacKey = Bytes;
  deserialize_seed = λ seed. done seed;
  derive_kmac_key = λ material id. material ++ id;
  kmac = λ key timestamp text. be_bytes 2 (be_value key + be_value (timestamp ++ text));
}

pub crypto-IsKmac : IsKmac crypto
crypto-IsKmac = record { length-kmac = λ key timestamp text. length-be_bytes 2 _ }

abbrev read_items : Bytes → Outcome UpsertData
read_items (uid ∷ value ∷ rest) = elim (read_items rest) [
  | failed text ↦ failed text
  | done items ↦ done (record { uid = uid ∷ []; old_value = none; new_value = value ∷ [] } ∷ items)
]
read_items _ = done []

abbrev read_table : Bytes → Outcome EncryptedTable
read_table (uid ∷ value ∷ rest) = elim (read_table rest) [
  | failed text ↦ failed text
  | done items ↦ done ((uid ∷ [], value ∷ []) ∷ items)
]
read_table _ = done []

abbrev write_table : EncryptedTable → Bytes
write_table [] = []
write_table ((uid, value) ∷ rest) = uid ++ value ++ write_table rest

abbrev pub codec : Codec
codec = record {
  deserialize_set = λ bytes. done (map (λ b. b ∷ []) bytes);
  deserialize_upsert_data = read_items;
  deserialize_table = read_table;
  serialize_table = λ items. done (write_table items);
}
