-- ===== src/Main/Sessions/Answers.antt =====
-- What an answer of src/main.rs tells of the call of the database, and that the extractor leaves the
-- store alone.
use findex_cloud.Base.{ℕ, Bytes, bytes_eq, Option, some, none, ◌≡◌, refl, ap, ◌∙◌}
use findex_cloud.Errors.{Error, Result, ok, err, panicked, findex, Outcome, done, failed, or_else}
use findex_cloud.Exec.{Exec, lift, continue, ◌>>=◌}
use findex_cloud.Exec.Laws.{keep_rule}
use findex_cloud.Core.{Index, MetadataDatabase, EncryptedTable}
use findex_cloud.Core.Signature.{Crypto, IsKmac}
use findex_cloud.Core.Cache.{
  Server, on_metadata, on_store, read_cache, modify_cache, remember, after_cache,
  get_index_with_cache, known_or_bad, from_request, cache_get,
}
use findex_cloud.Heed
use findex_cloud.Heed.Txn.{Lmdb, IsLmdb}
use findex_cloud.Main.{Codec}
use findex_cloud.Main.Served.{respond}

module _ {M I : Type 0} (metadata_db : MetadataDatabase M) where
  remember-store :
      (id : Bytes) (o : Option Index) (s : Server M I)
      → (remember metadata_db id o s).1.store ≡ s.store
  unfolding remember modify_cache ◌>>=◌
  remember-store id none s = refl
  remember-store id (some index) s = refl

  after_cache-store :
      (id : Bytes) (o : Option Index) (s : Server M I)
      → (after_cache metadata_db id o s).1.store ≡ s.store
  unfolding after_cache on_metadata
  after_cache-store id (some index) s = refl
  after_cache-store id none s =
      keep_rule (on_metadata (metadata_db.get_index id)) (remember metadata_db id) s
        (λ s'. s'.store ≡ s.store) refl (λ o kept. remember-store id o _ ∙ kept)

  known_or_bad-store :
      (id : Bytes) (o : Option Index) (s : Server M I) → (known_or_bad id o s).1 ≡ s
  unfolding known_or_bad
  known_or_bad-store id none s = refl
  known_or_bad-store id (some index) s = refl

  -- The extractor does not touch the store.
  pub from_request-store :
      (id : Bytes) (s : Server M I) → (from_request metadata_db (some id) s).1.store ≡ s.store
  unfolding from_request get_index_with_cache read_cache
  from_request-store id s =
      keep_rule (get_index_with_cache metadata_db id) (known_or_bad id) s (λ s'. s'.store ≡ s.store)
        (unfold ◌>>=◌ in after_cache-store id (cache_get s.cache id) s)
        (λ o kept. ap (λ s'. s'.store) (known_or_bad-store id o _) ∙ kept)

err-ne-ok : (x : Error) (bytes : Bytes) → ◌≡◌ {A = Result Bytes} (err x) (ok bytes) → ⊥
err-ne-ok x bytes h = cc

panicked-ne-ok : (bytes : Bytes) → ◌≡◌ {A = Result Bytes} panicked (ok bytes) → ⊥
panicked-ne-ok bytes h = cc

done_of_ok : (o : Outcome Bytes) (bytes : Bytes) → or_else findex o ≡ ok bytes → o ≡ done bytes
done_of_ok (done b) bytes h = cc
done_of_ok (failed text) bytes h = absurd cc

module _ {M : Type 0} (metadata_db : MetadataDatabase M) (db : Lmdb) (lmdb : IsLmdb db)
    (crypto : Crypto) (kmac : IsKmac crypto) (codec : Codec) (now : Option ℕ) where
  open lmdb use {content}

  -- An answer is the encoding of what the database has returned.
  pub respond-ok :
      (m : Exec db.Env EncryptedTable) (s s' : Server M db.Env) (bytes : Bytes)
      → respond metadata_db (Heed.database db) crypto kmac codec now m s ≡ (ok bytes, s')
      → (table : EncryptedTable) × (m s.store ≡ (ok table, s'.store))
        × (codec.serialize_table table ≡ done bytes)
  unfolding on_store ◌>>=◌
  respond-ok m s s' bytes = go (m s.store).0 (m s.store).1
    where
      go :
          (r : Result EncryptedTable) (e : db.Env)
          → continue r
              (λ table. lift (or_else findex (codec.serialize_table table)))
              (record s { store = e })
            ≡ (ok bytes, s')
          → (table : EncryptedTable) × (◌≡◌ {A = Result EncryptedTable × db.Env}
              (r, e)
              (ok table, s'.store))
            × (codec.serialize_table table ≡ done bytes)
      go (ok table) e h = (
        table,
        ap (λ p. (ok table, p.1.store)) h,
        done_of_ok (codec.serialize_table table) bytes (ap (λ p. p.0) h),
      )
      go (err x) e h = absurd (err-ne-ok x bytes (ap (λ p. p.0) h))
      go panicked e h = absurd (panicked-ne-ok bytes (ap (λ p. p.0) h))
