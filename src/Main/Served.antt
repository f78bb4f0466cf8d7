-- ===== src/Main/Served.antt =====
-- A request of src/main.rs that is signed and well formed is carried out.
use findex_cloud.Base.{ℕ, Bytes, Option, some, ◌≡◌, refl, ◌∙◌, ap}
use findex_cloud.Errors.{ok, findex, Outcome, done, or_else}
use findex_cloud.Exec.{Exec, continue, lift, ◌>>=◌}
use findex_cloud.Core.{
  Index, MetadataDatabase, IndexesDatabase, EncryptedTable, UpsertData, Uids, Table,
}
use findex_cloud.Core.Signature.{Crypto, IsKmac, check_body_signature}
use findex_cloud.Core.Signature.Laws.{IsSigned, check_body_signature_iff}
use findex_cloud.Core.Cache.{Server, on_store, from_request}
use findex_cloud.Main.{Codec, answer_fetch, answer_upsert, fetch_entries, upsert_entries}

module _ {M I : Type 0} (metadata_db : MetadataDatabase M) (indexes_db : IndexesDatabase I)
    (crypto : Crypto) (kmac : IsKmac crypto) (codec : Codec) (now : Option ℕ) where
  -- The answer of a database as the body of a response.
  abbrev pub respond : Exec I EncryptedTable → Exec (Server M I) Bytes
  respond m = do table ← on_store m; lift (or_else findex (codec.serialize_table table))

  -- A chain of a step whose end is known.
  after :
      {A B : Type 0} (m : Exec (Server M I) A) (f : A → Exec (Server M I) B) (s s' : Server M I)
      (a : A)
      → m s ≡ (ok a, s')
      → (m >>= f) s ≡ f a s'
  unfolding ◌>>=◌
  after m f s s' a e = ap (λ p. continue p.0 f p.1) e

  -- Two pure steps that succeed before the step `f`.
  checked :
      {A B : Type 0} (index : Index) (key body text : Bytes) (read : Bytes → Outcome A) (a : A)
      (f : A → Exec (Server M I) B) (s : Server M I)
      → IsSigned crypto now body index.id key text
      → read text ≡ done a
      → (lift (check_body_signature crypto now body index.id key) >>= λ bytes.
            lift (or_else findex (read bytes)) >>= f)
          s
        ≡ f a s
  unfolding ◌>>=◌
  checked index key body text read a f s signed decoded =
      rw ((check_body_signature_iff crypto now body index.id key text kmac).1 signed, decoded) refl

  module _ (s s' : Server M I) (id body text : Bytes) (index : Index)
      (known : from_request metadata_db (some id) s ≡ (ok index, s')) where
    -- Where a KMAC has the length of a signature: a request to `upsert_entries` whose index is
    -- found, whose body is signed with the upsert key of that index and has not expired, and whose
    -- data can be decoded, is answered with what the indexes database answers to the decoded items.
    pub upsert_entries-served :
        (items : UpsertData)
        → IsSigned crypto now body index.id index.upsert_entries_key text
        → codec.deserialize_upsert_data text ≡ done items
        → upsert_entries metadata_db indexes_db crypto codec now (some id) body s
          ≡ respond (indexes_db.upsert_entries index items) s'
    unfolding upsert_entries answer_upsert
    upsert_entries-served items signed decoded =
        after (from_request metadata_db (some id)) _ s s' index known
        ∙ checked index index.upsert_entries_key body text codec.deserialize_upsert_data items _ s'
            signed decoded

    -- Where a KMAC has the length of a signature: a request to `fetch_entries` whose index is
    -- found, whose body is signed with the key for fetching entries of that index and has not
    -- expired, and whose data can be decoded, is answered with what the indexes database has in the
    -- table of entries for the decoded UIDs.
    pub fetch_entries-served :
        (uids : Uids)
        → IsSigned crypto now body index.id index.fetch_entries_key text
        → codec.deserialize_set text ≡ done uids
        → fetch_entries metadata_db indexes_db crypto codec now (some id) body s
          ≡ respond (indexes_db.fetch index Table.entries uids) s'
    unfolding fetch_entries answer_fetch
    fetch_entries-served uids signed decoded =
        after (from_request metadata_db (some id)) _ s s' index known
        ∙ checked index index.fetch_entries_key body text codec.deserialize_set uids _ s' signed
            decoded
