-- ===== src/Main/Sessions.antt =====
-- A client's requests to src/main.rs one after the other, with src/heed.rs behind them: an upsert
-- and the fetch that follows it.
pub mod Answers
use findex_cloud.Base.{
  ℕ, Bytes, bytes_eq, Option, some, none, length, ◌≡◌, refl, sym, ap, subst, ◌∙◌, if◌then◌else◌,
}
use findex_cloud.Base.HashMap.{get}
use findex_cloud.Errors.{Error, Result, ok, err, panicked, findex, Outcome, done, failed, or_else}
use findex_cloud.Exec.{Exec, lift, continue, ◌>>=◌}
use findex_cloud.Exec.Laws.{keep_rule}
use findex_cloud.Core.{Index, MetadataDatabase, EncryptedTable, UpsertData, Uid, Uids, Table}
use findex_cloud.Core.Signature.{Crypto, IsKmac}
use findex_cloud.Core.Signature.Laws.{IsSigned}
use findex_cloud.Core.Cache.{
  Server, on_metadata, on_store, read_cache, modify_cache, remember, after_cache,
  get_index_with_cache, known_or_bad, from_request, cache_get,
}
use findex_cloud.Spec.Laws.{find, DistinctUids, HasUidLength, cell_after}
use findex_cloud.Spec.Guarantees.{contains}
use findex_cloud.Heed
use findex_cloud.Heed.Keys.{key}
use findex_cloud.Heed.Txn.{Lmdb, IsLmdb}
use findex_cloud.Heed.Cells.{OrUnchanged, Swapped, Found, upsert_entries-cell, fetch-get}
use findex_cloud.Main.{Codec, upsert_entries, fetch_entries}
use findex_cloud.Main.Served.{respond, upsert_entries-served, fetch_entries-served}
use Answers.{from_request-store, respond-ok}

module _ {M : Type 0} (metadata_db : MetadataDatabase M) (db : Lmdb) (lmdb : IsLmdb db)
    (crypto : Crypto) (kmac : IsKmac crypto) (codec : Codec) where
  open lmdb use {content}

  -- The request finds the index and its body is signed with the key.
  abbrev pub Accepted : Option ℕ → Server M db.Env → Bytes → Index → Bytes → Bytes → Bytes → Type 0
  Accepted now s id index key body text =
      (s' : Server M db.Env) × (from_request metadata_db (some id) s ≡ (ok index, s'))
      × IsSigned crypto now body index.id key text

  found_store :
      (s s' : Server M db.Env) (id : Bytes) (index : Index)
      → from_request metadata_db (some id) s ≡ (ok index, s')
      → s'.store ≡ s.store
  found_store s s' id index found =
      ap (λ p. p.1.store) (sym found) ∙ from_request-store metadata_db id s

  upsert_stored :
      (now : Option ℕ) (s t : Server M db.Env) (id body text answer : Bytes) (index : Index)
      (items : UpsertData) (n : ℕ) (x : Uid)
      → Accepted now s id index index.upsert_entries_key body text
      → codec.deserialize_upsert_data text ≡ done items
      → upsert_entries metadata_db (Heed.database db) crypto codec now (some id) body s
        ≡ (ok answer, t)
      → HasUidLength n items
      → DistinctUids items
      → length x ≡ n
      → content t.store (key index.id Table.entries x)
        ≡ cell_after (content s.store (key index.id Table.entries x)) (find x items)
  unfolding Heed.database
  upsert_stored now s t id body text answer index items n x (s', known, signed) decoded answered hs
        ds hx =
      let (rejected, ran, _) =
        respond-ok metadata_db db lmdb crypto kmac codec now (Heed.upsert_entries db index items) s'
          t answer
          (sym (
              upsert_entries-served metadata_db (Heed.database db) crypto kmac codec now s s' id
                body text index known items signed decoded)
            ∙ answered) in
      let k = key index.id Table.entries x in
      subst (λ e. content t.store k ≡ cell_after (content e k) (find x items))
        (found_store s s' id index known)
        (subst
          (OrUnchanged db lmdb (content s'.store)
            (Swapped db lmdb index x items (content s'.store)))
          ran (upsert_entries-cell db lmdb index n s'.store items x hs ds hx)).0

  fetch_answered :
      (now : Option ℕ) (t u : Server M db.Env) (id body text answer : Bytes) (index : Index)
      (uids : Uids) (x : Uid)
      → Accepted now t id index index.fetch_entries_key body text
      → codec.deserialize_set text ≡ done uids
      → fetch_entries metadata_db (Heed.database db) crypto codec now (some id) body t
        ≡ (ok answer, u)
      → (found : EncryptedTable) × (codec.serialize_table found ≡ done answer)
        × (get x found
            ≡ (if contains x uids then content t.store (key index.id Table.entries x) else none))
  unfolding Heed.database
  fetch_answered now t u id body text answer index uids x (t', known, signed) decoded answered =
      let (found, ran, encoded) =
        respond-ok metadata_db db lmdb crypto kmac codec now
          (Heed.fetch db index Table.entries uids) t' u answer
          (sym (
              fetch_entries-served metadata_db (Heed.database db) crypto kmac codec now t t' id body
                text index known uids signed decoded)
            ∙ answered) in
      let k = key index.id Table.entries x in
      (
        found,
        encoded,
        subst (λ e. get x found ≡ (if contains x uids then content e k else none))
            (found_store t t' id index known)
            (subst
              (OrUnchanged db lmdb (content t'.store)
                (Found db lmdb index Table.entries uids x (content t'.store)))
              ran (fetch-get db lmdb index t'.store Table.entries uids x)).0,
      )

  -- What the answer says of a UID: nothing if it was not asked for.
  abbrev pub Answered : Bytes → Uid → Uids → Option Bytes → Type 0
  Answered answer x uids cell =
      (found : EncryptedTable) × (codec.serialize_table found ≡ done answer)
      × (get x found ≡ (if contains x uids then cell else none))

  -- Where a KMAC has the length of a signature, with LMDB: if a signed request to `upsert_entries`
  -- with items of distinct UIDs of one length is answered, and then, at any time of the clock, a
  -- signed request to `fetch_entries`, with no other request between them, the second answer
  -- encodes a table that has for each UID asked for, of that length, what the upsert has left in
  -- its cell: the new value where the old one agreed, else what was there.
  pub upsert_entries-fetch_entries :
      (now later : Option ℕ) (s t u : Server M db.Env)
      (id body text answer body' text' answer' : Bytes) (index : Index) (items : UpsertData)
      (uids : Uids) (n : ℕ) (x : Uid)
      → Accepted now s id index index.upsert_entries_key body text
      → codec.deserialize_upsert_data text ≡ done items
      → upsert_entries metadata_db (Heed.database db) crypto codec now (some id) body s
        ≡ (ok answer, t)
      → Accepted later t id index index.fetch_entries_key body' text'
      → codec.deserialize_set text' ≡ done uids
      → fetch_entries metadata_db (Heed.database db) crypto codec later (some id) body' t
        ≡ (ok answer', u)
      → HasUidLength n items
      → DistinctUids items
      → length x ≡ n
      → Answered answer' x uids
          (cell_after (lmdb.content s.store (key index.id Table.entries x)) (find x items))
  upsert_entries-fetch_entries now later s t u id body text answer body' text' answer' index items
        uids n x accepted decoded answered accepted' decoded' answered' hs ds hx =
      let (found, encoded, got) =
        fetch_answered later t u id body' text' answer' index uids x accepted' decoded' answered' in
      (
        found,
        encoded,
        got
            ∙ ap (λ cell. if contains x uids then cell else none)
                (upsert_stored now s t id body text answer index items n x accepted decoded answered
                  hs ds hx),
      )
