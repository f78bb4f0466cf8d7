-- ===== src/Main/Access.antt =====
-- Which requests of src/main.rs reach the indexes database.
use findex_cloud.Base.{ℕ, Bytes, Option, some, ◌≡◌, ◌≢◌, ◌⊎◌, inl, inr}
use findex_cloud.Errors.{ok, Result}
use findex_cloud.Exec.{Exec, lift, ◌>>=◌}
use findex_cloud.Exec.Laws.{post_rule, lift_rule}
use findex_cloud.Core.{Index, MetadataDatabase, IndexesDatabase}
use findex_cloud.Core.Signature.{Crypto, IsKmac, check_body_signature}
use findex_cloud.Core.Signature.Laws.{IsSigned, check_body_signature_iff}
use findex_cloud.Core.Cache.{Server, from_request}
use findex_cloud.Core.Cache.Laws.{Rows, IsMetadata, IsCoherent, RequestPost, from_request-post}
use findex_cloud.Main.{
  Codec, answer_fetch, answer_upsert, answer_insert, fetch_entries, fetch_chains, upsert_entries,
  insert_chains,
}

module _ {M I : Type 0} (metadata_db : MetadataDatabase M) (rows : M → Rows)
    (meta : IsMetadata metadata_db rows) (indexes_db : IndexesDatabase I) (crypto : Crypto)
    (kmac : IsKmac crypto) (codec : Codec) (now : Option ℕ) where
  -- The body is signed with `key`, a key of the stored index `index`.
  abbrev Signed : Index → Bytes → Bytes → Type 0
  Signed index key body = (text : Bytes) × IsSigned crypto now body index.id key text

  -- The answer is no success and the store is as it was.
  abbrev pub Refused : {A : Type 0} → Server M I → Result A × Server M I → Type 0
  Refused {A} s (r, s') = (s'.store ≡ s.store) × ((a : A) → r ≢ ok a)

  abbrev Guarded :
      {A : Type 0} → Server M I → Index → Bytes → Bytes → Result A × Server M I → Type 0
  Guarded s index key body p = Refused s p ⊎ Signed index key body

  signature_first :
      {A : Type 0} (f : Bytes → Exec (Server M I) A) (s s' : Server M I) (index : Index)
      (key body : Bytes)
      → s'.store ≡ s.store
      → Guarded s index key body
          ((lift (check_body_signature crypto now body index.id key) >>= f) s')
  signature_first f s s' index key body kept =
      lift_rule (check_body_signature crypto now body index.id key) f s' (Guarded s index key body)
        (λ text accepted.
          inr (text, (check_body_signature_iff crypto now body index.id key text kmac).0 accepted))
        (λ _ _. inl (kept, λ a. cc)) (λ _. inl (kept, λ a. cc))

  -- The index whose stored key signs the body of a request for `id`.
  abbrev pub Authorised : Server M I → Bytes → (Index → Bytes) → Bytes → Type 0
  Authorised s id key_of body =
      (index : Index) × (rows s.metadata id ≡ some index)
      × ((text : Bytes) × IsSigned crypto now body index.id (key_of index) text)

  authorise :
      {A : Type 0} (answer : Index → Exec (Server M I) A) (s : Server M I) (id : Bytes)
      (key_of : Index → Bytes) (body : Bytes)
      → ((s' : Server M I) (index : Index)
          → s'.store ≡ s.store
          → Guarded s index (key_of index) body (answer index s'))
      → IsCoherent rows s
      → Refused s ((from_request metadata_db (some id) >>= answer) s) ⊎ Authorised s id key_of body
  authorise answer s id key_of body guarded h =
      post_rule (from_request metadata_db (some id)) answer s (RequestPost rows s id)
        (λ p. Refused s p ⊎ Authorised s id key_of body)
        (from_request-post metadata_db rows meta s id h)
        (λ index s' (row, u). elim (guarded s' index u.store_kept) [
          | inl refused ↦ inl refused
          | inr signed ↦ inr (index, row, signed)
        ])
        (λ _ _ u. inl (u.store_kept, λ a. cc)) (λ _ u. inl (u.store_kept, λ a. cc))

  module _ (s : Server M I) (id body : Bytes) (coherent : IsCoherent rows s) where
    -- Through a coherent cache, a request to `fetch_entries` leaves the indexes database as it was
    -- and has no success as its answer, or the metadata has a row for its ID whose key for fetching
    -- entries signs the body.
    pub fetch_entries-Authorised :
        Refused s (fetch_entries metadata_db indexes_db crypto codec now (some id) body s)
        ⊎ Authorised s id (λ index. index.fetch_entries_key) body
    unfolding fetch_entries answer_fetch
    fetch_entries-Authorised =
        authorise _ s id (λ index. index.fetch_entries_key) body
          (λ s' index kept. signature_first _ s s' index index.fetch_entries_key body kept) coherent

    -- Through a coherent cache, a request to `fetch_chains` leaves the indexes database as it was
    -- and has no success as its answer, or the metadata has a row for its ID whose key for fetching
    -- chains signs the body.
    pub fetch_chains-Authorised :
        Refused s (fetch_chains metadata_db indexes_db crypto codec now (some id) body s)
        ⊎ Authorised s id (λ index. index.fetch_chains_key) body
    unfolding fetch_chains answer_fetch
    fetch_chains-Authorised =
        authorise _ s id (λ index. index.fetch_chains_key) body
          (λ s' index kept. signature_first _ s s' index index.fetch_chains_key body kept) coherent

    -- Through a coherent cache, a request to `upsert_entries` leaves the indexes database as it was
    -- and has no success as its answer, or the metadata has a row for its ID whose upsert key signs
    -- the body.
    pub upsert_entries-Authorised :
        Refused s (upsert_entries metadata_db indexes_db crypto codec now (some id) body s)
        ⊎ Authorised s id (λ index. index.upsert_entries_key) body
    unfolding upsert_entries answer_upsert
    upsert_entries-Authorised =
        authorise _ s id (λ index. index.upsert_entries_key) body
          (λ s' index kept. signature_first _ s s' index index.upsert_entries_key body kept)
          coherent

    -- Through a coherent cache, a request to `insert_chains` leaves the indexes database as it was
    -- and has no success as its answer, or the metadata has a row for its ID whose insertion key
    -- signs the body.
    pub insert_chains-Authorised :
        Refused s (insert_chains metadata_db indexes_db crypto codec now (some id) body s)
        ⊎ Authorised s id (λ index. index.insert_chains_key) body
    unfolding insert_chains answer_insert
    insert_chains-Authorised =
        authorise _ s id (λ index. index.insert_chains_key) body
          (λ s' index kept. signature_first _ s s' index index.insert_chains_key body kept) coherent

    -- Through a coherent cache, a request to `fetch_entries` or to `fetch_chains` leaves the
    -- indexes database as it was and has no success as its answer, or the metadata has a row for
    -- its ID whose key for fetching from this table signs the body.
    pub fetch-Authorised :
        (Refused s (fetch_entries metadata_db indexes_db crypto codec now (some id) body s)
          ⊎ Authorised s id (λ index. index.fetch_entries_key) body)
        × (Refused s (fetch_chains metadata_db indexes_db crypto codec now (some id) body s)
            ⊎ Authorised s id (λ index. index.fetch_chains_key) body)
    fetch-Authorised = (fetch_entries-Authorised, fetch_chains-Authorised)
