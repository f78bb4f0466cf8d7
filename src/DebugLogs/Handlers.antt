-- ===== src/DebugLogs/Handlers.antt =====
-- The handlers of src/main.rs and src/debug_logs.rs that the feature log_requests changes or adds.
use findex_cloud.Base.{ℕ, Bytes, Option, [], ◌∷◌}
use findex_cloud.Errors.From
use findex_cloud.Errors.{panicked, or_else}
use findex_cloud.Exec.{Exec, lift, ◌>>=◌, ◌>>◌}
use findex_cloud.Core.{Index, Table, IndexesDatabase, MetadataDatabase}
use findex_cloud.Core.Signature.{Crypto, check_body_signature}
use findex_cloud.Core.Cache.{Server, on_store, from_request}
use findex_cloud.Main.{Codec}
use findex_cloud.DebugLogs.{Log, Outside, save_log}

-- `fetch_all_as_json` of the trait; the default method is `unimplemented!()`.
abbrev pub Exporting : Type 0 → Type 0
Exporting I = Index → Table → Exec I Bytes

unfoldable pub unimplemented : {I : Type 0} → Exporting I
unimplemented index table store = (panicked, store)

-- The service with the log beside it.
abbrev pub LoggedServer : Type 0 → Type 0 → Type 0
LoggedServer M I = Server M I × Log

module _ {M I : Type 0} where
  unfoldable pub on_server : {A : Type 0} → Exec (Server M I) A → Exec (LoggedServer M I) A
  on_server m (s, log) = let (r, s') = m s in (r, (s', log))

  unfoldable pub on_log : {A : Type 0} → Exec Log A → Exec (LoggedServer M I) A
  on_log m (s, log) = let (r, log') = m log in (r, (s, log'))

-- "fetch_entries"
abbrev pub fetch_entries_type : Bytes
fetch_entries_type = 102 ∷ 101 ∷ 116 ∷ 99 ∷ 104 ∷ 95 ∷ 101 ∷ 110 ∷ 116 ∷ 114 ∷ 105 ∷ 101 ∷ 115 ∷ []

-- "fetch_chains"
abbrev pub fetch_chains_type : Bytes
fetch_chains_type = 102 ∷ 101 ∷ 116 ∷ 99 ∷ 104 ∷ 95 ∷ 99 ∷ 104 ∷ 97 ∷ 105 ∷ 110 ∷ 115 ∷ []

module _ {M I : Type 0} (metadata_db : MetadataDatabase M) (indexes_db : IndexesDatabase I) where
  module _ (fetch_all_as_json : Exporting I) where
    unfoldable pub export_entries_for_index : Option Bytes → Exec (Server M I) Bytes
    export_entries_for_index path = do
      index ← from_request metadata_db path
      on_store (fetch_all_as_json index Table.entries)

    unfoldable pub export_chains_for_index : Option Bytes → Exec (Server M I) Bytes
    export_chains_for_index path = do
      index ← from_request metadata_db path
      on_store (fetch_all_as_json index Table.chains)

  module _ (crypto : Crypto) (codec : Codec) (outside : Outside) (now log_now : Option ℕ) where
    unfoldable pub answer_fetch :
        Table → Bytes → Index → Bytes → Bytes → Exec (LoggedServer M I) Bytes
    answer_fetch table log_type index key body = do
      bytes ← lift (check_body_signature crypto now body index.id key)
      uids ← lift (or_else From.set (codec.deserialize_set bytes))
      uids_and_values ← on_server (on_store (indexes_db.fetch index table uids))
      on_log (save_log outside log_type uids uids_and_values log_now)
      lift (or_else From.core (codec.serialize_table uids_and_values))

    unfoldable pub fetch_entries : Option Bytes → Bytes → Exec (LoggedServer M I) Bytes
    fetch_entries path body = do
      index ← on_server (from_request metadata_db path)
      answer_fetch Table.entries fetch_entries_type index index.fetch_entries_key body

    unfoldable pub fetch_chains : Option Bytes → Bytes → Exec (LoggedServer M I) Bytes
    fetch_chains path body = do
      index ← on_server (from_request metadata_db path)
      answer_fetch Table.chains fetch_chains_type index index.fetch_chains_key body
