-- ===== src/DebugLogs/Transparency.antt =====
-- The fetch handlers of src/main.rs with the log of src/debug_logs.rs, beside those without.
use findex_cloud.Base.{ℕ, Bytes, Bool, true, false, Option, none, some, ◌≡◌, ◌⊎◌, inl, inr, refl}
use findex_cloud.Exec.Laws.{post_rule}
use findex_cloud.Errors.{
  Error, bad_request, before_unix_epoch, cannot_open_log, cannot_convert_to_json, cannot_write_log,
  Outcome, done, failed, Result, ok, err, panicked, or_else, findex,
}
use findex_cloud.Exec.{Exec, lift, continue, ◌>>=◌}
use findex_cloud.Core.{Index, Table, Uids, EncryptedTable, IndexesDatabase, MetadataDatabase}
use findex_cloud.Core.Signature.{Crypto, check_body_signature}
use findex_cloud.Core.Cache.{Server, on_store, from_request}
use findex_cloud.Main
use findex_cloud.Main.{Codec}
use findex_cloud.DebugLogs.{
  Log, Outside, save_log, opened, in_milliseconds, locked, unwrap, read_difference, json_or,
  write_line,
}
use findex_cloud.DebugLogs.Handlers.{
  LoggedServer, on_server, on_log, answer_fetch, fetch_entries_type, fetch_chains_type,
  fetch_entries, fetch_chains,
}

-- The errors of the log itself.
abbrev pub IsLogError : Error → Type 0
IsLogError e =
    (e ≡ bad_request cannot_open_log)
    ⊎ (e ≡ bad_request before_unix_epoch)
    ⊎ (e ≡ bad_request cannot_convert_to_json)
    ⊎ (e ≡ bad_request cannot_write_log)

abbrev LogPost : {A : Type 0} → Result A × Log → Type 0
LogPost (ok _, log) = Unit
LogPost (err e, log) = IsLogError e
LogPost (panicked, log) = Unit

module _ {A B : Type 0} where
  LogPost-bind :
      (m : Exec Log A) (f : A → Exec Log B) (log : Log)
      → LogPost (m log)
      → ((a : A) (log' : Log) → LogPost (f a log'))
      → LogPost ((m >>= f) log)
  LogPost-bind m f log first later =
      post_rule m f log LogPost LogPost first (λ a log' _. later a log') (λ _ _ h. h) (λ _ h. h)

opened-LogPost : (outside : Outside) (can : Bool) (log : Log) → LogPost (opened outside can log)
unfolding opened
opened-LogPost outside false log = inl refl
opened-LogPost outside true log = tt

milliseconds-LogPost : (now : Option ℕ) (log : Log) → LogPost (lift (in_milliseconds now) log)
milliseconds-LogPost none log = inr (inl refl)
milliseconds-LogPost (some n) log = tt

locked-LogPost : (log : Log) → LogPost (locked log)
unfolding locked
locked-LogPost log = go log.poisoned
  where
    go : (poisoned : Bool) → LogPost (unwrap poisoned, log)
    go true = tt
    go false = tt

json_or-LogPost :
    (outside : Outside) (o : Option (Outcome Bytes)) (log : Log) → LogPost (json_or outside o log)
json_or-LogPost outside none log = tt
json_or-LogPost outside (some (failed _)) log = inr (inr (inl refl))
json_or-LogPost outside (some (done line)) log = tt

write_line-LogPost :
    (outside : Outside) (can : Bool) (line : Bytes) (log : Log)
    → LogPost (write_line outside can line log)
unfolding write_line
write_line-LogPost outside false line log = inr (inr (inr refl))
write_line-LogPost outside true line log = tt

-- An error of `save_log` is one of its own.
save_log-LogPost :
    (outside : Outside) (log_type : Bytes) (uids : Uids) (found : EncryptedTable) (now : Option ℕ)
    (log : Log)
    → LogPost (save_log outside log_type uids found now log)
unfolding save_log read_difference
save_log-LogPost outside log_type uids found now log =
    LogPost-bind (opened outside outside.can_open) _ log
      (opened-LogPost outside outside.can_open log)
      (λ _ log1.
        LogPost-bind (lift (in_milliseconds now)) _ log1 (milliseconds-LogPost now log1)
          (λ current_time log2. LogPost-bind locked _ log2 (locked-LogPost log2) (λ _ log3.
            LogPost-bind (read_difference outside) _ log3 tt (λ time_diff log4.
              LogPost-bind (json_or outside _) _ log4 (json_or-LogPost outside _ log4)
                (λ line log5. write_line-LogPost outside outside.can_write line log5)))))

module _ {M I A : Type 0} where
  -- With the log, the server is left as without it, and what is answered, an error too, is what is
  -- answered without it, or an error of the log.
  abbrev pub Transparent : Result A × LoggedServer M I → Result A × Server M I → Type 0
  Transparent (ok a, (s, _)) plain = plain ≡ (ok a, s)
  Transparent (err e, (s, _)) plain = (plain ≡ (err e, s)) ⊎ (IsLogError e × (plain.1 ≡ s))
  Transparent (panicked, (s, _)) plain = plain.1 ≡ s

  lift-Transparent : (r : Result A) (s : Server M I) (log : Log) → Transparent (r, (s, log)) (r, s)
  lift-Transparent (ok a) s log = refl
  lift-Transparent (err x) s log = inl refl
  lift-Transparent panicked s log = refl

  module _ {B : Type 0} where
    same_step :
        (r : Result B) (f : B → Exec (LoggedServer M I) A) (g : B → Exec (Server M I) A)
        (s : Server M I) (log : Log)
        → ((b : B) → Transparent (f b (s, log)) (g b s))
        → Transparent (continue r f (s, log)) (continue r g s)
    same_step (ok b) f g s log later = later b
    same_step (err x) f g s log later = inl refl
    same_step panicked f g s log later = refl

    logged_step :
        (r : Result B) (a : Result A) (s : Server M I) (log : Log)
        → LogPost (r, log)
        → Transparent (continue r (λ _. lift a) (s, log)) (a, s)
    logged_step (ok b) a s log post = lift-Transparent a s log
    logged_step (err x) a s log post = inr (post, refl)
    logged_step panicked a s log post = refl

module _ {M I : Type 0} (metadata_db : MetadataDatabase M) (indexes_db : IndexesDatabase I)
    (crypto : Crypto) (codec : Codec) (outside : Outside) (now log_now : Option ℕ) where
  answer_fetch-Transparent :
      (t : Table) (log_type : Bytes) (index : Index) (key body : Bytes) (s : Server M I) (log : Log)
      → Transparent
          (answer_fetch metadata_db indexes_db crypto codec outside now log_now t log_type index key
            body
            (s, log))
          (Main.answer_fetch metadata_db indexes_db crypto codec now t index key body s)
  unfolding answer_fetch Main.answer_fetch on_server on_log ◌>>=◌
  answer_fetch-Transparent t log_type index key body s log =
      same_step (check_body_signature crypto now body index.id key) _ _ s log (λ bytes.
        same_step (or_else findex (codec.deserialize_set bytes)) _ _ s log (λ uids.
          same_step (on_store (indexes_db.fetch index t uids) s).0 _ _
            (on_store (indexes_db.fetch index t uids) s).1 log
            (λ found.
              logged_step (save_log outside log_type uids found log_now log).0
                (or_else findex (codec.serialize_table found))
                (on_store (indexes_db.fetch index t uids) s).1
                (save_log outside log_type uids found log_now log).1
                (save_log-LogPost outside log_type uids found log_now log))))

  -- With the log of requests, `fetch_entries` and `fetch_chains` leave the server as they leave it
  -- without, and what they answer, an error too, is what they answer without, or one of the four
  -- errors of the log.
  pub fetch-Transparent :
      (path : Option Bytes) (body : Bytes) (s : Server M I) (log : Log)
      → Transparent
          (fetch_entries metadata_db indexes_db crypto codec outside now log_now path body (s, log))
          (Main.fetch_entries metadata_db indexes_db crypto codec now path body s)
        × Transparent
            (fetch_chains metadata_db indexes_db crypto codec outside now log_now path body
              (s, log))
            (Main.fetch_chains metadata_db indexes_db crypto codec now path body s)
  unfolding fetch_entries fetch_chains Main.fetch_entries Main.fetch_chains on_server ◌>>=◌
  fetch-Transparent path body s log =
      let request = from_request metadata_db path s in
      (
        same_step request.0 _ _ request.1 log (λ index.
            answer_fetch-Transparent Table.entries fetch_entries_type index index.fetch_entries_key
              body request.1 log),
        same_step request.0 _ _ request.1 log (λ index.
            answer_fetch-Transparent Table.chains fetch_chains_type index index.fetch_chains_key
              body request.1 log),
      )
