-- ===== src/DebugLogs.antt =====
-- src/debug_logs.rs: the log of requests, under the feature log_requests.
pub mod Times
pub mod Handlers
pub mod Transparency
use findex_cloud.Base.{
  ℕ, ◌+◌, ◌-◌, ◌*◌, ◌%◌, ◌^◌, Bytes, bytes_eq, Option, none, some, List, [], ◌∷◌, ◌++◌, map, Bool,
  true, false, join,
}
use findex_cloud.Base.HashMap.{get}
use findex_cloud.Errors.{
  bad_request, cannot_parse_fake_time, before_unix_epoch, cannot_open_log, cannot_convert_to_json,
  cannot_write_log, Result, ok, err, panicked, Outcome, done, failed,
}
use findex_cloud.Exec.{Exec, pure, raise, lift, ◌>>=◌, ◌>>◌}
use findex_cloud.Core.{Uid, Uids, EncryptedTable}

-- `i128` and `u128` by their bit patterns.
abbrev pub mod_128 : ℕ
mod_128 = 2 ^ 128

unfoldable pub add_128 : ℕ → ℕ → ℕ
add_128 x y = (x + y) % mod_128

unfoldable pub sub_128 : ℕ → ℕ → ℕ
sub_128 x y = (x % mod_128 + (mod_128 - y % mod_128)) % mod_128

-- The lock `TimeDiffInMilliseconds` and the lines of the file, none if there is no file.
pub record Log : Type 0 where
  pub poisoned : Bool
  pub time_diff : ℕ
  pub lines : Option (List Bytes)

abbrev pub lines_of : Option (List Bytes) → List Bytes
lines_of none = []
lines_of (some lines) = lines

-- What the program asks of the file system, the clock and the encoders. `json_line` gives nothing
-- where `json!` panics, for a date that is no number of JSON.
pub record Outside : Type 0 where
  pub parse_u128 : Bytes → Option ℕ
  pub encode : Bytes → Bytes
  pub json_line : ℕ → Bytes → List (Bytes × Option Bytes) → Option (Outcome Bytes)
  pub can_open : Bool
  pub can_write : Bool

abbrev pub unwrap : Bool → Result (Unit {0})
unwrap true = panicked
unwrap false = ok tt

-- `time_diff_mutex.write().unwrap()`
unfoldable pub locked : Exec Log (Unit {0})
locked log = (unwrap log.poisoned, log)

abbrev pub in_milliseconds : Option ℕ → Result ℕ
in_milliseconds none = err (bad_request before_unix_epoch)
in_milliseconds (some now) = ok now

module _ (outside : Outside) where
  unfoldable pub parsed : Bytes → Option ℕ → Result ℕ
  parsed fake_time none = err (bad_request (cannot_parse_fake_time fake_time))
  parsed fake_time (some milliseconds) = ok milliseconds

  unfoldable pub set_difference : ℕ → Exec Log (Unit {0})
  set_difference difference log = (ok tt, record log { time_diff = difference })

  unfoldable pub set_time_diff : Bytes → Option ℕ → Exec Log (Unit {0})
  set_time_diff fake_time now = do
    fake ← lift (parsed fake_time (outside.parse_u128 fake_time))
    current_time ← lift (in_milliseconds now)
    locked
    set_difference (sub_128 current_time fake)

  unfoldable pub opened : Bool → Exec Log (Unit {0})
  opened false log = (err (bad_request cannot_open_log), log)
  opened true log = (ok tt, record log { lines = some (lines_of log.lines) })

  -- For each UID its encoding, and that of its value if there is one.
  unfoldable pub logged : Uids → EncryptedTable → List (Bytes × Option Bytes)
  logged [] uids_and_values = []
  logged (uid ∷ uids) uids_and_values =
      (outside.encode uid, encoded (get uid uids_and_values)) ∷ logged uids uids_and_values
    where
      encoded : Option Bytes → Option Bytes
      encoded none = none
      encoded (some value) = some (outside.encode value)

  unfoldable pub read_difference : Exec Log ℕ
  read_difference log = (ok log.time_diff, log)

  -- A panic of `json!` poisons the lock, whose guard is held.
  abbrev pub json_or : Option (Outcome Bytes) → Exec Log Bytes
  json_or none log = (panicked, record log { poisoned = true })
  json_or (some (failed _)) log = (err (bad_request cannot_convert_to_json), log)
  json_or (some (done line)) log = (ok line, log)

  unfoldable pub write_line : Bool → Bytes → Exec Log (Unit {0})
  write_line false line log = (err (bad_request cannot_write_log), log)
  write_line true line log = (ok tt, record log { lines = some (lines_of log.lines ++ line ∷ []) })

  unfoldable pub save_log : Bytes → Uids → EncryptedTable → Option ℕ → Exec Log (Unit {0})
  save_log log_type uids uids_and_values now = do
    opened outside.can_open
    current_time ← lift (in_milliseconds now)
    locked
    time_diff ← read_difference
    line ←
        json_or (
          outside.json_line (add_128 current_time time_diff) log_type (logged uids uids_and_values))
    write_line outside.can_write line

-- The lines between brackets; an unreadable file counts as empty.
unfoldable pub get_requests_log : Log → Bytes
get_requests_log log = 91 ∷ join (44 ∷ 10 ∷ []) (lines_of log.lines) ++ 93 ∷ []

unfoldable pub post_reset_requests_log : Exec Log (Unit {0})
post_reset_requests_log log = (ok tt, record log { lines = none })
