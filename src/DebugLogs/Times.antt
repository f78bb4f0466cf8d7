-- ===== src/DebugLogs/Times.antt =====
-- The dates of the log after `set_time_diff` of src/debug_logs.rs.
use findex_cloud.Base.{
  ℕ, ◌+◌, ◌-◌, ◌^◌, ◌<◌, ◌≤◌, Bytes, some, [], ◌∷◌, true, false, ◌≡◌, ◌↔◌, ◌++◌, refl, arith,
}
use findex_cloud.Errors.{done, ok}
use findex_cloud.Exec.{◌>>=◌}
use findex_cloud.Core.{Uids, EncryptedTable}
use findex_cloud.DebugLogs.{
  add_128, sub_128, Log, Outside, locked, parsed, set_difference, set_time_diff, opened,
  read_difference, write_line, save_log, logged, lines_of,
}

-- The date that a log made at `later` has after `set_time_diff` at `now`.
abbrev pub dated : ℕ → ℕ → ℕ → ℕ
dated now fake later = add_128 later (sub_128 now fake)

add_128-sub_128 :
    (now fake later : ℕ)
    → now < 2 ^ 126
    → fake < 2 ^ 126
    → now ≤ later
    → later < 2 ^ 126
    → (dated now fake later ≡ fake + (later - now)) ↔ (now ≡ fake)
unfolding add_128 sub_128
add_128-sub_128 now fake later a c d e = ((λ h. omega arith), λ h. omega arith)

module _ (outside : Outside) (text log_type line : Bytes) (now fake later : ℕ) (uids : Uids)
    (table : EncryptedTable) (log : Log) where
  -- What the log is after a request at `later`.
  abbrev pub logged_late : Log
  logged_late = record log {
    time_diff = sub_128 now fake;
    lines = some (lines_of log.lines ++ line ∷ []);
  }

  save_log-set_time_diff :
      outside.parse_u128 text ≡ some fake
      → log.poisoned ≡ false
      → outside.can_open ≡ true
      → outside.can_write ≡ true
      → outside.json_line (dated now fake later) log_type (logged outside uids table)
        ≡ some (done line)
      → (set_time_diff outside text (some now) >>= λ _.
            save_log outside log_type uids table (some later))
          log
        ≡ (ok tt, logged_late)
  unfolding set_time_diff save_log locked parsed set_difference opened read_difference write_line
      ◌>>=◌ add_128 logged sub_128
  save_log-set_time_diff read sound opens writes json = rw (read, sound, opens, writes, json) refl

  -- Where the fake time can be parsed, the lock is not poisoned, the file can be opened and
  -- written, and the line can be made: after `set_time_diff` at `now`, a request logged at `later`
  -- adds a line with the date `later + (now - fake)` on 128-bit words, which for times below 2^126
  -- is the fake time plus the time passed since only if the fake time is `now`.
  pub save_log-date :
      outside.parse_u128 text ≡ some fake
      → log.poisoned ≡ false
      → outside.can_open ≡ true
      → outside.can_write ≡ true
      → outside.json_line (dated now fake later) log_type (logged outside uids table)
        ≡ some (done line)
      → now < 2 ^ 126
      → fake < 2 ^ 126
      → now ≤ later
      → later < 2 ^ 126
      → ((set_time_diff outside text (some now) >>= λ _.
              save_log outside log_type uids table (some later))
            log
          ≡ (ok tt, logged_late))
        × ((dated now fake later ≡ fake + (later - now)) ↔ (now ≡ fake))
  save_log-date read sound opens writes json a b c d =
      (save_log-set_time_diff read sound opens writes json, add_128-sub_128 now fake later a b c d)
