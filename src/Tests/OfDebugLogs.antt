-- ===== src/Tests/OfDebugLogs.antt =====
-- src/debug_logs.rs at concrete inputs.
use findex_cloud.Base.{
  ℕ, ◌+◌, ◌-◌, bytes_beq, bytes_eq, none, some, [], ◌∷◌, true, false, ◌≡◌, ◌↔◌, refl, arith,
}
use findex_cloud.Base.HashMap.{get}
use findex_cloud.Errors.{ok, done}
use findex_cloud.Exec.{◌>>=◌}
use findex_cloud.DebugLogs.{
  add_128, sub_128, Log, Outside, locked, parsed, set_difference, set_time_diff, opened,
  read_difference, write_line, save_log, logged, get_requests_log,
}
use findex_cloud.DebugLogs.Times.{dated, logged_late, save_log-date}

program : Unit {0}
unfolding get bytes_beq ◌>>=◌ add_128 sub_128 locked parsed set_difference set_time_diff opened
    read_difference write_line save_log logged get_requests_log
program = tt

-- A line that is the date alone.
abbrev pub outside : Outside
outside = record {
  parse_u128 = λ text. elim text [ [] ↦ none | t ∷ rest ↦ some t ];
  encode = λ bytes. bytes;
  json_line = λ date log_type entries. some (done (date ∷ []));
  can_open = true;
  can_write = true;
}

abbrev pub log : Log
log = record { poisoned = false; time_diff = 0; lines = some ((5 ∷ []) ∷ []) }

-- The fake time 40 is set at 100: the request made at 110 is dated 170, not 50.
dates_ahead : dated 100 40 110 ≡ 170
unfolding program
dates_ahead = refl

joined :
    get_requests_log (record log { lines = some ((5 ∷ []) ∷ (6 ∷ []) ∷ []) })
    ≡ 91 ∷ 5 ∷ 44 ∷ 10 ∷ 6 ∷ 93 ∷ []
unfolding program
joined = refl

line_written :
    outside.json_line (dated 100 40 110) (7 ∷ []) (logged outside [] []) ≡ some (done (170 ∷ []))
unfolding program
line_written = refl

save_log-date_example :
    ((set_time_diff outside (40 ∷ []) (some 100) >>= λ _.
    save_log outside (7 ∷ []) [] [] (some 110))
        log
      ≡ (ok tt, logged_late outside (40 ∷ []) (7 ∷ []) (170 ∷ []) 100 40 110 [] [] log))
    × ((dated 100 40 110 ≡ 40 + (110 - 100)) ↔ (◌≡◌ {A = ℕ} 100 40))
save_log-date_example =
    save_log-date outside (40 ∷ []) (7 ∷ []) (170 ∷ []) 100 40 110 [] [] log refl refl refl refl
      line_written (omega arith) (omega arith) (omega arith) (omega arith)
