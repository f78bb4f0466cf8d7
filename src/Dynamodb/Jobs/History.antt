-- ===== src/Dynamodb/Jobs/History.antt =====
-- What a client of src/dynamodb.rs is told of an entry, against the steps of the run.
use findex_cloud.Base.{ℕ, Bytes, Option, none, some, ◌++◌, ◌≡◌, inl, inr, sym, subst, ◌∙◌}
use findex_cloud.Errors.{Result, ok}
use findex_cloud.Core.{Index, UpsertItem}
use findex_cloud.Dynamodb
use findex_cloud.Dynamodb.Client.{Dynamo, IsDynamo, Conditional, written, check_failed}
use findex_cloud.Dynamodb.Upserts.Entry.{
  WritePost, FetchPost, conditional_write-post, fetch_value-reads,
}
use findex_cloud.Dynamodb.Jobs.{
  waiting, checking, reported, after_condition, after_read, update, System, written_by, read_by,
  Step, write, read, elsewhere, Reach, start, later,
}
use findex_cloud.Dynamodb.Jobs.Phases.{
  update_cases, waiting-not_reported, waiting-not_checking, condition-reported, condition-checking,
  read-reported, read-not_checking,
}
use findex_cloud.Dynamodb.Jobs.Moments.{
  Accepted, accepted_now, accepted_before, Differed, differed_now, differed_before, HasRead,
  read_now, read_before,
}

module _ (db : Dynamo) (dynamo : IsDynamo db) (names : Dynamodb.Names) (n : ℕ) (index : Index)
    (s0 : System db) where
  open dynamo use {values}

  abbrev pub Runs : System db → System db → Type 0
  Runs = Reach db names n index

  -- What is true of a report.
  abbrev pub Justified : ℕ → UpsertItem → Option Bytes → (s : System db) → Runs s0 s → Type 0
  Justified i item none s run = Accepted db dynamo names n index s0 i item s run
  Justified i item (some v) s run =
      HasRead db dynamo names n index s0 i item v s run
      × Differed db dynamo names n index s0 i item s run

  abbrev AllJustified : (s : System db) → Runs s0 s → Type 0
  AllJustified s run =
      ((i : ℕ) (item : UpsertItem) (o : Option Bytes)
        → s.phase i ≡ reported item o
        → Justified i item o s run)
      × ((i : ℕ) (item : UpsertItem)
          → s.phase i ≡ checking item
          → Differed db dynamo names n index s0 i item s run)

  Justified-later :
      (s u : System db) (run : Runs s0 s) (step : Step db names n index s u) (i : ℕ)
      (item : UpsertItem) (o : Option Bytes)
      → Justified i item o s run
      → Justified i item o u (later run step)
  Justified-later s u run step i item none accepted = accepted_before s u run step accepted
  Justified-later s u run step i item (some v) (held, differed) =
      (read_before s u run step held, differed_before s u run step differed)

  module _ (s : System db) (run : Runs s0 s) (i : ℕ) (item : UpsertItem) where
    abbrev call : Conditional × db.Db
    call = written_by db names n index item s

    abbrev answer : Result Bytes × db.Db
    answer = read_by db names n index item s

    module _ (at : s.phase i ≡ waiting item) where
      abbrev after_write : System db
      after_write = record {
        tables = call.1;
        phase = update s.phase i (after_condition item call.0);
      }

      abbrev wrote : Runs s0 after_write
      wrote = later run (write i item at)

      write-post :
          (c : Conditional)
          → call.0 ≡ c
          → WritePost db dynamo names n index s.tables item (c, call.1)
      write-post c e =
          subst (λ c'. WritePost db dynamo names n index s.tables item (c', call.1)) e
            (conditional_write-post db dynamo names n index item s.tables)

      write-AllJustified : AllJustified s run → AllJustified after_write wrote
      write-AllJustified (justified, differed) = (
        λ j item' o h. elim (update_cases s.phase i j _ _ h) [
          | inr old ↦ Justified-later s _ run (write i item at) j item' o (justified j item' o old)
          | inl (here, new) ↦
              let (written_here, same, nothing) = condition-reported item item' call.0 o new in
              let (found, put) = write-post written written_here in
              subst (λ o'. Justified j item' o' after_write wrote) (sym nothing)
                (subst (λ k. Justified k item' none after_write wrote) here
                  (subst (λ it. Justified i it none after_write wrote) same
                    (accepted_now s run at found put)))
        ],
        λ j item' h. elim (update_cases s.phase i j _ _ h) [
          | inr old ↦ differed_before s _ run (write i item at) (differed j item' old)
          | inl (here, new) ↦
              let (refused, same) = condition-checking item item' call.0 new in
              let (found, kept, _) = write-post check_failed refused in
              subst (λ k. Differed db dynamo names n index s0 k item' after_write wrote) here
                (subst (λ it. Differed db dynamo names n index s0 i it after_write wrote) same
                  (differed_now s run at found kept))
        ],
      )

    module _ (at : s.phase i ≡ checking item) where
      abbrev after_answer : System db
      after_answer = record {
        tables = answer.1;
        phase = update s.phase i (after_read item answer.0);
      }

      abbrev checked : Runs s0 after_answer
      checked = later run (read i item at)

      read-HasRead :
          (v : Bytes)
          → answer.0 ≡ ok v
          → HasRead db dynamo names n index s0 i item v after_answer checked
      read-HasRead v e =
          read_now s run at
            (subst (λ r. FetchPost db dynamo names n s.tables (index.id ++ item.uid) (r, answer.1))
              e (fetch_value-reads db dynamo names n index item.uid s.tables)).0

      read-AllJustified : AllJustified s run → AllJustified after_answer checked
      read-AllJustified (justified, differed) = (
        λ j item' o h. elim (update_cases s.phase i j _ _ h) [
          | inr old ↦ Justified-later s _ run (read i item at) j item' o (justified j item' o old)
          | inl (here, new) ↦
              let (v, got, same, told) = read-reported item item' answer.0 o new in
              subst (λ o'. Justified j item' o' after_answer checked) (sym told)
                (subst (λ k. Justified k item' (some v) after_answer checked) here
                  (subst (λ it. Justified i it (some v) after_answer checked) same
                    (
                      read-HasRead v got,
                      differed_before s _ run (read i item at) (differed i item at),
                    )))
        ],
        λ j item' h. elim (update_cases s.phase i j _ _ h) [
          | inr old ↦ differed_before s _ run (read i item at) (differed j item' old)
          | inl (_, new) ↦ absurd (read-not_checking item item' answer.0 new)
        ],
      )

  Step-AllJustified :
      (s u : System db) (run : Runs s0 s) (step : Step db names n index s u)
      → AllJustified s run
      → AllJustified u (later run step)
  Step-AllJustified s u run (write i item at) known = write-AllJustified s run i item at known
  Step-AllJustified s u run (read i item at) known = read-AllJustified s run i item at known
  Step-AllJustified s u run (elsewhere tables) (justified, differed) = (
    λ i item o h. Justified-later s _ run (elsewhere tables) i item o (justified i item o h),
    λ i item h. differed_before s _ run (elsewhere tables) (differed i item h),
  )

  -- All jobs are still to write.
  abbrev pub AllWaiting : Type 0
  AllWaiting = (i : ℕ) → (item : UpsertItem) × (s0.phase i ≡ waiting item)

  Reach-AllJustified : (s : System db) (run : Runs s0 s) → AllWaiting → AllJustified s run
  Reach-AllJustified s start waits = (
    λ i item o h. absurd (waiting-not_reported (waits i).0 item o ((sym (waits i).1) ∙ h)),
    λ i item h. absurd (waiting-not_checking (waits i).0 item ((sym (waits i).1) ∙ h)),
  )
  Reach-AllJustified s (later {t} run step) waits =
      Step-AllJustified t s run step (Reach-AllJustified t run waits)

  -- In any interleaving of the jobs of `upsert_entries` on DynamoDB with each other and with what
  -- other clients do: a job that is told of an acceptance has, in a step of this run, found the old
  -- value in its entry and made it the new one; one that is told a value has, in a step of this
  -- run, found another value than the old one and changed none, and has in a step of this run read
  -- the value told, which its entry held then or before.
  pub reported-Justified :
      (s : System db) (run : Runs s0 s) (i : ℕ) (item : UpsertItem) (o : Option Bytes)
      → AllWaiting
      → s.phase i ≡ reported item o
      → Justified i item o s run
  reported-Justified s run i item o waits told = (Reach-AllJustified s run waits).0 i item o told
