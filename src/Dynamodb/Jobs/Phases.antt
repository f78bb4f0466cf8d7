-- ===== src/Dynamodb/Jobs/Phases.antt =====
-- Where a job of src/dynamodb.rs can come from, by the phase that it is in.
use findex_cloud.Base.{ℕ, Bytes, Option, none, some, ◌≡◌, ◌≢◌, ◌⊎◌, refl, arith}
use findex_cloud.Errors.{Result, ok, err, panicked}
use findex_cloud.Core.{UpsertItem}
use findex_cloud.Dynamodb.Client.{Conditional, written, check_failed, failed}
use findex_cloud.Dynamodb.Jobs.{
  Phase, waiting, checking, reported, after_condition, after_read, update,
}

pub update_cases :
    (f : ℕ → Phase) (i j : ℕ) (p q : Phase) → update f i p j ≡ q → ((i ≡ j) × (p ≡ q)) ⊎ (f j ≡ q)
update_cases f i j p q h = ground arith

pub waiting-not_reported :
    (item item' : UpsertItem) (o : Option Bytes) → waiting item ≢ reported item' o
waiting-not_reported item item' o h = cc

pub waiting-not_checking : (item item' : UpsertItem) → waiting item ≢ checking item'
waiting-not_checking item item' h = cc

module _ (item item' : UpsertItem) where
  pub condition-reported :
      (c : Conditional) (o : Option Bytes)
      → after_condition item c ≡ reported item' o
      → (c ≡ written) × (item ≡ item') × (o ≡ none)
  unfolding after_condition
  condition-reported written o h = (refl, cc, cc)
  condition-reported check_failed o h = absurd cc
  condition-reported (failed text) o h = absurd cc

  pub condition-checking :
      (c : Conditional)
      → after_condition item c ≡ checking item'
      → (c ≡ check_failed) × (item ≡ item')
  unfolding after_condition
  condition-checking written h = absurd cc
  condition-checking check_failed h = (refl, cc)
  condition-checking (failed text) h = absurd cc

  pub read-reported :
      (r : Result Bytes) (o : Option Bytes)
      → after_read item r ≡ reported item' o
      → (v : Bytes) × (r ≡ ok v) × (item ≡ item') × (o ≡ some v)
  unfolding after_read
  read-reported (ok v) o h = (v, refl, cc, cc)
  read-reported (err x) o h = absurd cc
  read-reported panicked o h = absurd cc

  pub read-not_checking : (r : Result Bytes) → after_read item r ≢ checking item'
  unfolding after_read
  read-not_checking (ok v) h = cc
  read-not_checking (err x) h = cc
  read-not_checking panicked h = cc
