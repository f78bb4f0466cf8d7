-- ===== src/Tests/OfJobs.antt =====
-- The interleaved jobs of src/dynamodb.rs at a concrete schedule.
use findex_cloud.Base.{ℕ, zero, suc, bytes_eq, some, none, [], ◌∷◌, refl, ℕ_discrete}
use findex_cloud.Core.{UpsertItem}
use findex_cloud.Dynamodb.Jobs
use findex_cloud.Dynamodb.Jobs.{System, waiting, Reach, start, later, write, read, elsewhere}
use findex_cloud.Dynamodb.Jobs.History.{Justified, AllWaiting, reported-Justified}
use findex_cloud.Tests.Tables.{dynamo, dynamo_laws}
use findex_cloud.Tests.OfDynamodb.{program, names, tables}
use findex_cloud.Tests.Samples.{alpha}

jobs_program : Unit {0}
unfolding program Jobs.after_condition Jobs.after_read ℕ_discrete
jobs_program = tt

-- A change of 7 by a client that knows its value, and one by a client that does not.
abbrev change : UpsertItem
change = record { uid = 7 ∷ []; old_value = some (70 ∷ []); new_value = 71 ∷ [] }

abbrev stale : UpsertItem
stale = record { uid = 7 ∷ []; old_value = none; new_value = 72 ∷ [] }

abbrev items : ℕ → UpsertItem
items zero = change
items (suc n) = stale

abbrev jobs : System dynamo
jobs = record { tables = tables; phase = λ i. waiting (items i) }

jobs-AllWaiting : AllWaiting dynamo dynamo_laws names 1 alpha jobs
jobs-AllWaiting i = (items i, refl)

-- Between the refused write of job 1 and its read, job 0 changes the value.
abbrev ran : (t : System dynamo) × Reach dynamo names 1 alpha jobs t
unfolding jobs_program
ran =
    (_, later (later (later start (write 1 stale refl)) (write 0 change refl)) (read 1 stale refl))

reported-Justified_example :
    Justified dynamo dynamo_laws names 1 alpha jobs 1 stale (some (71 ∷ [])) ran.0 ran.1
unfolding jobs_program
reported-Justified_example =
    reported-Justified dynamo dynamo_laws names 1 alpha jobs ran.0 ran.1 1 stale (some (71 ∷ []))
      jobs-AllWaiting refl
