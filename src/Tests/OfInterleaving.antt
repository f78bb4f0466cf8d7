-- ===== src/Tests/OfInterleaving.antt =====
-- The interleaved requests of src/main.rs at concrete schedules.
use findex_cloud.Base.{Bytes, bytes_beq, bytes_eq, some, ◌≡◌, ◌⊎◌, refl, ℕ_discrete}
use findex_cloud.Base.HashMap.{get, insert, remove}
use findex_cloud.Exec.{◌>>=◌}
use findex_cloud.Core.Cache
use findex_cloud.Spec.{Content}
use findex_cloud.Heed
use findex_cloud.Sqlite
use findex_cloud.Sqlite.Table
use findex_cloud.Sqlite.Table.{Db}
use findex_cloud.Sqlite.Contract.{rows_of, database-IsMetadata}
use findex_cloud.Main
use findex_cloud.Main.Interleaving
use findex_cloud.Main.Interleaving.{
  idle, looked_up, System, Evicting, InFlight, Reach, start, later, miss, query, fill, delete,
  evict, Anytime,
}
use findex_cloud.Main.Interleaving.Runs.{Runs, handlers-Reach}
use findex_cloud.Main.Interleaving.Origin.{AllIdle, Seen, Cached-Seen}
use findex_cloud.Main.Interleaving.Quiescence.{Unread, Cached-IsCurrent}
use findex_cloud.Tests.Memory.{lmdb}
use findex_cloud.Tests.Samples.{alpha, beta, server, server-IsCoherent}

program : Unit {0}
unfolding bytes_beq ◌>>=◌ get insert remove Cache.on_metadata Cache.cache_get Cache.cache_insert
    Cache.cache_remove Cache.modify_cache Cache.read_cache Cache.remember Cache.after_cache
    Cache.get_index_with_cache Sqlite.get_index Sqlite.delete_index Sqlite.database Table.faulty
    Table.statement Table.acquire Table.where_id Table.select_by_id Table.delete_where_id
    Table.delete_by_id Main.delete_index Interleaving.queried Interleaving.row_deleted ℕ_discrete
program = tt

abbrev quiet : System Db Content
quiet = record { server = server; phase = λ _. idle }

quiet-AllIdle : AllIdle quiet
quiet-AllIdle i = refl

abbrev Ran : (Bytes → System Db Content → Type 0) → Type 0
Ran CanDelete = (t : System Db Content) × Reach Sqlite.database CanDelete quiet t

-- Thread 0 has read the row of beta when thread 1 deletes it; then thread 0 caches it.
abbrev overtaken : Ran Anytime
unfolding program
overtaken = (
  _,
  later
      (later
        (later (later (later start (miss 0 beta.id refl refl)) (query 0 beta.id refl))
          (delete 1 beta.id refl tt))
        (evict 1 beta.id refl))
      (fill 0 beta.id (some beta) refl),
)

Cached-Seen_example :
    Seen Sqlite.database rows_of Anytime quiet beta.id beta overtaken.0 overtaken.1
unfolding program
Cached-Seen_example =
    Cached-Seen Sqlite.database rows_of database-IsMetadata Anytime quiet overtaken.0 overtaken.1
      beta.id beta quiet-AllIdle server-IsCoherent refl

all-Unread : (id : Bytes) → Unread id quiet
all-Unread id index (i, found) = cc

-- Thread 1 has deleted the row of alpha and not yet evicted it, while thread 0 looks beta up.
abbrev evicting : Ran Unread
unfolding program
evicting = (
  _,
  later
      (later
        (later (later start (delete 1 alpha.id refl (all-Unread alpha.id)))
          (miss 0 beta.id refl refl))
        (query 0 beta.id refl))
      (fill 0 beta.id (some beta) refl),
)

Cached-IsCurrent_example :
    (rows_of evicting.0.server.metadata alpha.id ≡ some alpha) ⊎ Evicting alpha.id evicting.0
unfolding program
Cached-IsCurrent_example =
    Cached-IsCurrent Sqlite.database rows_of database-IsMetadata quiet evicting.0 alpha.id alpha
      quiet-AllIdle server-IsCoherent evicting.1 refl

handlers-Reach_example :
    Runs Sqlite.database
      (Heed.database lmdb)
      Anytime
      3
      quiet
      (Cache.get_index_with_cache Sqlite.database beta.id server).1
    × Runs Sqlite.database
        (Heed.database lmdb)
        Anytime
        3
        quiet
        (Main.delete_index Sqlite.database (Heed.database lmdb) beta.id server).1
unfolding program
handlers-Reach_example =
    handlers-Reach Sqlite.database (Heed.database lmdb) Anytime quiet 3 beta.id refl tt
