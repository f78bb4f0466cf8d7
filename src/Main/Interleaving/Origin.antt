-- ===== src/Main/Interleaving/Origin.antt =====
-- Where the answers of the metadata cache of src/core.rs come from, in any interleaving.
use findex_cloud.Base.{ℕ, Bytes, ◌≡◌, inl, inr, ◌≢◌, some}
use findex_cloud.Core.{Index, MetadataDatabase}
use findex_cloud.Core.Cache.Laws.{Rows, IsMetadata, IsCoherent}
use findex_cloud.Main.Interleaving.{
  Phase, idle, looked_up, System, InFlight, Step, Reach, start, later,
}
use findex_cloud.Main.Interleaving.Moves.{Cached, Stored, Cached-origin, InFlight-origin}

abbrev pub AllIdle : {M I : Type 0} → System M I → Type 0
AllIdle s = (i : ℕ) → s.phase i ≡ idle

pub idle-not_found :
    (p : Phase) (id : Bytes) (index : Index) → p ≡ idle → p ≢ looked_up id (some index)
idle-not_found p id index e found = cc

-- The row was there at a moment of this run, its end included.
pub data Seen {M I : Type 0} (db : MetadataDatabase M) (rows : M → Rows)
    (CanDelete : Bytes → System M I → Type 0) (s0 : System M I) (id : Bytes) (index : Index)
    : (s : System M I) → Reach db CanDelete s0 s → Type 0 where
  seen_now :
      (s : System M I) (run : Reach db CanDelete s0 s)
      → Stored rows id index s
      → Seen db rows CanDelete s0 id index s run
  seen_before :
      (s t : System M I) (run : Reach db CanDelete s0 s) (step : Step db CanDelete s t)
      → Seen db rows CanDelete s0 id index s run
      → Seen db rows CanDelete s0 id index t (later run step)

module _ {M I : Type 0} (db : MetadataDatabase M) (rows : M → Rows) (meta : IsMetadata db rows)
    (CanDelete : Bytes → System M I → Type 0) (s0 : System M I) where
  abbrev AllSeen : (s : System M I) → Reach db CanDelete s0 s → Type 0
  AllSeen s run =
      ((id : Bytes) (index : Index) → Cached id index s → Seen db rows CanDelete s0 id index s run)
      × ((id : Bytes) (index : Index)
          → InFlight id index s
          → Seen db rows CanDelete s0 id index s run)

  Step-AllSeen :
      (s t : System M I) (run : Reach db CanDelete s0 s) (step : Step db CanDelete s t)
      → AllSeen s run
      → AllSeen t (later run step)
  Step-AllSeen s t run step (cached, in_flight) = (
    λ id index h. elim (Cached-origin db rows meta CanDelete id index step h) [
      | inl old ↦ seen_before s t run step (cached id index old)
      | inr filled ↦ seen_before s t run step (in_flight id index filled)
    ],
    λ id index h. elim (InFlight-origin db rows meta CanDelete id index step h) [
      | inl old ↦ seen_before s t run step (in_flight id index old)
      | inr row ↦ seen_now t (later run step) row
    ],
  )

  -- Every index that the cache answers with, and every one that is about to be cached, was the row
  -- of its ID.
  Reach-AllSeen :
      (s : System M I) (run : Reach db CanDelete s0 s)
      → AllIdle s0
      → IsCoherent rows s0.server
      → AllSeen s run
  Reach-AllSeen s start quiet h = (
    λ id index cached. seen_now s0 start (h id index cached),
    λ id index (i, found). absurd (idle-not_found (s0.phase i) id index (quiet i) found),
  )
  Reach-AllSeen s (later {t} run step) quiet h =
      Step-AllSeen t s run step (Reach-AllSeen t run quiet h)

  -- With a metadata database in which a creation changes no row that is there, as in SQLite and not
  -- in DynamoDB: in any interleaving of requests, begun in a server without requests whose cache is
  -- coherent, an index that the cache holds was the row of its ID at some moment of this run.
  pub Cached-Seen :
      (s : System M I) (run : Reach db CanDelete s0 s) (id : Bytes) (index : Index)
      → AllIdle s0
      → IsCoherent rows s0.server
      → Cached id index s
      → Seen db rows CanDelete s0 id index s run
  Cached-Seen s run id index quiet h cached = (Reach-AllSeen s run quiet h).0 id index cached
