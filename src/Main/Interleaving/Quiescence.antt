-- ===== src/Main/Interleaving/Quiescence.antt =====
-- When the metadata cache of src/core.rs agrees with the database, in an interleaving in which no
-- deletion overtakes a lookup.
use findex_cloud.Base.{Bytes, some, ◌≡◌, ◌⊎◌, inl, inr}
use findex_cloud.Core.{Index, MetadataDatabase}
use findex_cloud.Core.Cache.Laws.{Rows, IsMetadata, IsCoherent}
use findex_cloud.Main.Interleaving.{System, InFlight, Evicting, Step, Reach, start, later}
use findex_cloud.Main.Interleaving.Moves.{
  Cached, Stored, Cached-origin, InFlight-origin, Stored-next, Evicting-next,
}
use findex_cloud.Main.Interleaving.Origin.{AllIdle, idle-not_found}

-- No lookup has read the row of the ID without having cached it.
abbrev pub Unread : {M I : Type 0} → Bytes → System M I → Type 0
Unread id s = (index : Index) → ¬ InFlight id index s

module _ {M I : Type 0} (db : MetadataDatabase M) (rows : M → Rows)
    (meta : IsMetadata db rows) where
  -- An index is the row of its ID, or about to be evicted.
  abbrev pub IsCurrent : Bytes → Index → System M I → Type 0
  IsCurrent id index s = (rows s.server.metadata id ≡ some index) ⊎ Evicting id s

  -- A cached index is the row of its ID, or about to be evicted.
  abbrev Agrees : System M I → Type 0
  Agrees s =
      ((id : Bytes) (index : Index) → Cached id index s → IsCurrent id index s)
      × ((id : Bytes) (index : Index)
          → InFlight id index s
          → rows s.server.metadata id ≡ some index)

  row_next :
      {s t : System M I} (id : Bytes) (index : Index)
      → Step db Unread s t
      → Stored rows id index s
      → Stored rows id index t ⊎ Evicting id t
  row_next id index step row = elim (Stored-next db rows meta Unread id index step row) [
    | inl kept ↦ inl kept
    | inr (evicting, _) ↦ inr evicting
  ]

  Step-Agrees : {s t : System M I} → Step db Unread s t → Agrees s → Agrees t
  Step-Agrees {s} {t} step (cached, in_flight) = (cached', in_flight')
    where
      cached' :
          (id : Bytes) (index : Index) → Cached id index t → Stored rows id index t ⊎ Evicting id t
      cached' id index h = elim (Cached-origin db rows meta Unread id index step h) [
        | inl old ↦ elim (cached id index old) [
          | inl row ↦ row_next id index step row
          | inr evicting ↦ inr (Evicting-next db rows meta Unread id index step h evicting)
        ]
        | inr filled ↦ row_next id index step (in_flight id index filled)
      ]

      in_flight' : (id : Bytes) (index : Index) → InFlight id index t → Stored rows id index t
      in_flight' id index h = elim (InFlight-origin db rows meta Unread id index step h) [
        | inl old ↦ elim (Stored-next db rows meta Unread id index step (in_flight id index old)) [
          | inl kept ↦ kept
          | inr (_, allowed) ↦ absurd (allowed index old)
        ]
        | inr row ↦ row
      ]

  Reach-Agrees :
      {s t : System M I} → AllIdle s → IsCoherent rows s.server → Reach db Unread s t → Agrees t
  Reach-Agrees {s} quiet h start = (
    λ id index cached. inl (h id index cached),
    λ id index (i, found). absurd (idle-not_found (s.phase i) id index (quiet i) found),
  )
  Reach-Agrees quiet h (later run step) = Step-Agrees step (Reach-Agrees quiet h run)

  -- With a metadata database in which a creation changes no row that is there, as in SQLite and not
  -- in DynamoDB: in any interleaving of requests, begun in a server without requests whose cache is
  -- coherent, in which no deletion of an ID starts while a lookup has read the row of this ID and
  -- not yet cached it, an index that the cache holds is the row of its ID, or a deletion of the ID
  -- is still to evict it.
  pub Cached-IsCurrent :
      (s t : System M I) (id : Bytes) (index : Index)
      → AllIdle s
      → IsCoherent rows s.server
      → Reach db Unread s t
      → Cached id index t
      → IsCurrent id index t
  Cached-IsCurrent s t id index quiet h run cached = (Reach-Agrees quiet h run).0 id index cached
