-- ===== src/Main/Interleaving/Runs.antt =====
-- `get_index_with_cache` of src/core.rs and `delete_index` of src/main.rs, as steps of one thread of
-- the interleaved system.
use findex_cloud.Base.{ℕ, Bytes, Option, none, some, ◌≡◌, ◌≢◌, refl, subst, arith}
use findex_cloud.Errors.{Result, ok, err, panicked}
use findex_cloud.Exec.{continue, ◌>>=◌}
use findex_cloud.Core.{Index, MetadataDatabase, IndexesDatabase}
use findex_cloud.Core.Cache.{
  Server, on_metadata, cache_get, cache_remove, modify_cache, read_cache, remember, after_cache,
  get_index_with_cache,
}
use findex_cloud.Main.{delete_index}
use findex_cloud.Main.Interleaving.{
  Phase, idle, missed, looked_up, deleted, update, System, queried, row_deleted, moved, Step, miss,
  query, fill, delete, evict, create, list, access, Reach, start, later,
}

-- A step that the thread makes.
abbrev pub Moves :
    {M I : Type 0} {db : MetadataDatabase M} {CanDelete : Bytes → System M I → Type 0}
    {s t : System M I}
    → ℕ
    → Step db CanDelete s t
    → Type 0
Moves k (miss i _ _ _) = i ≡ k
Moves k (query i _ _) = i ≡ k
Moves k (fill i _ _ _) = i ≡ k
Moves k (delete i _ _ _) = i ≡ k
Moves k (evict i _ _) = i ≡ k
Moves k (create _) = ⊥
Moves k list = ⊥
Moves k (access _) = ⊥

-- A run all of whose steps the thread makes.
pub data IsRunOf {M I : Type 0} {db : MetadataDatabase M} {CanDelete : Bytes → System M I → Type 0}
    {s : System M I} (i : ℕ) : (t : System M I) → Reach db CanDelete s t → Type 0 where
  not_moved : IsRunOf i s start
  moves_on :
      (t u : System M I) (run : Reach db CanDelete s t) (step : Step db CanDelete t u)
      → IsRunOf i t run
      → Moves i step
      → IsRunOf i u (later run step)

module _ {M I : Type 0} (db : MetadataDatabase M) (store_db : IndexesDatabase I)
    (CanDelete : Bytes → System M I → Type 0) where
  abbrev RunTo : ℕ → System M I → System M I → Type 0
  RunTo i s t = (run : Reach db CanDelete s t) × IsRunOf i t run

  extended :
      (i : ℕ) (s t u : System M I)
      → RunTo i s t
      → (step : Step db CanDelete t u) → Moves i step
      → RunTo i s u
  extended i s t u (run, alone) step own = (later run step, moves_on t u run step alone own)

  -- A run of the steps of the thread to the given server, where every thread stands where it stood.
  abbrev pub Runs : ℕ → System M I → Server M I → Type 0
  Runs i s server =
      (t : System M I) × RunTo i s t × (t.server ≡ server) × ((k : ℕ) → t.phase k ≡ s.phase k)

  update-at : (f : ℕ → Phase) (i : ℕ) (p : Phase) → update f i p i ≡ p
  update-at f i p = ground arith

  -- One thread has moved on, and the others stand where they stood.
  abbrev Alone : System M I → System M I → ℕ → Phase → Type 0
  Alone s t i p = (t.phase i ≡ p) × ((k : ℕ) → i ≢ k → t.phase k ≡ s.phase k)

  Alone-moved :
      (s t : System M I) (i : ℕ) (server : Server M I) (p q : Phase)
      → Alone s t i p
      → Alone s (moved t i server q) i q
  Alone-moved s t i server p q (at, others) =
      (update-at t.phase i q, λ k other. ground (arith, others k other))

  run_ended :
      (s t : System M I) (i : ℕ)
      → s.phase i ≡ idle
      → RunTo i s t
      → Alone s t i idle
      → Runs i s t.server
  run_ended s t i at_start run (at, others) = (t, run, refl, λ k. ground (arith, others k))

  start-Alone : (s : System M I) (i : ℕ) → s.phase i ≡ idle → Alone s s i idle
  start-Alone s i at = (at, λ k other. refl)

  lookup_missed :
      (s : System M I) (i : ℕ) (id : Bytes)
      → s.phase i ≡ idle
      → cache_get s.server.cache id ≡ none
      → Runs i s (after_cache db id none s.server).1
  unfolding after_cache queried ◌>>=◌
  lookup_missed s i id at_start not_cached = go (on_metadata (db.get_index id) s.server).0 refl
    where
      called : Result (Option Index) × Server M I
      called = on_metadata (db.get_index id) s.server

      asked : System M I
      asked = moved s i s.server (missed id)

      alone : Alone s asked i (missed id)
      alone = Alone-moved s s i s.server idle (missed id) (start-Alone s i at_start)

      answered : Result (Option Index) → System M I
      answered r = moved asked i called.1 (queried id r)

      run : (r : Result (Option Index)) → called.0 ≡ r → RunTo i s (answered r)
      run r e =
          subst (λ q. RunTo i s (answered q)) e
            (extended i s asked _
              (extended i s s asked (start, not_moved) (miss i id at_start not_cached) refl)
              (query i id alone.0) refl)

      back : (r : Result (Option Index)) → Alone s (answered r) i (queried id r)
      back r = Alone-moved s asked i called.1 (missed id) (queried id r) alone

      go :
          (r : Result (Option Index))
          → called.0 ≡ r
          → Runs i s (continue r (remember db id) called.1).1
      go (ok o) e =
          run_ended s (moved (answered (ok o)) i (remember db id o called.1).1 idle) i at_start
            (extended i s (answered (ok o)) _ (run (ok o) e) (fill i id o (back (ok o)).0) refl)
            (Alone-moved s (answered (ok o)) i (remember db id o called.1).1 (looked_up id o) idle
              (back (ok o)))
      go (err x) e = run_ended s (answered (err x)) i at_start (run (err x) e) (back (err x))
      go panicked e = run_ended s (answered panicked) i at_start (run panicked e) (back panicked)

  lookup_run :
      (s : System M I) (i : ℕ) (id : Bytes) (o : Option Index)
      → s.phase i ≡ idle
      → cache_get s.server.cache id ≡ o
      → Runs i s (after_cache db id o s.server).1
  unfolding after_cache
  lookup_run s i id none at not_cached = lookup_missed s i id at not_cached
  lookup_run s i id (some index) at cached =
      run_ended s s i at (start, not_moved) (start-Alone s i at)

  -- The deletion may overtake nothing that `CanDelete` keeps it from overtaking.
  deletion_run :
      (s : System M I) (i : ℕ) (id : Bytes)
      → s.phase i ≡ idle
      → CanDelete id s
      → Runs i s (delete_index db store_db id s.server).1
  unfolding delete_index row_deleted ◌>>=◌
  deletion_run s i id at_start allowed = go (on_metadata (db.delete_index id) s.server).0 refl
    where
      called : Result (Unit {0}) × Server M I
      called = on_metadata (db.delete_index id) s.server

      answered : Result (Unit {0}) → System M I
      answered r = moved s i called.1 (row_deleted id r)

      run : (r : Result (Unit {0})) → called.0 ≡ r → RunTo i s (answered r)
      run r e =
          subst (λ q. RunTo i s (answered q)) e
            (extended i s s _ (start, not_moved) (delete i id at_start allowed) refl)

      back : (r : Result (Unit {0})) → Alone s (answered r) i (row_deleted id r)
      back r = Alone-moved s s i called.1 idle (row_deleted id r) (start-Alone s i at_start)

      go :
          (r : Result (Unit {0}))
          → called.0 ≡ r
          → Runs i s (continue r (λ _. modify_cache (cache_remove id)) called.1).1
      go (ok o) e =
          run_ended s (moved (answered (ok o)) i (modify_cache (cache_remove id) called.1).1 idle) i
            at_start
            (extended i s (answered (ok o)) _ (run (ok o) e) (evict i id (back (ok o)).0) refl)
            (Alone-moved s (answered (ok o)) i (modify_cache (cache_remove id) called.1).1
              (deleted id) idle (back (ok o)))
      go (err x) e = run_ended s (answered (err x)) i at_start (run (err x) e) (back (err x))
      go panicked e = run_ended s (answered panicked) i at_start (run panicked e) (back panicked)

  -- What `get_index_with_cache` and, where the deletion may start, `delete_index` make of a server
  -- is the end of a run of the interleaved system in which every step is one of the given idle
  -- thread, and at the end of which every thread stands where it stood.
  pub handlers-Reach :
      (s : System M I) (i : ℕ) (id : Bytes)
      → s.phase i ≡ idle
      → CanDelete id s
      → Runs i s (get_index_with_cache db id s.server).1
        × Runs i s (delete_index db store_db id s.server).1
  unfolding get_index_with_cache read_cache ◌>>=◌
  handlers-Reach s i id at allowed =
      (lookup_run s i id (cache_get s.server.cache id) at refl, deletion_run s i id at allowed)
