-- ===== src/Main/Interleaving/Moves.antt =====
-- What one step of the interleaved requests of src/main.rs can change: where a cached index and a
-- row that is about to be cached come from, and how a row goes away.
use findex_cloud.Base.{
  ℕ, Bytes, bytes_eq, Option, none, some, ◌≡◌, ◌≢◌, ◌⊎◌, inl, inr, refl, sym, ap, ap₂, subst, ◌∙◌,
  ◌==◌, arith, Bool-cases,
}
use findex_cloud.Errors.{Result, ok, err, panicked}
use findex_cloud.Exec.{◌>>=◌}
use findex_cloud.Core.{Index, MetadataDatabase}
use findex_cloud.Core.Cache.{Server, on_metadata, cache_get, modify_cache, remember}
use findex_cloud.Core.Cache.Laws.{Rows, IsMetadata, cache_get-insert, cache_get-remove}
use findex_cloud.Main.Interleaving.{
  Phase, idle, missed, looked_up, deleted, update, System, queried, row_deleted, moved, InFlight,
  Evicting, Step, miss, query, fill, delete, evict, create, list, access,
}

update_cases :
    {A : Type 0} (f : ℕ → A) (i j : ℕ) (a b : A) → update f i a j ≡ b → (a ≡ b) ⊎ (f j ≡ b)
update_cases f i j a b h = ground arith

update-other :
    {A : Type 0} (f : ℕ → A) (i j : ℕ) (a b c : A) → f i ≡ c → b ≢ c → f j ≡ b → update f i a j ≡ b
update-other f i j a b c at_i differs at_j = ground arith

update-here :
    (f : ℕ → Phase) (i : ℕ) (j id : Bytes) → j ≡ id → update f i (deleted j) i ≡ deleted id
update-here f i j id same = ground arith

queried-found :
    (id j : Bytes) (r : Result (Option Index)) (o : Option Index)
    → queried id r ≡ looked_up j o
    → (id ≡ j) × (r ≡ ok o)
unfolding queried
queried-found id j (ok found) o h = (cc, cc)
queried-found id j (err x) o h = absurd cc
queried-found id j panicked o h = absurd cc

row_deleted-not_found :
    (id j : Bytes) (r : Result (Unit {0})) (o : Option Index) → row_deleted id r ≢ looked_up j o
unfolding row_deleted
row_deleted-not_found id j (ok x) o h = cc
row_deleted-not_found id j (err x) o h = cc
row_deleted-not_found id j panicked o h = cc

abbrev pub Cached : {M I : Type 0} → Bytes → Index → System M I → Type 0
Cached id index s = cache_get s.server.cache id ≡ some index

abbrev pub Stored : {M I : Type 0} → (M → Rows) → Bytes → Index → System M I → Type 0
Stored rows id index s = rows s.server.metadata id ≡ some index

module _ {M I : Type 0} (db : MetadataDatabase M) (rows : M → Rows) (meta : IsMetadata db rows)
    (CanDelete : Bytes → System M I → Type 0) where
  InFlight-back :
      (s : System M I) (i : ℕ) (server : Server M I) (p : Phase) (id : Bytes) (index : Index)
      → p ≢ looked_up id (some index)
      → InFlight id index (moved s i server p)
      → InFlight id index s
  InFlight-back s i server p id index other (j, h) = elim (update_cases s.phase i j p _ h) [
    | inl same ↦ absurd (other same)
    | inr old ↦ (j, old)
  ]

  -- Only a lookup that has read a row puts it into the cache.
  pub Cached-origin :
      {s t : System M I} (id : Bytes) (index : Index)
      → Step db CanDelete s t
      → Cached id index t
      → Cached id index s ⊎ InFlight id index s
  unfolding on_metadata modify_cache remember ◌>>=◌
  Cached-origin id index (miss i j _ _) h = inl h
  Cached-origin id index (query i j _) h = inl h
  Cached-origin id index (fill i j none _) h = inl h
  Cached-origin {s} id index (fill i j (some found) e) h =
      elim (cache_get-insert j id found index s.server.cache h) [
        | inl (same, same') ↦ inr (i, e ∙ ap₂ (λ a b. looked_up a (some b)) same same')
        | inr old ↦ inl old
      ]
  Cached-origin id index (delete i j _ _) h = inl h
  Cached-origin {s} id index (evict i j _) h = inl (cache_get-remove j id index s.server.cache h).1
  Cached-origin id index (create _) h = inl h
  Cached-origin id index list h = inl h
  Cached-origin id index (access _) h = inl h

  -- Only a query reads a row, and the row is there when the query has been answered.
  pub InFlight-origin :
      {s t : System M I} (id : Bytes) (index : Index)
      → Step db CanDelete s t
      → InFlight id index t
      → InFlight id index s ⊎ Stored rows id index t
  unfolding on_metadata modify_cache remember ◌>>=◌
  InFlight-origin {s} id index (miss i j _ _) h =
      inl (InFlight-back s i s.server (missed j) id index (λ e. cc) h)
  InFlight-origin {s} id index (query i j _) (k, h) = elim (update_cases s.phase i k _ _ h) [
    | inl new ↦
        let (same, read) = queried-found j id _ _ new in
        inr (
          ap (λ f. f id) (meta.get_index-keeps j s.server.metadata)
          ∙ ap (rows s.server.metadata) (sym same)
          ∙ sym (meta.get_index-reads j s.server.metadata (some index) read))
    | inr old ↦ inl (k, old)
  ]
  InFlight-origin {s} id index (fill i j none _) h =
      inl (InFlight-back s i s.server idle id index (λ e. cc) h)
  InFlight-origin {s} id index (fill i j (some found) _) h =
      inl (InFlight-back s i s.server idle id index (λ e. cc) h)
  InFlight-origin {s} id index (delete i j _ _) h =
      inl (InFlight-back s i s.server _ id index (row_deleted-not_found j id _ _) h)
  InFlight-origin {s} id index (evict i j _) h =
      inl (InFlight-back s i s.server idle id index (λ e. cc) h)
  InFlight-origin id index (create _) h = inl h
  InFlight-origin id index list h = inl h
  InFlight-origin id index (access _) h = inl h

  deleted_row :
      (s : System M I) (i : ℕ) (j id : Bytes) (index : Index) (r : Result (Unit {0}))
      → (db.delete_index j s.server.metadata).0 ≡ r
      → Stored rows id index s
      → (rows (db.delete_index j s.server.metadata).1 id ≡ some index)
        ⊎ ((j ≡ id) × (update s.phase i (row_deleted j r) i ≡ deleted id))
  unfolding row_deleted
  deleted_row s i j id index (ok tt) e h =
      let removed = ap (λ f. f id) (meta.delete_index-removes j s.server.metadata e) in
      elim (Bool-cases (j == id)) [
        | inl same ↦ inr (
          (bytes_eq.same_iff j id).0 same,
          update-here s.phase i j id ((bytes_eq.same_iff j id).0 same),
        )
        | inr other ↦ inl (removed ∙ rw other h)
      ]
  deleted_row s i j id index (err x) e h =
      inl (ap (λ f. f id) (meta.delete_index-fails j s.server.metadata (λ e'. cc)) ∙ h)
  deleted_row s i j id index panicked e h =
      inl (ap (λ f. f id) (meta.delete_index-fails j s.server.metadata (λ e'. cc)) ∙ h)

  -- A row stays, unless a deletion of its ID removes it and is now to evict the cached copy.
  pub Stored-next :
      {s t : System M I} (id : Bytes) (index : Index)
      → Step db CanDelete s t
      → Stored rows id index s
      → Stored rows id index t ⊎ (Evicting id t × CanDelete id s)
  unfolding on_metadata modify_cache remember ◌>>=◌
  Stored-next id index (miss _ _ _ _) h = inl h
  Stored-next {s} id index (query i j _) h =
      inl (ap (λ f. f id) (meta.get_index-keeps j s.server.metadata) ∙ h)
  Stored-next id index (fill i j none _) h = inl h
  Stored-next id index (fill i j (some _) _) h = inl h
  Stored-next {s} id index (delete i j _ allowed) h = elim (deleted_row s i j id index _ refl h) [
    | inl kept ↦ inl kept
    | inr (same, gone) ↦ inr ((i, gone), subst (λ x. CanDelete x s) same allowed)
  ]
  Stored-next id index (evict _ _ _) h = inl h
  Stored-next {s} id index (create n) h =
      inl (meta.create_index-keeps n s.server.metadata id index h)
  Stored-next {s} id index list h =
      inl (ap (λ f. f id) (meta.get_indexes-keeps s.server.metadata) ∙ h)
  Stored-next id index (access _) h = inl h

  -- A deletion goes on until the cached copy has been evicted.
  pub Evicting-next :
      {s t : System M I} (id : Bytes) (index : Index)
      → Step db CanDelete s t
      → Cached id index t
      → Evicting id s
      → Evicting id t
  unfolding on_metadata modify_cache remember ◌>>=◌
  Evicting-next {s} id index (miss i j e _) c (k, h) =
      (k, update-other s.phase i k _ _ _ e (λ x. cc) h)
  Evicting-next {s} id index (query i j e) c (k, h) =
      (k, update-other s.phase i k _ _ _ e (λ x. cc) h)
  Evicting-next {s} id index (fill i j none e) c (k, h) =
      (k, update-other s.phase i k _ _ _ e (λ x. cc) h)
  Evicting-next {s} id index (fill i j (some _) e) c (k, h) =
      (k, update-other s.phase i k _ _ _ e (λ x. cc) h)
  Evicting-next {s} id index (delete i j e _) c (k, h) =
      (k, update-other s.phase i k _ _ _ e (λ x. cc) h)
  Evicting-next {s} id index (evict i j e) c (k, h) =
      let other = (cache_get-remove j id index s.server.cache c).0 in
      (k, update-other s.phase i k _ _ _ e (λ x. other cc) h)
  Evicting-next id index (create _) c h = h
  Evicting-next id index list c h = h
  Evicting-next id index (access _) c h = h
