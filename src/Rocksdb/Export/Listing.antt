-- ===== src/Rocksdb/Export/Listing.antt =====
-- The export of src/rocksdb.rs has exactly the cells of the table of the index.
use findex_cloud.Base.{
  Bytes, bytes_eq, some, List, [], ◌∷◌, ◌++◌, map, All, Among, join, ◌≡◌, ◌↔◌, inl, inr, refl, sym,
  subst, ap, ◌∙◌, Bool, true, false, false≢true, if◌then◌else◌,
}
use findex_cloud.Errors.{ok, Outcome, done, failed}
use findex_cloud.Core.{Index, Table, Uid}
use findex_cloud.Rocksdb.Client.{Rocks, IsRocks}
use findex_cloud.Rocksdb.Keys.{prefix, key}
use findex_cloud.Rocksdb.Export.{
  Iterating, filter_ok, starts_with, take_while_prefix, json_pair, exported, fetch_all_as_json,
}
use findex_cloud.Rocksdb.Export.Order.{
  lex, starts_with-false, starts_with-append, lex-append, rest_of,
}

abbrev pub Ascending : List (Bytes × Bytes) → Type 0
Ascending [] = Unit
Ascending ((key, _) ∷ pairs) = All (λ next. lex key next.0 ≡ true) pairs × Ascending pairs

abbrev pub IsDone : Outcome (Bytes × Bytes) → Type 0
IsDone (done _) = Unit
IsDone (failed _) = ⊥

-- What RocksDB documents of an iterator, at one content: from a key on, it yields what is stored,
-- in the order of the keys, and all of it unless it yields an error.
pub record IsIterating (db : Rocks) (laws : IsRocks db) (iterating : Iterating db) (start : Bytes)
    (d : db.Db) : Type 0 where
  pub yields-from :
      All (λ pair. lex start pair.0 ≡ true) (filter_ok (iterating.iterator_from start d).0)
  pub yields-stored :
      All
        (λ pair. laws.content d pair.0 ≡ some pair.1)
        (filter_ok (iterating.iterator_from start d).0)
  pub yields-Ascending : Ascending (filter_ok (iterating.iterator_from start d).0)
  pub yields_all :
      (k v : Bytes)
      → All IsDone (iterating.iterator_from start d).0
      → lex start k ≡ true
      → laws.content d k ≡ some v
      → Among (k, v) (filter_ok (iterating.iterator_from start d).0)
  pub content-iterator_from : laws.content (iterating.iterator_from start d).1 ≡ laws.content d

All-at : {A : Type 0} (P : A → Type 0) (xs : List A) (x : A) → All P xs → Among x xs → P x
All-at P [] x h among = absurd among
All-at P (y ∷ ys) x (here, rest) (inl same) = subst P (sym same) here
All-at P (y ∷ ys) x (here, rest) (inr later) = All-at P ys x rest later

module _ (start k v : Bytes) where
  Among-taken :
      (pairs : List (Bytes × Bytes))
      → Among (k, v) (take_while_prefix start pairs)
      → (starts_with start k ≡ true) × Among (k, v) pairs
  unfolding take_while_prefix
  Among-taken [] h = absurd h
  Among-taken ((k', v') ∷ pairs) h = go (Among-taken pairs) (starts_with start k') refl h
    where
      go :
          (Among (k, v) (take_while_prefix start pairs)
            → (starts_with start k ≡ true) × Among (k, v) pairs)
          → (b : Bool) → starts_with start k' ≡ b
          → Among (k, v) (if b then (k', v') ∷ take_while_prefix start pairs else [])
          → (starts_with start k ≡ true) × Among (k, v) ((k', v') ∷ pairs)
      go later_taken true e (inl same) = (ap (λ p. starts_with start p.0) same ∙ e, inl same)
      go later_taken true e (inr later) =
          let (with_prefix, there) = later_taken later in (with_prefix, inr there)
      go later_taken false e h = absurd h

  -- Behind a key without the prefix there is none that has it.
  none_behind :
      (k' : Bytes) (pairs : List (Bytes × Bytes))
      → lex start k' ≡ true
      → starts_with start k' ≡ false
      → All (λ next. lex k' next.0 ≡ true) pairs
      → Among (k, v) pairs
      → starts_with start k ≡ false
  none_behind k' pairs from without above among =
      starts_with-false start k' k from without
        (All-at (λ next. lex k' next.0 ≡ true) pairs (k, v) above among)

  take_while_prefix-Among :
      (pairs : List (Bytes × Bytes))
      → All (λ pair. lex start pair.0 ≡ true) pairs
      → Ascending pairs
      → starts_with start k ≡ true
      → Among (k, v) pairs
      → Among (k, v) (take_while_prefix start pairs)
  unfolding take_while_prefix
  take_while_prefix-Among [] from sorted with_prefix among = among
  take_while_prefix-Among ((k', v') ∷ pairs) (here, from) (above, sorted) with_prefix among =
      go (take_while_prefix-Among pairs from sorted with_prefix) (starts_with start k') refl among
    where
      go :
          (Among (k, v) pairs → Among (k, v) (take_while_prefix start pairs))
          → (b : Bool) → starts_with start k' ≡ b
          → Among (k, v) ((k', v') ∷ pairs)
          → Among (k, v) (if b then (k', v') ∷ take_while_prefix start pairs else [])
      go rest_taken true e (inl same) = inl same
      go rest_taken true e (inr later) = inr (rest_taken later)
      go rest_taken false e (inl same) =
          absurd (false≢true (sym (sym with_prefix ∙ ap (λ p. starts_with start p.0) same ∙ e)))
      go rest_taken false e (inr later) =
          absurd (false≢true (sym (sym with_prefix ∙ none_behind k' pairs here e above later)))

module _ (encode : Bytes → Bytes) (db : Rocks) (laws : IsRocks db) (iterating : Iterating db)
    (index : Index) (t : Table) (d : db.Db)
    (ordered : IsIterating db laws iterating (prefix index.id t) d) where
  -- The cells of the table of the index.
  abbrev pub IsCell : Bytes → Bytes → Type 0
  IsCell k v = (uid : Uid) × (k ≡ key index.id t uid) × (laws.content d k ≡ some v)

  IsCell-exported :
      (k v : Bytes)
      → All IsDone (iterating.iterator_from (prefix index.id t) d).0
      → IsCell k v
      → Among (k, v) (exported encode db iterating index t d)
  unfolding exported key
  IsCell-exported k v complete (uid, same, stored) =
      let start = prefix index.id t in
      let from = subst (λ x. lex start x ≡ true) (sym same) (lex-append start uid) in
      take_while_prefix-Among start k v (filter_ok (iterating.iterator_from start d).0)
        ordered.yields-from ordered.yields-Ascending
        (subst (λ x. starts_with start x ≡ true) (sym same) (starts_with-append start uid))
        (ordered.yields_all k v complete from stored)

  exported-IsCell :
      (k v : Bytes) → Among (k, v) (exported encode db iterating index t d) → IsCell k v
  unfolding exported key
  exported-IsCell k v among =
      let start = prefix index.id t in
      let (with_prefix, there) = Among-taken start k v _ among in
      let stored =
        All-at (λ pair. laws.content d pair.0 ≡ some pair.1) _ (k, v) ordered.yields-stored there in
      let (uid, same) = rest_of start k with_prefix in (uid, same, stored)

  -- Where the iterator of RocksDB yields in order what is stored from a key on, and no error:
  -- `fetch_all_as_json` returns a bracketed list of pairs that are exactly the cells of the table
  -- of the index with their values, and changes nothing.
  pub fetch_all_as_json-lists :
      All IsDone (iterating.iterator_from (prefix index.id t) d).0
      → (pairs : List (Bytes × Bytes)) × ((k v : Bytes) → Among (k, v) pairs ↔ IsCell k v)
        × ((fetch_all_as_json encode db iterating index t d).0
            ≡ ok (91 ∷ join (44 ∷ 10 ∷ []) (map (json_pair encode) pairs) ++ 93 ∷ []))
        × (laws.content (fetch_all_as_json encode db iterating index t d).1 ≡ laws.content d)
  unfolding fetch_all_as_json
  fetch_all_as_json-lists complete = (
    exported encode db iterating index t d,
    λ k v. (exported-IsCell k v, IsCell-exported k v complete),
    refl,
    ordered.content-iterator_from,
  )
