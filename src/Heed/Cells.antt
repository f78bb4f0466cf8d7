-- ===== src/Heed/Cells.antt =====
-- What a client sees of the methods of src/heed.rs: cells, reads, other indexes and the size.
use findex_cloud.Base.{
  ℕ, ◌+◌, ◌%◌, Bytes, bytes_eq, none, [], length, ◌≡◌, ◌≢◌, refl, sym, subst, if◌then◌else◌,
}
use findex_cloud.Base.HashMap.{get, DistinctKeys}
use findex_cloud.Words.{word_mod}
use findex_cloud.Errors.{Result, ok, err, panicked}
use findex_cloud.Core.{Index, Table, Uid, Uids, EncryptedTable, UpsertData}
use findex_cloud.Spec
use findex_cloud.Spec.{Content, size_of}
use findex_cloud.Spec.Laws.{
  find, DistinctUids, HasUidLength, cell_after, rejected_after, or_get, upsert-cell,
}
use findex_cloud.Spec.Keys.{tagged_parts}
use findex_cloud.Spec.Chains.{HasKeyLength, insert_chains-cell}
use findex_cloud.Spec.Guarantees.{contains, get-fetch, upsert-other, new_length, size_of-upsert}
use findex_cloud.Heed.{upsert_entries, insert_chains, fetch}
use findex_cloud.Heed.Keys.{key, size_key, layout, layout-IsInjective}
use findex_cloud.Heed.Txn.{Lmdb, IsLmdb}
use findex_cloud.Heed.Atomic.{
  AllOrNothing, upsert_entries-atomic, insert_chains-atomic, fetch-atomic,
}

module _ (db : Lmdb) (lmdb : IsLmdb db) where
  open lmdb use {content}

  -- A run that returns has `P` of the value and the content it leaves; one that fails leaves the
  -- content as it was; none panics.
  abbrev pub OrUnchanged :
      {A : Type 0} → Content → (A → Content → Type 0) → Result A × db.Env → Type 0
  OrUnchanged before P (ok a, e) = P a (content e)
  OrUnchanged before P (err _, e) = content e ≡ before
  OrUnchanged before P (panicked, e) = ⊥

  conclude :
      {A : Type 0} (P : A → Content → Type 0) (value : A) (after before : Content)
      → P value after
      → (p : Result A × db.Env) → AllOrNothing db lmdb value after before p
      → OrUnchanged before P p
  conclude P value after before holds (ok a, e) (same, wrote) =
      subst (λ f. P a f) (sym wrote) (subst (λ v. P v after) (sym same) holds)
  conclude P value after before holds (err _, e) unchanged = unchanged
  conclude P value after before holds (panicked, e) impossible = impossible

  -- The cell and the report of `x` are what compare and swap leaves.
  abbrev pub Swapped : Index → Uid → UpsertData → Content → EncryptedTable → Content → Type 0
  Swapped index x items before rejected after =
      let k = key index.id Table.entries x in
      (after k ≡ cell_after (before k) (find x items))
      × (get x rejected ≡ rejected_after (before k) (find x items))

  -- The size has grown by the lengths of the new entries.
  abbrev pub Grown : Index → UpsertData → Content → EncryptedTable → Content → Type 0
  Grown index items before rejected after =
      size_of layout index.id after % word_mod
      ≡ (size_of layout index.id before + new_length layout index.id before items) % word_mod

  -- The chain of `x` is the one given, or the old one if none is given.
  abbrev pub Stored : Index → Uid → EncryptedTable → Content → Unit {0} → Content → Type 0
  Stored index x items before _ after =
      let k = key index.id Table.chains x in after k ≡ or_get (get x items) (before k)

  -- The value of `x` is returned if it is asked for and there is one.
  abbrev pub Found : Index → Table → Uids → Uid → Content → EncryptedTable → Content → Type 0
  Found index table uids x before found after =
      (get x found ≡ (if contains x uids then before (key index.id table x) else none))
      × (after ≡ before)

  -- A cell of the index `j` and its size are as they were.
  abbrev pub Untouched : Bytes → Table → Uid → Content → EncryptedTable → Content → Type 0
  Untouched j t y before rejected after =
      (after (key j t y) ≡ before (key j t y)) × (after (size_key j) ≡ before (size_key j))

  module _ (index : Index) (n : ℕ) (e : db.Env) where
    -- For items of distinct UIDs of one length, `upsert_entries` on LMDB, if it returns, has in the
    -- cell of every UID of that length the new value if the old one agreed with the cell, else what
    -- was there, and reports exactly the values that were there and did not agree; if it fails it
    -- changes nothing.
    pub upsert_entries-cell :
        (items : UpsertData) (x : Uid)
        → HasUidLength n items
        → DistinctUids items
        → length x ≡ n
        → OrUnchanged
            (content e)
            (Swapped index x items (content e))
            (upsert_entries db index items e)
    upsert_entries-cell items x hs ds hx =
        let (after, rejected) = Spec.upsert layout index.id (content e, []) items in
        conclude (Swapped index x items (content e)) rejected after (content e)
          (upsert-cell layout layout-IsInjective index.id n items (content e) [] x hs ds hx
            (unfold get in refl))
          _ (upsert_entries-atomic db lmdb index items e)

    -- For items of distinct UIDs of one length, a successful `upsert_entries` on LMDB grows the
    -- size of the index, modulo 2^64, by the lengths of the values that made a new entry, and a
    -- failed one changes nothing.
    pub upsert_entries-size :
        (items : UpsertData)
        → HasUidLength n items
        → DistinctUids items
        → OrUnchanged (content e) (Grown index items (content e)) (upsert_entries db index items e)
    upsert_entries-size items hs ds =
        let (after, rejected) = Spec.upsert layout index.id (content e, []) items in
        conclude (Grown index items (content e)) rejected after (content e)
          (size_of-upsert layout index.id layout-IsInjective n items (content e) [] hs ds) _
          (upsert_entries-atomic db lmdb index items e)

    -- After a successful `insert_chains` on LMDB of distinct UIDs of one length, the chain of each
    -- UID of that length is the one given, or the old one if none was given; a failed one changes
    -- nothing.
    pub insert_chains-get :
        (items : EncryptedTable) (x : Uid)
        → HasKeyLength n items
        → DistinctKeys items
        → length x ≡ n
        → OrUnchanged
            (content e)
            (Stored index x items (content e))
            (insert_chains db index items e)
    insert_chains-get items x hs ds hx =
        conclude (Stored index x items (content e)) tt
          (Spec.insert_chains layout index.id (content e) items) (content e)
          (insert_chains-cell layout layout-IsInjective index.id n items (content e) x hs ds hx) _
          (insert_chains-atomic db lmdb index items e)

  module _ (index : Index) (e : db.Env) where
    -- A `fetch` on LMDB that returns has, for every UID, the value that stands in its cell if the
    -- UID is asked for, and none otherwise; no fetch changes the content.
    pub fetch-get :
        (table : Table) (uids : Uids) (x : Uid)
        → OrUnchanged
            (content e)
            (Found index table uids x (content e))
            (fetch db index table uids e)
    fetch-get table uids x =
        conclude (Found index table uids x (content e))
          (Spec.fetch layout index.id (content e) table uids []) (content e) (content e)
          (get-fetch layout index.id (content e) table uids x, refl) _
          (fetch-atomic db lmdb index table uids e)

    other_key :
        (j : Bytes) (t : Table) (x y : Uid)
        → length index.id ≡ length j
        → index.id ≢ j
        → key index.id Table.entries x ≢ key j t y
    unfolding key
    other_key j t x y same other eq = other (tagged_parts index.id j _ _ x y same eq).0

    -- `upsert_entries` on LMDB leaves the values and the size of every other index whose ID has the
    -- same length as they were.
    pub upsert_entries-other_index :
        (items : UpsertData) (j : Bytes) (t : Table) (y : Uid)
        → length index.id ≡ length j
        → index.id ≢ j
        → OrUnchanged (content e) (Untouched j t y (content e)) (upsert_entries db index items e)
    upsert_entries-other_index items j t y same other =
        let (after, rejected) = Spec.upsert layout index.id (content e, []) items in
        conclude (Untouched j t y (content e)) rejected after (content e)
          (
            upsert-other layout index.id (key j t y) (λ x. other_key j t x y same other)
                (λ eq. layout-IsInjective.key-ne-size_key j index.id t y (sym same) (sym eq)) items
                (content e) [],
            upsert-other layout index.id (size_key j)
                (λ x. layout-IsInjective.key-ne-size_key index.id j Table.entries x same)
                (λ eq. other (layout-IsInjective.size_key_injective index.id j eq)) items
                (content e) [],
          )
          _ (upsert_entries-atomic db lmdb index items e)
