-- ===== src/Spec/Relaxed.antt =====
-- Conditional writes in a store whose cells other clients may hold locked: an item is compared and
-- swapped, or is reported with the value that stands in its cell.
use findex_cloud.Base.{bytes_eq, Bytes, some, [], ◌∷◌, ◌≡◌, ◌⊎◌}
use findex_cloud.Base.HashMap.{insert}
use findex_cloud.Core.{Table, EncryptedTable, UpsertItem, UpsertData}
use findex_cloud.Spec.{Content, Layout, upsert_one}

module _ (layout : Layout) (id : Bytes) where
  abbrev pub Swapped : Content × EncryptedTable → UpsertItem → Content × EncryptedTable → Type 0
  Swapped st item end = end ≡ upsert_one layout id st item

  abbrev pub Busy : Content × EncryptedTable → UpsertItem → Content × EncryptedTable → Type 0
  Busy (f, r) item end =
      (v : Bytes) × (f (layout.key id Table.entries item.uid) ≡ some v)
      × (end ≡ (f, insert item.uid v r))

  abbrev pub ItemStep : Content × EncryptedTable → UpsertItem → Content × EncryptedTable → Type 0
  ItemStep st item end = Swapped st item end ⊎ Busy st item end

  -- The items one after the other.
  abbrev pub Upserts : Content × EncryptedTable → UpsertData → Content × EncryptedTable → Type 0
  Upserts st [] end = st ≡ end
  Upserts st (item ∷ rest) end =
      (mid : Content × EncryptedTable) × ItemStep st item mid × Upserts mid rest end
