-- ===== src/Spec.antt =====
-- What the key-value databases of the service promise: the content of a store, the cells of one
-- index in it, and the conditional writes of Findex.
pub mod Laws
pub mod Keys
pub mod Guarantees
pub mod Sizes
pub mod Relaxed
pub mod Chains
use findex_cloud.Base.{
  ℕ, Bytes, Option, none, some, List, [], ◌∷◌, ◌++◌, Bool, length, ◌+◌, ◌≡◌, ◌≢◌, ◌==◌, bytes_eq,
  option_eq, if◌then◌else◌,
}
use findex_cloud.Base.HashMap.{insert}
use findex_cloud.Words.{add64, to_be_bytes, from_be_bytes}
use findex_cloud.Core.{Table, Uid, Uids, EncryptedTable, UpsertItem, UpsertData}

-- The committed content of a store.
abbrev pub Content : Type 0
Content = Bytes → Option Bytes

-- One cell written.
abbrev pub update : Content → Bytes → Bytes → Content
update f k v j = if k == j then some v else f j

-- Where the values and the size of an index stand in a store.
pub record Layout : Type 0 where
  pub key : Bytes → Table → Uid → Bytes
  pub size_key : Bytes → Bytes

-- No two cells of the indexes are one. IDs of one length keep a size apart from values.
pub record IsInjective (layout : Layout) : Type 0 where
  pub key_injective :
      (i j : Bytes) (t u : Table) (x y : Uid)
      → length x ≡ length y
      → layout.key i t x ≡ layout.key j u y
      → (i ≡ j) × (t ≡ u) × (x ≡ y)
  pub size_key_injective : (i j : Bytes) → layout.size_key i ≡ layout.size_key j → i ≡ j
  pub key-ne-size_key :
      (i j : Bytes) (t : Table) (x : Uid)
      → length i ≡ length j
      → layout.key i t x ≢ layout.size_key j

abbrev pub value_or_zero : Option ℕ → ℕ
value_or_zero none = 0
value_or_zero (some n) = n

-- A size cell as a number: 0 if it is absent or has not eight bytes.
unfoldable pub size_value : Option Bytes → ℕ
size_value none = 0
size_value (some bytes) = value_or_zero (from_be_bytes bytes)

-- A size cell is absent or has eight bytes.
abbrev pub IsSized : Option Bytes → Type 0
IsSized none = Unit
IsSized (some bytes) = length bytes ≡ 8

abbrev pub reject : Uid → Option Bytes → EncryptedTable → EncryptedTable
reject uid none rejected = rejected
reject uid (some value) rejected = insert uid value rejected

-- The bytes of all values.
unfoldable pub total_length : EncryptedTable → ℕ
total_length [] = 0
total_length ((uid, value) ∷ rest) = length value + total_length rest

module _ (layout : Layout) (id : Bytes) where
  unfoldable pub size_of : Content → ℕ
  size_of f = size_value (f (layout.size_key id))

  -- `n` more bytes in the index.
  unfoldable pub grow : Content → ℕ → Content
  grow f n = update f (layout.size_key id) (to_be_bytes (add64 (size_of f) n))

  -- A new entry counts in the size; a changed one does not.
  abbrev pub count_new : Option Bytes → Content → ℕ → Content
  count_new none f n = grow f n
  count_new (some _) f n = f

  unfoldable pub accept : Content → UpsertItem → Content
  accept f item =
      let key = layout.key id Table.entries item.uid in
      update (count_new (f key) f (length item.new_value)) key item.new_value

  -- Compare and swap at one UID.
  unfoldable pub upsert_one : Content × EncryptedTable → UpsertItem → Content × EncryptedTable
  upsert_one (f, rejected) item =
      let existing = f (layout.key id Table.entries item.uid) in
      if existing == item.old_value
      then (accept f item, rejected)
      else (f, reject item.uid existing rejected)

  unfoldable pub upsert : Content × EncryptedTable → UpsertData → Content × EncryptedTable
  upsert st [] = st
  upsert st (item ∷ rest) = upsert (upsert_one st item) rest

  unfoldable pub put_chains : Content → EncryptedTable → Content
  put_chains f [] = f
  put_chains f ((uid, value) ∷ rest) =
      put_chains (update f (layout.key id Table.chains uid) value) rest

  -- Every value counts, also one that takes the place of another.
  unfoldable pub insert_chains : Content → EncryptedTable → Content
  insert_chains f items =
      update (put_chains f items) (layout.size_key id)
        (to_be_bytes (add64 (size_of f) (total_length items)))

  -- The values that are there, of the UIDs asked for.
  unfoldable pub fetch : Content → Table → Uids → EncryptedTable → EncryptedTable
  fetch f table [] found = found
  fetch f table (uid ∷ uids) found =
      fetch f table uids (reject uid (f (layout.key id table uid)) found)
