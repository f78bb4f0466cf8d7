-- ===== src/Spec/Laws.antt =====
-- The conditional writes of an index, cell by cell.
use findex_cloud.Base.{
  ℕ, Bytes, Option, none, some, [], ◌∷◌, false, length, ◌≡◌, refl, sym, ◌∙◌, ◌==◌, bytes_eq,
  option_eq, ==_refl, eq_of_beq, beq-false_of_ne, ne_of_beq-false, if◌then◌else◌, All, not, ◌&&◌,
  subst, Bool-cases, inl, inr, arith,
}
use findex_cloud.Base.HashMap.{get, get-insert}
use findex_cloud.Core.{Table, Uid, EncryptedTable, UpsertItem, UpsertData}
use findex_cloud.Spec.{Content, Layout, IsInjective, grow, reject, accept, upsert_one, upsert}

-- The request for a UID.
unfoldable pub find : Uid → UpsertData → Option UpsertItem
find x [] = none
find x (item ∷ rest) = if item.uid == x then some item else find x rest

-- `data` is a map: no UID stands twice.
abbrev pub DistinctUids : UpsertData → Type 0
DistinctUids [] = Unit
DistinctUids (item ∷ rest) = (find item.uid rest ≡ none) × DistinctUids rest

abbrev pub HasUidLength : ℕ → UpsertData → Type 0
HasUidLength n = All (λ item. length item.uid ≡ n)

-- What compare and swap leaves in a cell that held `existing`, and what it reports.
abbrev pub cell_after : Option Bytes → Option UpsertItem → Option Bytes
cell_after existing none = existing
cell_after existing (some item) =
    if existing == item.old_value then some item.new_value else existing

abbrev pub rejected_after : Option Bytes → Option UpsertItem → Option Bytes
rejected_after existing none = none
rejected_after existing (some item) = if existing == item.old_value then none else existing

abbrev pub or_get : Option Bytes → Option Bytes → Option Bytes
or_get none before = before
or_get (some v) before = some v

pub get-reject :
    (uid : Uid) (existing : Option Bytes) (x : Uid) (r : EncryptedTable)
    → get x (reject uid existing r) ≡ (if uid == x then or_get existing (get x r) else get x r)
get-reject uid none x r = ground arith
get-reject uid (some v) x r = ground (arith, get-insert uid x v r)

module _ (layout : Layout) (inj : IsInjective layout) (id : Bytes) (n : ℕ) where
  abbrev entry_key : Uid → Bytes
  entry_key = layout.key id Table.entries

  entry_key_beq :
      (x y : Uid) → length x ≡ n → length y ≡ n → (entry_key x == entry_key y) ≡ (x == y)
  entry_key_beq x y hx hy = elim (Bool-cases (x == y)) [
    | inl same ↦ rw same (rw (eq_of_beq x y same) (==_refl (entry_key y)))
    | inr other ↦ rw other (
        beq-false_of_ne _ _ (λ e.
          ne_of_beq-false x y other
            (inj.key_injective id id Table.entries Table.entries x y (hx ∙ sym hy) e).2))
  ]

  size_key_beq : (x : Uid) → (layout.size_key id == entry_key x) ≡ false
  size_key_beq x = beq-false_of_ne _ _ (λ e. inj.key-ne-size_key id id Table.entries x refl (sym e))

  accept-cell :
      (f : Content) (item : UpsertItem) (x : Uid)
      → length item.uid ≡ n
      → length x ≡ n
      → accept layout id f item (entry_key x)
        ≡ (if item.uid == x then some item.new_value else f (entry_key x))
  unfolding accept grow
  accept-cell f item x hi hx = ground (arith, entry_key_beq item.uid x hi hx, size_key_beq x)

  pub upsert_one-cell :
      (f : Content) (r : EncryptedTable) (item : UpsertItem) (x : Uid)
      → length item.uid ≡ n
      → length x ≡ n
      → (upsert_one layout id (f, r) item).0 (entry_key x)
        ≡ (if item.uid == x then cell_after (f (entry_key x)) (some item) else f (entry_key x))
  unfolding upsert_one
  upsert_one-cell f r item x hi hx =
      ground (arith, accept-cell f item x hi hx, bytes_eq.same_iff item.uid x)

  upsert_one-rejected :
      (f : Content) (r : EncryptedTable) (item : UpsertItem) (x : Uid)
      → get x (upsert_one layout id (f, r) item).1 ≡ (
          if item.uid == x && not (f (entry_key x) == item.old_value)
          then or_get (f (entry_key x)) (get x r)
          else get x r)
  unfolding upsert_one
  upsert_one-rejected f r item x =
      ground (arith, get-reject item.uid (f (entry_key item.uid)) x r, bytes_eq.same_iff item.uid x)

  -- Requests for other UIDs leave a cell and its report alone.
  pub upsert-absent :
      (data' : UpsertData) (f : Content) (r : EncryptedTable) (x : Uid)
      → HasUidLength n data'
      → length x ≡ n
      → find x data' ≡ none
      → ((upsert layout id (f, r) data').0 (entry_key x) ≡ f (entry_key x))
        × (get x (upsert layout id (f, r) data').1 ≡ get x r)
  unfolding upsert find
  upsert-absent [] f r x hs hx absent = (refl, refl)
  upsert-absent (item ∷ rest) f r x hs hx absent =
      let st = upsert_one layout id (f, r) item in
      ground (
        arith,
        upsert_one-cell f r item x hs.0 hx,
        upsert_one-rejected f r item x,
        upsert-absent rest st.0 st.1 x hs.1 hx,
      )

  -- Every cell ends as compare and swap leaves it, and the report has the values that stood in the
  -- way.
  pub upsert-cell :
      (data' : UpsertData) (f : Content) (r : EncryptedTable) (x : Uid)
      → HasUidLength n data'
      → DistinctUids data'
      → length x ≡ n
      → get x r ≡ none
      → ((upsert layout id (f, r) data').0 (entry_key x)
          ≡ cell_after (f (entry_key x)) (find x data'))
        × (get x (upsert layout id (f, r) data').1
            ≡ rejected_after (f (entry_key x)) (find x data'))
  unfolding upsert find
  upsert-cell [] f r x hs ds hx absent = (refl, absent)
  upsert-cell (item ∷ rest) f r x hs ds hx absent =
      let st = upsert_one layout id (f, r) item in
      elim (Bool-cases (item.uid == x)) [
        | inl same ↦
            let last : find x rest ≡ none =
              subst (λ u. find u rest ≡ none) (eq_of_beq item.uid x same) ds.0 in
            let (cell, report) = upsert-absent rest st.0 st.1 x hs.1 hx last in
            ground (
              arith,
              cell,
              report,
              upsert_one-cell f r item x hs.0 hx,
              upsert_one-rejected f r item x,
            )
        | inr other ↦ ground (
          arith,
          upsert_one-cell f r item x hs.0 hx,
          upsert_one-rejected f r item x,
          upsert-cell rest st.0 st.1 x hs.1 ds.1 hx,
        )
      ]
