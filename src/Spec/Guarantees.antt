-- ===== src/Spec/Guarantees.antt =====
-- What follows for a client from the conditional writes: reads, other cells and the size.
use findex_cloud.Base.{
  ℕ, ◌+◌, ◌%◌, Bytes, Option, none, some, [], ◌∷◌, length, Bool, false, ◌≡◌, ◌≢◌, refl, ap, ◌∙◌,
  ◌==◌, bytes_eq, option_eq, beq-false_of_ne, if◌then◌else◌, ◌&&◌, ◌||◌, All, arith,
}
use findex_cloud.Base.HashMap.{get}
use findex_cloud.Words.{word_mod, add64}
use findex_cloud.Words.RoundTrip.{from_be_bytes_wraps}
use findex_cloud.Core.{Table, Uid, Uids, EncryptedTable, UpsertItem, UpsertData}
use findex_cloud.Spec.{
  Content, update, Layout, IsInjective, size_of, size_value, grow, count_new, accept, reject,
  upsert_one, upsert, fetch,
}
use findex_cloud.Spec.Laws.{find, DistinctUids, HasUidLength, or_get, get-reject, upsert_one-cell}
use findex_cloud.Spec.Sizes.{update-size_key, grow-size_key}

unfoldable pub contains : Uid → Uids → Bool
contains x [] = false
contains x (uid ∷ uids) = uid == x || contains x uids

module _ (layout : Layout) (id : Bytes) where
  fetch-found :
      (f : Content) (t : Table) (uids : Uids) (found : EncryptedTable) (x : Uid)
      → get x (fetch layout id f t uids found)
        ≡ (if contains x uids then or_get (f (layout.key id t x)) (get x found) else get x found)
  unfolding fetch contains
  fetch-found f t [] found x = refl
  fetch-found f t (uid ∷ uids) found x = ground (
    arith,
    fetch-found f t uids (reject uid (f (layout.key id t uid)) found) x,
    get-reject uid (f (layout.key id t uid)) x found,
    bytes_eq.same_iff uid x,
  )

  -- A fetch answers for exactly the UIDs asked for, with what stands in their cells.
  pub get-fetch :
      (f : Content) (t : Table) (uids : Uids) (x : Uid)
      → get x (fetch layout id f t uids [])
        ≡ (if contains x uids then f (layout.key id t x) else none)
  get-fetch f t uids x = unfold get in ground (arith, fetch-found f t uids [] x)

  module _ (k : Bytes) (other : (x : Uid) → layout.key id Table.entries x ≢ k)
      (not_size : layout.size_key id ≢ k) where
    accept-other : (f : Content) (item : UpsertItem) → accept layout id f item k ≡ f k
    unfolding accept grow
    accept-other f item = ground (
      arith,
      beq-false_of_ne (layout.key id Table.entries item.uid) k (other item.uid),
      beq-false_of_ne (layout.size_key id) k not_size,
    )

    -- A cell that is no entry of the index and not its size is left alone.
    pub upsert-other :
        (items : UpsertData) (f : Content) (r : EncryptedTable)
        → (upsert layout id (f, r) items).0 k ≡ f k
    unfolding upsert upsert_one
    upsert-other [] f r = refl
    upsert-other (item ∷ rest) f r =
        let st = upsert_one layout id (f, r) item in
        upsert-other rest st.0 st.1 ∙ ground (arith, accept-other f item)

  -- The bytes that an item adds to the index: those of its value, if it makes a new entry.
  unfoldable pub new_length : Content → UpsertData → ℕ
  new_length f [] = 0
  new_length f (item ∷ rest) =
      (if f (layout.key id Table.entries item.uid) == none && item.old_value == none
        then length item.new_value
        else 0)
      + new_length f rest

  module _ (inj : IsInjective layout) (n : ℕ) where
    size_of-grow :
        (f : Content) (m : ℕ)
        → size_of layout id (grow layout id f m) ≡ add64 (size_of layout id f) m
    unfolding size_of size_value
    size_of-grow f m =
        rw (grow-size_key layout inj id f m, from_be_bytes_wraps) (unfold add64 in omega arith)

    size_of-update :
        (f : Content) (t : Table) (x : Uid) (v : Bytes)
        → size_of layout id (update f (layout.key id t x) v) ≡ size_of layout id f
    unfolding size_of
    size_of-update f t x v = ap size_value (update-size_key layout inj id f t x v)

    size_of-count_new :
        (o : Option Bytes) (f : Content) (m : ℕ)
        → size_of layout id (count_new layout id o f m) % word_mod
          ≡ (size_of layout id f + (if o == none then m else 0)) % word_mod
    size_of-count_new none f m = rw size_of-grow (unfold add64 in omega arith)
    size_of-count_new (some v) f m = omega arith

    size_of-upsert_one :
        (f : Content) (r : EncryptedTable) (item : UpsertItem)
        → size_of layout id (upsert_one layout id (f, r) item).0 % word_mod
          ≡ (size_of layout id f + new_length f (item ∷ [])) % word_mod
    unfolding upsert_one accept new_length
    size_of-upsert_one f r item =
        let k = layout.key id Table.entries item.uid in
        let m = length item.new_value in
        ground (
          arith,
          size_of-update (count_new layout id (f k) f m) Table.entries item.uid item.new_value,
          size_of-count_new (f k) f m,
          (option_eq {A = Bytes}).same_iff (f k) item.old_value,
        )

    -- The cells of the items of `rest` are what they were in `f`.
    abbrev SameCells : Content → Content → UpsertData → Type 0
    SameCells f g = All (λ item.
        g (layout.key id Table.entries item.uid) ≡ f (layout.key id Table.entries item.uid))

    new_length-same :
        (f g : Content) (items : UpsertData)
        → SameCells f g items
        → new_length g items ≡ new_length f items
    unfolding new_length
    new_length-same f g [] h = refl
    new_length-same f g (item ∷ rest) h = ground (arith, h.0, new_length-same f g rest h.1)

    absent_cells :
        (f : Content) (r : EncryptedTable) (item : UpsertItem) (rest : UpsertData)
        → length item.uid ≡ n
        → HasUidLength n rest
        → find item.uid rest ≡ none
        → SameCells f (upsert_one layout id (f, r) item).0 rest
    unfolding find
    absent_cells f r item [] h hs absent = tt
    absent_cells f r item (it ∷ rest) h hs absent = (
      ground (
        arith,
        upsert_one-cell layout inj id n f r item it.uid h hs.0,
        bytes_eq.same_iff it.uid item.uid,
        bytes_eq.same_iff item.uid it.uid,
      ),
      absent_cells f r item rest h hs.1 (ground arith),
    )

    -- The size grows by the bytes of the entries that are new, and by nothing for those that change.
    pub size_of-upsert :
        (items : UpsertData) (f : Content) (r : EncryptedTable)
        → HasUidLength n items
        → DistinctUids items
        → size_of layout id (upsert layout id (f, r) items).0 % word_mod
          ≡ (size_of layout id f + new_length f items) % word_mod
    unfolding upsert new_length
    size_of-upsert [] f r hs ds = omega arith
    size_of-upsert (item ∷ rest) f r hs ds =
        let st = upsert_one layout id (f, r) item in
        let same = new_length-same f st.0 rest (absent_cells f r item rest hs.0 hs.1 ds.0) in
        omega (arith, size_of-upsert_one f r item, size_of-upsert rest st.0 st.1 hs.1 ds.1, same)
