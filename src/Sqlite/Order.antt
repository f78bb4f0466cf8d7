-- ===== src/Sqlite/Order.antt =====
-- The order in which `get_indexes` of src/sqlite.rs lists the indexes.
use mathlib.Core.List.{Perm}
use mathlib.Core.List.Perm
use findex_cloud.Base.{
  ℕ, ◌≤◌, List, [], ◌∷◌, ◌≡◌, sym, subst, All, inl, inr, Bool, true, false, Bool-cases, arith,
  bytes_eq,
}
use findex_cloud.Errors.{Result, ok, err, panicked}
use findex_cloud.Core.{Index}
use findex_cloud.Sqlite.{get_indexes}
use findex_cloud.Sqlite.Table.{Db, is_behind, insert_newest, order_by_created_at}
use findex_cloud.Sqlite.Laws.{ListPost, get_indexes-post}

abbrev AllOlder : ℕ → List Index → Type 0
AllOlder instant = All (λ row. row.created_at ≤ instant)

abbrev pub NewestFirst : List Index → Type 0
NewestFirst [] = Unit
NewestFirst (row ∷ rows) = AllOlder row.created_at rows × NewestFirst rows

AllOlder-trans : (a b : ℕ) (rows : List Index) → a ≤ b → AllOlder a rows → AllOlder b rows
AllOlder-trans a b [] h older = tt
AllOlder-trans a b (row ∷ rows) h (first, rest) = (omega arith, AllOlder-trans a b rows h rest)

module _ (ties : Index → Index → Bool) where
  behind_is_older :
      (row head : Index) → is_behind ties row head ≡ true → row.created_at ≤ head.created_at
  unfolding is_behind
  behind_is_older row head h = ground arith

  before_is_newer :
      (row head : Index) → is_behind ties row head ≡ false → head.created_at ≤ row.created_at
  unfolding is_behind
  before_is_newer row head h = ground arith

  AllOlder-insert :
      (a : ℕ) (row : Index) (rows : List Index)
      → row.created_at ≤ a
      → AllOlder a rows
      → AllOlder a (insert_newest ties row rows)
  unfolding insert_newest
  AllOlder-insert a row [] h older = (h, tt)
  AllOlder-insert a row (head ∷ rows) h (first, rest) =
      elim (Bool-cases (is_behind ties row head)) [
        | inl before ↦ rw before (first, AllOlder-insert a row rows h rest)
        | inr after ↦ rw after (h, (first, rest))
      ]

  insert_newest-NewestFirst :
      (row : Index) (rows : List Index)
      → NewestFirst rows
      → NewestFirst (insert_newest ties row rows)
  unfolding insert_newest
  insert_newest-NewestFirst row [] sorted = (tt, tt)
  insert_newest-NewestFirst row (head ∷ rows) (older, sorted) =
      elim (Bool-cases (is_behind ties row head)) [
        | inl before ↦ rw before (
          AllOlder-insert head.created_at row rows (behind_is_older row head before) older,
          insert_newest-NewestFirst row rows sorted,
        )
        | inr after ↦
            let h : head.created_at ≤ row.created_at = before_is_newer row head after in
            rw after
              ((h, AllOlder-trans head.created_at row.created_at rows h older), (older, sorted))
      ]

  insert_newest-perm :
      (row : Index) (rows : List Index) → Perm (insert_newest ties row rows) (row ∷ rows)
  unfolding insert_newest
  insert_newest-perm row [] = Perm.refl (row ∷ [])
  insert_newest-perm row (head ∷ rows) = elim (Bool-cases (is_behind ties row head)) [
    | inl before ↦
        rw before
          (Perm.trans (Perm.cons head (insert_newest-perm row rows)) (Perm.swap row head rows))
    | inr after ↦ rw after (Perm.refl (row ∷ head ∷ rows))
  ]

  pub order-NewestFirst : (rows : List Index) → NewestFirst (order_by_created_at ties rows)
  unfolding order_by_created_at
  order-NewestFirst [] = tt
  order-NewestFirst (row ∷ rows) = insert_newest-NewestFirst row _ (order-NewestFirst rows)

  pub order-perm : (rows : List Index) → Perm (order_by_created_at ties rows) rows
  unfolding order_by_created_at
  order-perm [] = Perm.refl []
  order-perm (row ∷ rows) =
      Perm.trans (insert_newest-perm row (order_by_created_at ties rows))
        (Perm.cons row (order-perm rows))

-- `get_indexes` lists every row of the table once, a later one first, and changes none.
abbrev pub SortedPost : List Index → Result (List Index) × Db → Type 0
SortedPost rows (ok indexes, d) = NewestFirst indexes × Perm indexes rows × (d.rows ≡ rows)
SortedPost rows (err _, d) = d.rows ≡ rows
SortedPost rows (panicked, d) = ⊥

-- `get_indexes` in SQLite lists every row once, no later one behind an earlier one, and changes no
-- row.
pub get_indexes-sorted : (d : Db) → SortedPost d.rows (get_indexes d)
get_indexes-sorted d = sorted (get_indexes d) (get_indexes-post d)
  where
    sorted : (p : Result (List Index) × Db) → ListPost d p → SortedPost d.rows p
    sorted (ok indexes, d') (listed, kept) = (
      subst NewestFirst (sym listed) (order-NewestFirst d.ties d.rows),
      subst (λ l. Perm l d.rows) (sym listed) (order-perm d.ties d.rows),
      kept,
    )
    sorted (err _, d') kept = kept
    sorted (panicked, d') impossible = impossible
