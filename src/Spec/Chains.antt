-- ===== src/Spec/Chains.antt =====
-- The insertions of chains, cell by cell.
use findex_cloud.Base.{
  ℕ, Bytes, bytes_eq, none, [], ◌∷◌, length, false, ◌≡◌, ◌≢◌, refl, sym, ◌∙◌, ◌==◌, All, Bool-cases,
  inl, inr, ==_refl, eq_of_beq, ne_of_beq-false, beq-false_of_ne, arith,
}
use findex_cloud.Base.HashMap.{get, DistinctKeys}
use findex_cloud.Core.{Table, Uid, EncryptedTable}
use findex_cloud.Spec.{Content, update, Layout, IsInjective, put_chains, insert_chains}
use findex_cloud.Spec.Laws.{or_get}

abbrev pub HasKeyLength : ℕ → EncryptedTable → Type 0
HasKeyLength n = All (λ item. length item.0 ≡ n)

pub get-absent :
    (x : Uid) (items : EncryptedTable) → All (λ item. item.0 ≢ x) items → get x items ≡ none
unfolding get
get-absent x [] absent = refl
get-absent x ((uid, value) ∷ rest) (other, absent) =
    ground (arith, beq-false_of_ne uid x other, get-absent x rest absent)

module _ (layout : Layout) (inj : IsInjective layout) (id : Bytes) (n : ℕ) where
  abbrev chain_key : Uid → Bytes
  chain_key = layout.key id Table.chains

  chain_key_beq :
      (x y : Uid) → length x ≡ n → length y ≡ n → (chain_key x == chain_key y) ≡ (x == y)
  chain_key_beq x y hx hy = elim (Bool-cases (x == y)) [
    | inl same ↦ rw same (rw (eq_of_beq x y same) (==_refl (chain_key y)))
    | inr other ↦ rw other (
        beq-false_of_ne _ _ (λ e.
          ne_of_beq-false x y other
            (inj.key_injective id id Table.chains Table.chains x y (hx ∙ sym hy) e).2))
  ]

  put_chains-cell :
      (items : EncryptedTable) (f : Content) (x : Uid)
      → HasKeyLength n items
      → DistinctKeys items
      → length x ≡ n
      → put_chains layout id f items (chain_key x) ≡ or_get (get x items) (f (chain_key x))
  unfolding put_chains get
  put_chains-cell [] f x hs ds hx = refl
  put_chains-cell ((uid, value) ∷ rest) f x (h, hs) (fresh, ds) hx =
      let later = put_chains-cell rest (update f (chain_key uid) value) x hs ds hx in
      ground
        (arith, later, chain_key_beq uid x h hx, bytes_eq.same_iff uid x, get-absent uid rest fresh)

  -- Each value stands in its cell, and the other cells of the table are as they were.
  pub insert_chains-cell :
      (items : EncryptedTable) (f : Content) (x : Uid)
      → HasKeyLength n items
      → DistinctKeys items
      → length x ≡ n
      → insert_chains layout id f items (chain_key x) ≡ or_get (get x items) (f (chain_key x))
  unfolding insert_chains
  insert_chains-cell items f x hs ds hx =
      let other : (layout.size_key id == chain_key x) ≡ false =
        beq-false_of_ne _ _ (λ e. inj.key-ne-size_key id id Table.chains x refl (sym e)) in
      rw other (put_chains-cell items f x hs ds hx)
