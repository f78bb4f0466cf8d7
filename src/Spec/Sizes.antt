-- ===== src/Spec/Sizes.antt =====
-- Every operation keeps the size cell well formed.
use findex_cloud.Base.{
  [], ◌∷◌, ℕ, Bytes, Option, none, some, length, false, ◌≡◌, refl, sym, subst, ◌∙◌, ◌==◌, bytes_eq,
  option_eq, inl, inr, Bool-cases, beq-false_of_ne, ==_refl,
}
use findex_cloud.Words.{add64, to_be_bytes}
use findex_cloud.Words.RoundTrip.{length-to_be_bytes}
use findex_cloud.Core.{Table, Uid, EncryptedTable, UpsertItem}
use findex_cloud.Spec.{
  Content, update, Layout, IsInjective, size_of, grow, count_new, accept, upsert_one, put_chains,
  IsSized,
}
use findex_cloud.Spec.Relaxed.{ItemStep}

module _ (layout : Layout) (inj : IsInjective layout) (id : Bytes) where
  key_beq_size_key : (t : Table) (x : Uid) → (layout.key id t x == layout.size_key id) ≡ false
  key_beq_size_key t x = beq-false_of_ne _ _ (inj.key-ne-size_key id id t x refl)

  -- A write of a value leaves the size cell alone.
  pub update-size_key :
      (f : Content) (t : Table) (x : Uid) (v : Bytes)
      → update f (layout.key id t x) v (layout.size_key id) ≡ f (layout.size_key id)
  update-size_key f t x v = rw (key_beq_size_key t x)

  pub grow-size_key :
      (f : Content) (n : ℕ)
      → grow layout id f n (layout.size_key id) ≡ some (to_be_bytes (add64 (size_of layout id f) n))
  unfolding grow
  grow-size_key f n = rw (==_refl (layout.size_key id))

  count_new-IsSized :
      (o : Option Bytes) (f : Content) (n : ℕ)
      → IsSized (f (layout.size_key id))
      → IsSized (count_new layout id o f n (layout.size_key id))
  count_new-IsSized none f n h = rw grow-size_key (length-to_be_bytes _)
  count_new-IsSized (some _) f n h = h

  pub accept-IsSized :
      (f : Content) (item : UpsertItem)
      → IsSized (f (layout.size_key id))
      → IsSized (accept layout id f item (layout.size_key id))
  unfolding accept
  accept-IsSized f item h = rw update-size_key (count_new-IsSized _ f (length item.new_value) h)

  upsert_one-IsSized :
      (f : Content) (r : EncryptedTable) (item : UpsertItem)
      → IsSized (f (layout.size_key id))
      → IsSized ((upsert_one layout id (f, r) item).0 (layout.size_key id))
  unfolding upsert_one
  upsert_one-IsSized f r item h =
      elim (Bool-cases (f (layout.key id Table.entries item.uid) == item.old_value)) [
        | inl same ↦ rw same (accept-IsSized f item h)
        | inr other ↦ rw other h
      ]

  pub ItemStep-IsSized :
      (st : Content × EncryptedTable) (item : UpsertItem) (end : Content × EncryptedTable)
      → ItemStep layout id st item end
      → IsSized (st.0 (layout.size_key id))
      → IsSized (end.0 (layout.size_key id))
  ItemStep-IsSized st item end (inl swapped) h =
      subst (λ p. IsSized (p.0 (layout.size_key id))) (sym swapped)
        (upsert_one-IsSized st.0 st.1 item h)
  ItemStep-IsSized st item end (inr (v, found, same)) h =
      subst (λ p. IsSized (p.0 (layout.size_key id))) (sym same) h

  -- The values of the chains leave the size cell alone.
  pub put_chains-size_key :
      (f : Content) (items : EncryptedTable)
      → put_chains layout id f items (layout.size_key id) ≡ f (layout.size_key id)
  unfolding put_chains
  put_chains-size_key f [] = refl
  put_chains-size_key f ((uid, value) ∷ rest) =
      put_chains-size_key (update f (layout.key id Table.chains uid) value) rest
      ∙ update-size_key f Table.chains uid value
