-- ===== src/Rocksdb/Accepts.antt =====
-- What an item of `upsert_entries` of src/rocksdb.rs does once it holds the lock of its entry.
use findex_cloud.Base.{
  ℕ, Bytes, Option, none, some, [], ◌∷◌, length, true, false, ◌≡◌, refl, ap, sym, subst, ◌∙◌, ◌==◌,
  bytes_eq, option_eq, inl, inr, Bool-cases,
}
use findex_cloud.Words.{add64, to_be_bytes}
use findex_cloud.Errors.{rocksdb, Result, ok, err, panicked}
use findex_cloud.Exec.{pure, attempt, ◌>>=◌, ◌>>◌}
use findex_cloud.Exec.Laws.{post_rule, attempt_rule, call_rule}
use findex_cloud.Core.{Table, EncryptedTable, UpsertItem}
use findex_cloud.Spec
use findex_cloud.Spec.{Content, update, size_of, size_value, grow, reject, IsSized}
use findex_cloud.Spec.Relaxed.{ItemStep}
use findex_cloud.Rocksdb.{count_new, compare_and_put}
use findex_cloud.Rocksdb.Keys.{key, size_key, layout}
use findex_cloud.Rocksdb.Merge.{merge_add, merge_add-size}
use findex_cloud.Rocksdb.Client.{Rocks, IsRocks}

module _ (db : Rocks) (rocks : IsRocks db) (id : Bytes) where
  open rocks use {content, pending}

  -- A step of the loop on `item`: it compares and swaps or reports, or fails and changes nothing.
  abbrev pub ItemPost :
      Content → EncryptedTable → UpsertItem → Result EncryptedTable × db.Db → Type 0
  ItemPost f r item (ok r', d) = ItemStep layout id (f, r) item (content d, r')
  ItemPost f r item (err _, d) = content d ≡ f
  ItemPost f r item (panicked, d) = ⊥

  -- A transaction that has written nothing.
  abbrev pub IsFresh : db.Txn → Type 0
  IsFresh t = (f : Content) → pending t f ≡ f

  module _ (f : Content) (sized : IsSized (f (size_key id))) where
    -- The size cell in a transaction, after a new value has been counted.
    abbrev CountPost : Option Bytes → ℕ → Result db.Txn × db.Db → Type 0
    CountPost existing n (ok u, d) =
        (pending u f ≡ Spec.count_new layout id existing f n) × (content d ≡ f)
    CountPost existing n (err _, d) = content d ≡ f
    CountPost existing n (panicked, d) = ⊥

    -- The item has been written, or nothing has.
    abbrev ItemAccepted : UpsertItem → EncryptedTable → Result EncryptedTable × db.Db → Type 0
    ItemAccepted item r (ok r', d) = (r' ≡ r) × (content d ≡ Spec.accept layout id f item)
    ItemAccepted item r (err _, d) = content d ≡ f
    ItemAccepted item r (panicked, d) = ⊥

    count_new-counts :
        (t : db.Txn) (existing : Option Bytes) (v : Bytes) (d : db.Db)
        → IsFresh t
        → content d ≡ f
        → CountPost existing (length v) (count_new db id t existing v d)
    unfolding count_new grow size_of
    count_new-counts t (some _) v d fresh start = (fresh f, start)
    count_new-counts t none v d fresh start =
        let n = length v in
        let merging = merge_add-size (f (size_key id)) n sized in
        call_rule rocksdb (db.txn_merge t (size_key id) (to_be_bytes n)) d (CountPost none n)
          (λ u merged. (
            rocks.pending-txn_merge t u (size_key id) (to_be_bytes n) _ d f
                  (ap (λ g. merge_add (g (size_key id)) (to_be_bytes n ∷ [])) (fresh f) ∙ merging)
                  merged
                ∙ ap
                    (λ g.
                      update g (size_key id) (to_be_bytes (add64 (size_value (f (size_key id))) n)))
                    (fresh f),
            rocks.content-txn_merge t _ _ d ∙ start,
          ))
          (λ _ _. rocks.content-txn_merge t _ _ d ∙ start)

    -- The write and the commit, once a new value has been counted.
    write_and_commit :
        (u : db.Txn) (item : UpsertItem) (r : EncryptedTable) (existing : Option Bytes) (d : db.Db)
        → existing ≡ f (key id Table.entries item.uid)
        → pending u f ≡ Spec.count_new layout id existing f (length item.new_value)
        → content d ≡ f
        → ItemAccepted item r (
            (do
              written ←
                  attempt rocksdb (db.txn_put u (key id Table.entries item.uid) item.new_value)
              attempt rocksdb (db.commit written)
              pure r)
              d)
    unfolding Spec.accept
    write_and_commit u item r existing d cell counted start =
        let k = key id Table.entries item.uid in
        let put = db.txn_put u k item.new_value in
        attempt_rule rocksdb put _ d (ItemAccepted item r)
          (λ w written.
            attempt_rule rocksdb (db.commit w) _ (put d).1 (ItemAccepted item r)
              (λ _ committed. (
                refl,
                rocks.content-commit w (put d).1 committed
                    ∙ ap (pending w) (rocks.content-txn_put u k item.new_value d ∙ start)
                    ∙ rocks.pending-txn_put u w k item.new_value d f written
                    ∙ ap (λ g. update g k item.new_value)
                        (counted
                          ∙ ap (λ o. Spec.count_new layout id o f (length item.new_value)) cell),
              ))
              (λ text refused.
                rocks.content-commit_failed w (put d).1 text refused
                ∙ rocks.content-txn_put u k item.new_value d
                ∙ start))
          (λ _ _. rocks.content-txn_put u k item.new_value d ∙ start)

    accepted_is_swapped :
        (item : UpsertItem) (r : EncryptedTable) (p : Result EncryptedTable × db.Db)
        → (f (key id Table.entries item.uid) == item.old_value) ≡ true
        → ItemAccepted item r p
        → ItemPost f r item p
    unfolding Spec.upsert_one
    accepted_is_swapped item r (ok r', d) same (kept, written) =
        inl (rw same (λ i. (written i, kept i)))
    accepted_is_swapped item r (err _, d) same unchanged = unchanged
    accepted_is_swapped item r (panicked, d) same impossible = absurd impossible

    other_is_swapped :
        (item : UpsertItem) (r : EncryptedTable) (g : Content)
        → (f (key id Table.entries item.uid) == item.old_value) ≡ false
        → g ≡ f
        → ItemStep layout id (f, r) item (g, reject item.uid (f (key id Table.entries item.uid)) r)
    unfolding Spec.upsert_one
    other_is_swapped item r g other same =
        inl (rw other (λ i. (same i, reject item.uid (f (key id Table.entries item.uid)) r)))

    pub compare_and_put-post :
        (t : db.Txn) (item : UpsertItem) (r : EncryptedTable) (existing : Option Bytes) (d : db.Db)
        → existing ≡ f (key id Table.entries item.uid)
        → IsFresh t
        → content d ≡ f
        → ItemPost f r item (compare_and_put db id t existing item r d)
    unfolding compare_and_put
    compare_and_put-post t item r existing d cell fresh start =
        elim (Bool-cases (existing == item.old_value)) [
          | inl same ↦ rw same (
              accepted_is_swapped item r _ (subst (λ o. (o == item.old_value) ≡ true) cell same) (
                post_rule (count_new db id t existing item.new_value) _ d
                  (CountPost existing (length item.new_value)) (ItemAccepted item r)
                  (count_new-counts t existing item.new_value d fresh start)
                  (λ u d' (counted, kept). write_and_commit u item r existing d' cell counted kept)
                  (λ _ _ unchanged. unchanged) (λ _ impossible. impossible)))
          | inr other ↦ rw other (
              attempt_rule rocksdb (db.rollback t) _ d (ItemPost f r item)
                (λ _ _.
                  subst
                    (λ o.
                      ItemStep layout id (f, r) item
                        (content (db.rollback t d).1, reject item.uid o r))
                    (sym cell)
                    (other_is_swapped item r _
                      (subst (λ o. (o == item.old_value) ≡ false) cell other)
                      (rocks.content-rollback t d ∙ start)))
                (λ _ _. rocks.content-rollback t d ∙ start))
        ]
