-- ===== src/Heed/Atomic.antt =====
-- Each method of src/heed.rs against the specification: it does what the specification says, or
-- fails and leaves the content as it was.
use findex_cloud.Base.{some, [], ◌≡◌, refl, ap, ◌∙◌, bytes_eq}
use findex_cloud.Words.Signed.{ℤ, as_i64}
use findex_cloud.Errors.{heed, Result, ok, err, panicked}
use findex_cloud.Exec.{attempt, pure, ◌>>=◌}
use findex_cloud.Exec.Laws.{attempt_rule, lift_rule}
use findex_cloud.Core.{Index, Table, Uids, EncryptedTable, UpsertData}
use findex_cloud.Spec
use findex_cloud.Spec.{Content, update, size_of, size_value, total_length}
use findex_cloud.Heed.{upsert_entries, insert_chains, set_size, fetch}
use findex_cloud.Heed.Keys.{size_key, layout}
use findex_cloud.Heed.Txn.{Lmdb, IsLmdb, upsert_loop, read_size, put_size, insert_loop, fetch_loop}
use findex_cloud.Heed.Writes.{
  fetch_loop-seen, chains-seen, size_i64-as_i64, upsert_loop-seen, read_size-seen,
}
use findex_cloud.Heed.Total.{
  upsert_loop-NoPanic, insert_loop-NoPanic, read_size-NoPanic, put_size-NoPanic, fetch_loop-NoPanic,
}

module _ (db : Lmdb) (lmdb : IsLmdb db) where
  open lmdb use {content, seen}

  -- A run either returns the specified value and leaves the specified content, or fails and leaves
  -- the content that it found.
  abbrev pub AllOrNothing : {A : Type 0} → A → Content → Content → Result A × db.Env → Type 0
  AllOrNothing value after before (ok a, e) = (a ≡ value) × (content e ≡ after)
  AllOrNothing value after before (err _, e) = content e ≡ before
  AllOrNothing value after before (panicked, e) = ⊥

  commit_all :
      {A : Type 0} (t : db.Txn) (a value : A) (after before : Content) (e : db.Env)
      → a ≡ value
      → seen t ≡ after
      → content e ≡ before
      → AllOrNothing value after before ((attempt heed (db.commit t) >>= λ _. pure a) e)
  commit_all t a value after before e same wrote start =
      attempt_rule heed (db.commit t) (λ _. pure a) e (AllOrNothing value after before)
        (λ _ committed. (same, lmdb.content-commit t e committed ∙ wrote))
        (λ text refused. lmdb.content-commit_failed t e refused ∙ start)

  -- `upsert_entries` on LMDB, if it returns, leaves the content and returns the rejected values of
  -- one compare and swap for each item in turn, with the size grown by each new entry as on 64-bit
  -- words; if it fails it leaves the content as it was; it does not panic.
  pub upsert_entries-atomic :
      (index : Index) (items : UpsertData) (e : db.Env)
      → let (after, rejected) = Spec.upsert layout index.id (content e, []) items in
        AllOrNothing rejected after (content e) (upsert_entries db index items e)
  unfolding upsert_entries
  upsert_entries-atomic index items e =
      let (after, rejected) = Spec.upsert layout index.id (content e, []) items in
      attempt_rule heed db.write_txn _ e (AllOrNothing rejected after (content e))
        (λ t begun.
          lift_rule (upsert_loop db index.id t items []) _ (db.write_txn e).1
            (AllOrNothing rejected after (content e))
            (λ end ran.
              let wrote =
                upsert_loop-seen db lmdb index.id items t [] end ran
                ∙ ap (λ f. Spec.upsert layout index.id (f, []) items)
                    (lmdb.seen-write_txn e t begun) in
              commit_all end.0 end.1 rejected after (content e) (db.write_txn e).1
                (ap (λ st. st.1) wrote) (ap (λ st. st.0) wrote) (lmdb.content-write_txn e))
            (λ _ _. lmdb.content-write_txn e)
            (λ p. absurd (upsert_loop-NoPanic db index.id items t [] p)))
        (λ _ _. lmdb.content-write_txn e)

  -- `insert_chains` on LMDB, if it returns, has written every value and added all their lengths to
  -- the size, as on 64-bit words; if it fails it leaves the content as it was; it does not panic.
  pub insert_chains-atomic :
      (index : Index) (items : EncryptedTable) (e : db.Env)
      → AllOrNothing tt
          (Spec.insert_chains layout index.id (content e) items)
          (content e)
          (insert_chains db index items e)
  unfolding insert_chains
  insert_chains-atomic index items e =
      let after = Spec.insert_chains layout index.id (content e) items in
      let e1 = (db.write_txn e).1 in
      attempt_rule heed db.write_txn _ e (AllOrNothing tt after (content e))
        (λ t begun.
          lift_rule (read_size db index.id t) _ e1 (AllOrNothing tt after (content e))
            (λ size read.
              lift_rule (insert_loop db index.id t size items) _ e1
                (AllOrNothing tt after (content e))
                (λ mid ran.
                  lift_rule (put_size db index.id mid.0 mid.1) _ e1
                    (AllOrNothing tt after (content e))
                    (λ u put.
                      commit_all u tt tt after (content e) e1 refl
                        (chains-seen db lmdb index.id items t u size mid read ran put
                          ∙ ap (λ f. Spec.insert_chains layout index.id f items)
                              (lmdb.seen-write_txn e t begun))
                        (lmdb.content-write_txn e))
                    (λ _ _. lmdb.content-write_txn e)
                    (λ p. absurd (put_size-NoPanic db index.id mid.0 mid.1 p)))
                (λ _ _. lmdb.content-write_txn e)
                (λ p. absurd (insert_loop-NoPanic db index.id items t size p)))
            (λ _ _. lmdb.content-write_txn e) (λ p. absurd (read_size-NoPanic db index.id t p)))
        (λ _ _. lmdb.content-write_txn e)

  -- `fetch` returns the stored values of the UIDs that have one, and changes nothing.
  pub fetch-atomic :
      (index : Index) (table : Table) (uids : Uids) (e : db.Env)
      → AllOrNothing
          (Spec.fetch layout index.id (content e) table uids [])
          (content e)
          (content e)
          (fetch db index table uids e)
  unfolding fetch
  fetch-atomic index table uids e =
      let result = Spec.fetch layout index.id (content e) table uids [] in
      attempt_rule heed db.read_txn _ e (AllOrNothing result (content e) (content e))
        (λ t begun.
          lift_rule (fetch_loop db index.id t table uids []) _ (db.read_txn e).1
            (AllOrNothing result (content e) (content e))
            (λ found ran. (
              fetch_loop-seen db lmdb index.id uids t table [] found ran
                  ∙ ap (λ f. Spec.fetch layout index.id f table uids [])
                      (lmdb.seen-read_txn e t begun),
              lmdb.content-read_txn e,
            ))
            (λ _ _. lmdb.content-read_txn e)
            (λ p. absurd (fetch_loop-NoPanic db index.id uids t table [] p)))
        (λ _ _. lmdb.content-read_txn e)

  -- `set_size` on LMDB sets what the size cell holds as an `i64`, 0 if there is none or it has not
  -- eight bytes, and changes nothing.
  pub set_size-atomic :
      (index : Index) (e : db.Env)
      → AllOrNothing
          (record index { size = some (as_i64 (size_of layout index.id (content e))) })
          (content e)
          (content e)
          (set_size db index e)
  unfolding set_size size_of
  set_size-atomic index e =
      let sized = λ (n : ℤ). record index { size = some n } in
      let result = sized (as_i64 (size_of layout index.id (content e))) in
      attempt_rule heed db.read_txn _ e (AllOrNothing result (content e) (content e))
        (λ t begun.
          lift_rule (read_size db index.id t) _ (db.read_txn e).1
            (AllOrNothing result (content e) (content e))
            (λ n read. (
              ap sized (
                  read_size-seen db lmdb index.id t n read
                  ∙ size_i64-as_i64 _
                  ∙ ap (λ f. as_i64 (size_value (f (size_key index.id))))
                      (lmdb.seen-read_txn e t begun)),
              lmdb.content-read_txn e,
            ))
            (λ _ _. lmdb.content-read_txn e) (λ p. absurd (read_size-NoPanic db index.id t p)))
        (λ _ _. lmdb.content-read_txn e)
