-- ===== src/Rocksdb/Locks/Invariant.antt =====
-- While an item of src/rocksdb.rs holds the lock of its entry, the value that it has read stays the
-- one stored.
use findex_cloud.Base.{ℕ, Bytes, Option, [], ◌≡◌, ◌≢◌, inl, inr, refl, ap, ap₂, sym, subst, ◌∙◌}
use findex_cloud.Errors.{Result, Outcome, done, failed}
use findex_cloud.Core.{EncryptedTable, UpsertItem}
use findex_cloud.Spec.{IsSized}
use findex_cloud.Rocksdb.Keys.{size_key}
use findex_cloud.Rocksdb.Client.{Rocks, IsRocks}
use findex_cloud.Rocksdb.Accepts.{ItemPost, IsFresh}
use findex_cloud.Rocksdb.Writes.{on_lock-post}
use findex_cloud.Rocksdb.Locks.{
  Phase, answered, settled, update, System, Holds, entry, lock_call, finish_call, Step, lock,
  finish, elsewhere,
}
use findex_cloud.Rocksdb.Locks.Held.{
  update_cases, ItemPost-elsewhere, ItemPost-IsSized, not_locked-content,
}

module _ {db : Rocks} (item item' : UpsertItem) (t t' : db.Txn)
    (a a' : Outcome (Option Bytes × db.Txn)) where
  answered-parts :
      ◌≡◌ {A = Phase db} (answered item a t) (answered item' a' t') → (item ≡ item') × (a ≡ a')
  answered-parts h = (cc, cc)

settled-not_answered :
    {db : Rocks} (item item' : UpsertItem) (r : Result EncryptedTable)
    (a : Outcome (Option Bytes × db.Txn)) (t : db.Txn)
    → ◌≢◌ {A = Phase db} (settled item r) (answered item' a t)
settled-not_answered item item' r a t h = cc

module _ (db : Rocks) (rocks : IsRocks db) (id : Bytes) where
  open rocks use {content}

  pub record Inv (s : System db) : Type 0 where
    pub sized : IsSized (content s.store (size_key id))
    pub held :
        (j : ℕ) (item : UpsertItem) (existing : Option Bytes) (u t : db.Txn)
        → Holds s j item existing u t
        → (existing ≡ content s.store (entry db id item)) × IsFresh db rocks id u
    pub apart :
        (j k : ℕ) (item item' : UpsertItem) (x x' : Option Bytes) (u u' t t' : db.Txn)
        → Holds s j item x u t
        → Holds s k item' x' u' t'
        → j ≢ k
        → entry db id item ≢ entry db id item'

  lock-content :
      (s : System db) (item : UpsertItem) → content (lock_call db id item s).2 ≡ content s.store
  lock-content s item =
      rocks.content-get_for_update (db.transaction s.store).0 (entry db id item)
        (db.transaction s.store).1
      ∙ rocks.content-transaction s.store

  -- A lock that is given reads what is stored.
  lock-reads :
      (s : System db) (item : UpsertItem) (existing : Option Bytes) (u : db.Txn)
      → (lock_call db id item s).0 ≡ done (existing, u)
      → (existing ≡ content s.store (entry db id item)) × IsFresh db rocks id u
  lock-reads s item existing u given =
      let (t, d) = db.transaction s.store in
      let k = entry db id item in
      (
        rocks.get_for_update-reads t u k d existing given
            ∙ ap (λ g. g k)
                (rocks.pending-transaction s.store (content d) ∙ rocks.content-transaction s.store),
        λ g.
            rocks.pending-get_for_update t u k d existing g given
            ∙ rocks.pending-transaction s.store g,
      )

  pub finish-post :
      (s : System db) (i : ℕ) (item : UpsertItem) (answer : Outcome (Option Bytes × db.Txn))
      (t : db.Txn)
      → Inv s
      → s.phase i ≡ answered item answer t
      → ItemPost db rocks id (content s.store) [] item (finish_call db id item answer t s)
  finish-post s i item answer t inv at =
      on_lock-post db rocks id (content s.store) inv.sized answer t item [] s.store
        (λ existing u given. inv.held i item existing u t (at ∙ ap (λ a. answered item a t) given))
        refl

  module _ (s : System db) (inv : Inv s) (i : ℕ) (item : UpsertItem)
      (answer : Outcome (Option Bytes × db.Txn)) (t : db.Txn)
      (at : s.phase i ≡ answered item answer t) where
    finished-entry :
        (j : ℕ) (item' : UpsertItem) (x : Option Bytes) (u t' : db.Txn)
        → i ≢ j
        → Holds s j item' x u t'
        → content (finish_call db id item answer t s).1 (entry db id item')
          ≡ content s.store (entry db id item')
    finished-entry j item' x u t' other holds = go answer refl
      where
        go :
            (a : Outcome (Option Bytes × db.Txn))
            → a ≡ answer
            → content (finish_call db id item answer t s).1 (entry db id item')
              ≡ content s.store (entry db id item')
        go (done (existing, u')) e =
            ItemPost-elsewhere db rocks id (content s.store) [] item item'
              (finish_call db id item answer t s)
              (inv.apart i j item item' existing x u' u t t'
                (at ∙ ap (λ a. answered item a t) (sym e)) holds other)
              (finish-post s i item answer t inv at)
        go (failed text) e =
            ap (λ g. g (entry db id item'))
              (subst (λ a. content (finish_call db id item a t s).1 ≡ content s.store) e
                (not_locked-content db rocks id (content s.store) inv.sized text t item [] s.store
                  refl))

    finish-Inv : Inv (record {
      store = (finish_call db id item answer t s).1;
      phase = update s.phase i (settled item (finish_call db id item answer t s).0);
    })
    finish-Inv = record {
      sized =
          ItemPost-IsSized db rocks id (content s.store) [] item (finish_call db id item answer t s)
            inv.sized (finish-post s i item answer t inv at);
      held = λ j item' x u t' holds. elim (update_cases s.phase i j _ _ holds) [
        | inl (_, new) ↦ absurd (settled-not_answered item item' _ _ t' new)
        | inr (other, old) ↦
            let (read, fresh) = inv.held j item' x u t' old in
            (read ∙ sym (finished-entry j item' x u t' other old), fresh)
      ];
      apart = λ j k item' item'' x x' u u' t' t'' holds holds' other.
          elim (update_cases s.phase i j _ _ holds) [
            | inl (_, new) ↦ absurd (settled-not_answered item item' _ _ t' new)
            | inr (_, old) ↦ elim (update_cases s.phase i k _ _ holds') [
              | inl (_, new) ↦ absurd (settled-not_answered item item'' _ _ t'' new)
              | inr (_, old') ↦ inv.apart j k item' item'' x x' u u' t' t'' old old' other
            ]
          ];
    }

  module _ (s : System db) (inv : Inv s) (i : ℕ) (item : UpsertItem)
      (free : (existing : Option Bytes) (u : db.Txn)
        → (lock_call db id item s).0 ≡ done (existing, u)
        → (j : ℕ) (item' : UpsertItem) (existing' : Option Bytes) (u' t' : db.Txn)
        → Holds s j item' existing' u' t'
        → entry db id item ≢ entry db id item') where
    lock-Inv : Inv (record {
      store = (lock_call db id item s).2;
      phase =
          update s.phase i (answered item (lock_call db id item s).0 (lock_call db id item s).1);
    })
    lock-Inv = record {
      sized = subst (λ g. IsSized (g (size_key id))) (sym (lock-content s item)) inv.sized;
      held = λ j item' x u t' holds. elim (update_cases s.phase i j _ _ holds) [
        | inl (_, new) ↦
            let (same, given) = answered-parts item item' _ t' _ _ new in
            let (read, fresh) = lock-reads s item x u given in
            (read ∙ ap₂ (λ it g. g (entry db id it)) same (sym (lock-content s item)), fresh)
        | inr (_, old) ↦
            let (read, fresh) = inv.held j item' x u t' old in
            (read ∙ ap (λ g. g (entry db id item')) (sym (lock-content s item)), fresh)
      ];
      apart = λ j k item' item'' x x' u u' t' t'' holds holds' other.
          elim (update_cases s.phase i j _ _ holds) [
            | inl (here, new) ↦ elim (update_cases s.phase i k _ _ holds') [
              | inl (here', _) ↦ absurd (other (sym here ∙ here'))
              | inr (_, old') ↦
                  let (same, given) = answered-parts item item' _ t' _ _ new in
                  subst (λ it. entry db id it ≢ entry db id item'') same
                    (free x u given k item'' x' u' t'' old')
            ]
            | inr (_, old) ↦ elim (update_cases s.phase i k _ _ holds') [
              | inl (_, new') ↦
                  let (same, given) = answered-parts item item'' _ t'' _ _ new' in
                  λ e. free x' u' given j item' x u t' old (ap (entry db id) same ∙ sym e)
              | inr (_, old') ↦ inv.apart j k item' item'' x x' u u' t' t'' old old' other
            ]
          ];
    }

  pub Step-Inv : {s t : System db} → Step db rocks id s t → Inv s → Inv t
  Step-Inv {s} (lock i item at free) inv = lock-Inv s inv i item free
  Step-Inv {s} (finish i item answer t at) inv = finish-Inv s inv i item answer t at
  Step-Inv {s} (elsewhere store kept sized) inv = record {
    sized = sized;
    held = λ j item x u t holds.
        let (read, fresh) = inv.held j item x u t holds in
        (read ∙ sym (kept j item x u t holds), fresh);
    apart = inv.apart;
  }
