-- ===== src/Rocksdb/Locks/History.antt =====
-- What a client of src/rocksdb.rs is told of an item, against the steps of the run: between the lock
-- of an entry and the commit, other clients may act.
use findex_cloud.Base.{ℕ, Bytes, Option, [], ◌≡◌, ◌≢◌, inl, inr, sym, subst, ◌∙◌}
use findex_cloud.Errors.{Result, ok, Outcome}
use findex_cloud.Core.{EncryptedTable, UpsertItem}
use findex_cloud.Spec.{IsSized}
use findex_cloud.Spec.Relaxed.{ItemStep}
use findex_cloud.Rocksdb.Keys.{size_key, layout}
use findex_cloud.Rocksdb.Client.{Rocks, IsRocks}
use findex_cloud.Rocksdb.Accepts.{ItemPost}
use findex_cloud.Rocksdb.Locks.{
  Phase, waiting, answered, settled, System, finish_call, Step, lock, finish, elsewhere, Reach,
  start, later,
}
use findex_cloud.Rocksdb.Locks.Held.{update_cases}
use findex_cloud.Rocksdb.Locks.Invariant.{Inv, Step-Inv, finish-post}

module _ {db : Rocks} (item item' : UpsertItem) where
  settled-parts :
      (r r' : Result EncryptedTable)
      → ◌≡◌ {A = Phase db} (settled item r) (settled item' r')
      → (item ≡ item') × (r ≡ r')
  settled-parts r r' h = (cc, cc)

  answered-not_settled :
      (a : Outcome (Option Bytes × db.Txn)) (t : db.Txn) (r : Result EncryptedTable)
      → ◌≢◌ {A = Phase db} (answered item a t) (settled item' r)
  answered-not_settled a t r h = cc

  waiting-not_settled :
      (r : Result EncryptedTable) → ◌≢◌ {A = Phase db} (waiting item) (settled item' r)
  waiting-not_settled r h = cc

  pub waiting-not_answered :
      (a : Outcome (Option Bytes × db.Txn)) (t : db.Txn)
      → ◌≢◌ {A = Phase db} (waiting item) (answered item' a t)
  waiting-not_answered a t h = cc

-- In one step of this run the item of the job `i` was finished, and compared and swapped or reported
-- with the value stored.
pub data Swapped (db : Rocks) (rocks : IsRocks db) (id : Bytes) (s0 : System db) (i : ℕ)
    (item : UpsertItem) (r : EncryptedTable)
    : (s : System db) → Reach db rocks id s0 s → Type 0 where
  swapped_now :
      (s : System db) (run : Reach db rocks id s0 s) (answer : Outcome (Option Bytes × db.Txn))
      (t : db.Txn) (at : s.phase i ≡ answered item answer t)
      → ItemStep layout id
          (rocks.content s.store, [])
          item
          (rocks.content (finish_call db id item answer t s).1, r)
      → Swapped db rocks id s0 i item r _ (later run (finish i item answer t at))
  swapped_before :
      (s u : System db) (run : Reach db rocks id s0 s) (step : Step db rocks id s u)
      → Swapped db rocks id s0 i item r s run
      → Swapped db rocks id s0 i item r u (later run step)

module _ (db : Rocks) (rocks : IsRocks db) (id : Bytes) (s0 : System db) where
  open rocks use {content}

  abbrev Runs : System db → System db → Type 0
  Runs = Reach db rocks id

  abbrev AllSwapped : (s : System db) → Runs s0 s → Type 0
  AllSwapped s run =
      (i : ℕ) (item : UpsertItem) (r : EncryptedTable)
      → s.phase i ≡ settled item (ok r)
      → Swapped db rocks id s0 i item r s run

  ItemPost-ok :
      (f : Bytes → Option Bytes) (item : UpsertItem) (p : Result EncryptedTable × db.Db)
      (r : EncryptedTable)
      → p.0 ≡ ok r
      → ItemPost db rocks id f [] item p
      → ItemStep layout id (f, []) item (content p.1, r)
  ItemPost-ok f item p r e post = subst (λ q. ItemPost db rocks id f [] item (q, p.1)) e post

  finish-AllSwapped :
      (s : System db) (run : Runs s0 s) (i : ℕ) (item : UpsertItem)
      (answer : Outcome (Option Bytes × db.Txn)) (txn : db.Txn)
      (at : s.phase i ≡ answered item answer txn)
      → Inv db rocks id s
      → AllSwapped s run
      → AllSwapped _ (later run (finish i item answer txn at))
  finish-AllSwapped s run i item answer txn at inv known j item' r h =
      elim (update_cases s.phase i j _ _ h) [
        | inl (here, new) ↦
            let (same, returned) = settled-parts item item' _ _ new in
            subst
              (λ k. Swapped db rocks id s0 k item' r _ (later run (finish i item answer txn at)))
              here
              (subst
                (λ it. Swapped db rocks id s0 i it r _ (later run (finish i item answer txn at)))
                same
                (swapped_now s run answer txn at (
                  ItemPost-ok (content s.store) item (finish_call db id item answer txn s) r
                    returned (finish-post db rocks id s i item answer txn inv at))))
        | inr (_, old) ↦ swapped_before s _ run (finish i item answer txn at) (known j item' r old)
      ]

  Step-AllSwapped :
      (s t : System db) (run : Runs s0 s) (step : Step db rocks id s t)
      → Inv db rocks id s
      → AllSwapped s run
      → AllSwapped t (later run step)
  Step-AllSwapped s t run (lock i item at free) inv known j item' r h =
      elim (update_cases s.phase i j _ _ h) [
        | inl (_, new) ↦ absurd (answered-not_settled item item' _ _ _ new)
        | inr (_, old) ↦ swapped_before s _ run (lock i item at free) (known j item' r old)
      ]
  Step-AllSwapped s t run (finish i item answer txn at) inv known j item' r h =
      finish-AllSwapped s run i item answer txn at inv known j item' r h
  Step-AllSwapped s t run (elsewhere store kept sized) inv known j item r h =
      swapped_before s _ run (elsewhere store kept sized) (known j item r h)

  -- Nobody has asked for a lock.
  abbrev pub AllWaiting : Type 0
  AllWaiting = (i : ℕ) → (item : UpsertItem) × (s0.phase i ≡ waiting item)

  Reach-AllSwapped :
      (s : System db) (run : Runs s0 s)
      → AllWaiting
      → IsSized (content s0.store (size_key id))
      → Inv db rocks id s × AllSwapped s run
  Reach-AllSwapped s start waits sized = (
    record {
      sized = sized;
      held = λ j item x u t holds.
          absurd (waiting-not_answered (waits j).0 item _ t (sym (waits j).1 ∙ holds));
      apart = λ j k item item' x x' u u' t t' holds holds' other.
          absurd (waiting-not_answered (waits j).0 item _ t (sym (waits j).1 ∙ holds));
    },
    λ j item r h. absurd (waiting-not_settled (waits j).0 item _ (sym (waits j).1 ∙ h)),
  )
  Reach-AllSwapped s (later {t} run step) waits sized =
      let (inv, known) = Reach-AllSwapped t run waits sized in
      (Step-Inv db rocks id step inv, Step-AllSwapped t s run step inv known)

  -- In every interleaving of items of `upsert_entries` on RocksDB with each other and with what the
  -- locks let other clients do, from a well-formed size cell and no lock asked for: an item that
  -- has returned was finished in a step of this run, which compared and swapped it with its size
  -- counted, or reported it with the value stored.
  pub settled-Swapped :
      (s : System db) (run : Runs s0 s) (i : ℕ) (item : UpsertItem) (r : EncryptedTable)
      → AllWaiting
      → IsSized (content s0.store (size_key id))
      → s.phase i ≡ settled item (ok r)
      → Swapped db rocks id s0 i item r s run
  settled-Swapped s run i item r waits sized told =
      (Reach-AllSwapped s run waits sized).1 i item r told
