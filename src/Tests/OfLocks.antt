-- ===== src/Tests/OfLocks.antt =====
-- The interleaved items of src/rocksdb.rs at a concrete schedule.
use findex_cloud.Base.{
  ℕ, zero, suc, some, none, [], ◌∷◌, ◌≡◌, ◌≢◌, refl, ap, sym, inl, inr, ◌∙◌, ℕ_discrete, Bytes,
  Option,
}
use findex_cloud.Core.{UpsertItem}
use findex_cloud.Rocksdb.Locks.{
  Phase, System, waiting, answered, Holds, entry, update, lock_call, Reach, start, later, lock,
  finish,
}
use findex_cloud.Core.{Table}
use findex_cloud.Errors.{Outcome}
use findex_cloud.Rocksdb.Keys.{layout-IsInjective}
use findex_cloud.Rocksdb.Locks.Held.{update_cases}
use findex_cloud.Rocksdb.Locks.History.{Swapped, AllWaiting, waiting-not_answered, settled-Swapped}
use findex_cloud.Tests.Memory.{rocks, rocks_laws}
use findex_cloud.Tests.OfRocksdb.{program, sized}
use findex_cloud.Tests.Samples.{alpha, store}

locks_program : Unit {0}
unfolding program ℕ_discrete
locks_program = tt

-- A change of the entry 7, and new entries.
abbrev change : UpsertItem
change = record { uid = 7 ∷ []; old_value = some (70 ∷ []); new_value = 71 ∷ [] }

abbrev fresh : UpsertItem
fresh = record { uid = 8 ∷ []; old_value = none; new_value = 80 ∷ [] }

abbrev items : ℕ → UpsertItem
items zero = change
items (suc n) = fresh

abbrev system : System rocks
system = record { store = store; phase = λ i. waiting (items i) }

system-AllWaiting : AllWaiting rocks rocks_laws alpha.id system
system-AllWaiting i = (items i, refl)

no_lock :
    (j : ℕ) (item : UpsertItem) (x : Option Bytes) (u t : rocks.Txn)
    → Holds system j item x u t
    → entry rocks alpha.id change ≢ entry rocks alpha.id item
no_lock j item x u t holds = absurd (waiting-not_answered (items j) item _ t holds)

abbrev locked : System rocks
locked = record {
  store = (lock_call rocks alpha.id change system).2;
  phase = update system.phase 0 (
      answered change (lock_call rocks alpha.id change system).0
        (lock_call rocks alpha.id change system).1);
}

uids_apart : fresh.uid ≢ change.uid
uids_apart e = cc

entries_apart : entry rocks alpha.id fresh ≢ entry rocks alpha.id change
entries_apart e =
    uids_apart
      (layout-IsInjective.key_injective alpha.id alpha.id Table.entries Table.entries fresh.uid
        change.uid refl e).2

held_item :
    (item item' : UpsertItem) (a a' : Outcome (Option Bytes × rocks.Txn)) (t t' : rocks.Txn)
    → ◌≡◌ {A = Phase rocks} (answered item a t) (answered item' a' t')
    → item ≡ item'
held_item item item' a a' t t' h = cc

-- Only the item 0 holds a lock, and of another entry.
other_lock :
    (j : ℕ) (item : UpsertItem) (x : Option Bytes) (u t : rocks.Txn)
    → Holds locked j item x u t
    → entry rocks alpha.id fresh ≢ entry rocks alpha.id item
other_lock j item x u t holds e = elim (update_cases system.phase 0 j _ _ holds) [
  | inl (_, new) ↦
      entries_apart (e ∙ ap (entry rocks alpha.id) (sym (held_item change item _ _ _ _ new)))
  | inr (_, old) ↦ absurd (waiting-not_answered (items j) item _ t old)
]

-- While the item 0 holds its lock, the item 1 takes that of another entry.
abbrev ran : (t : System rocks) × Reach rocks rocks_laws alpha.id system t
unfolding locks_program
ran = (
  _,
  later
      (later
        (later start (lock 0 change refl (λ _ _ _ j item x u t holds. no_lock j item x u t holds)))
        (lock 1 fresh refl (λ _ _ _ j item x u t holds. other_lock j item x u t holds)))
      (finish 0 change _ _ refl),
)

settled-Swapped_example : Swapped rocks rocks_laws alpha.id system 0 change [] ran.0 ran.1
unfolding locks_program
settled-Swapped_example =
    settled-Swapped rocks rocks_laws alpha.id system ran.0 ran.1 0 change [] system-AllWaiting sized
      refl
