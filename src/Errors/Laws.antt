-- ===== src/Errors/Laws.antt =====
-- Reading a successful chain backwards, and what the statuses say.
use findex_cloud.Base.{◌≡◌, ◌≢◌, refl, ◌↔◌, String, Bool, true, false, if◌then◌else◌}
use findex_cloud.Errors.{
  Error, sqlx, rocksdb, heed, dynamo_db, internal_server_error_500, status_code, Result, ok, err,
  panicked, Outcome, done, failed, or_else, ◌>>=◌,
}

-- A chain that returns has a first step that returns.
pub >>=-eq-ok {ℓ κ} :
    {X : Type ℓ} {Y : Type κ} (first : Result X) (next : X → Result Y) {y : Y}
    → (first >>= next) ≡ ok y
    → (x : X) × (first ≡ ok x) × (next x ≡ ok y)
unfolding ◌>>=◌
>>=-eq-ok (ok x) next returned = (x, refl, returned)
>>=-eq-ok panicked next returned = cc
>>=-eq-ok (err _) next returned = cc

-- An error comes from one of the databases.
abbrev pub IsDatabaseError : Error → Type 0
IsDatabaseError (sqlx _) = Unit
IsDatabaseError (rocksdb _) = Unit
IsDatabaseError (heed _) = Unit
IsDatabaseError (dynamo_db _) = Unit
IsDatabaseError _ = ⊥

-- The HTTP status is 500 exactly for the errors of the four databases.
pub status_code-500_iff :
    (e : Error) → (status_code e ≡ internal_server_error_500) ↔ IsDatabaseError e
unfolding status_code
status_code-500_iff (sqlx _) = ((λ _. tt), λ _. refl)
status_code-500_iff (rocksdb _) = ((λ _. tt), λ _. refl)
status_code-500_iff (heed _) = ((λ _. tt), λ _. refl)
status_code-500_iff (dynamo_db _) = ((λ _. tt), λ _. refl)
status_code-500_iff _ = ((λ h. cc), λ h. elim h [ ])

pub or_else-eq-ok {ℓ} :
    {A : Type ℓ} (f : String → Error) (o : Outcome A) {a : A} → or_else f o ≡ ok a → o ≡ done a
or_else-eq-ok f (done a) h = cc
or_else-eq-ok f (failed text) h = cc

-- Two `ok` are equal as their values are.
pub ok-injective {ℓ} : {A : Type ℓ} {a b : A} → ok a ≡ ok b → a ≡ b
ok-injective h = cc

-- No step of a chain panics.
abbrev pub NoPanic {ℓ} : {A : Type ℓ} → Result A → Type ℓ
NoPanic r = r ≢ panicked

pub NoPanic-ok {ℓ} : {A : Type ℓ} (a : A) → NoPanic (ok a)
NoPanic-ok a h = cc

pub NoPanic-or_else {ℓ} : {A : Type ℓ} (f : String → Error) (o : Outcome A) → NoPanic (or_else f o)
NoPanic-or_else f (done a) h = cc
NoPanic-or_else f (failed text) h = cc

pub NoPanic-bind {ℓ κ} :
    {A : Type ℓ} {B : Type κ} (m : Result A) (f : A → Result B)
    → NoPanic m
    → ((a : A) → NoPanic (f a))
    → NoPanic (m >>= f)
unfolding ◌>>=◌
NoPanic-bind (ok a) f hm hf = hf a
NoPanic-bind (err e) f hm hf = λ h. cc
NoPanic-bind panicked f hm hf = absurd (hm refl)

pub NoPanic-if {ℓ} :
    {A : Type ℓ} (b : Bool) (r r' : Result A)
    → NoPanic r
    → NoPanic r'
    → NoPanic (if b then r else r')
NoPanic-if true r r' h h' = h
NoPanic-if false r r' h h' = h'
