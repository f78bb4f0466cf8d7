-- ===== src/Exec.antt =====
-- An `async fn` over a shared state: the state goes in and comes back beside the result, since what
-- was written before an error or a panic stays written. The state of an external service holds
-- whatever decides its faults.
pub mod Laws
use findex_cloud.Base.{String}
use findex_cloud.Errors.{Error, Result, ok, err, panicked, Outcome, or_else}

abbrev pub Exec {ℓ κ} : Type ℓ → Type κ → Type (ℓ ⊔ κ)
Exec S A = S → Result A × S

module _ {ℓ κ} {S : Type ℓ} {A : Type κ} where
  abbrev pub pure : A → Exec S A
  pure a s = (ok a, s)

  abbrev pub raise : Error → Exec S A
  raise e s = (err e, s)

  abbrev pub lift : Result A → Exec S A
  lift r s = (r, s)

-- A call of a service with a state of its own.
abbrev pub Call {ℓ κ} : Type ℓ → Type κ → Type (ℓ ⊔ κ)
Call S A = S → Outcome A × S

-- `call.await?`, with the `From` impl that makes an `Error` of the service's own.
abbrev pub attempt {ℓ κ} : {S : Type ℓ} {A : Type κ} → (String → Error) → Call S A → Exec S A
attempt f c s = let (o, s') = c s in (or_else f o, s')

module _ {ℓ κ μ} {S : Type ℓ} {A : Type κ} {B : Type μ} where
  abbrev pub continue : Result A → (A → Exec S B) → Exec S B
  continue (ok a) f s = f a s
  continue (err e) f s = (err e, s)
  continue panicked f s = (panicked, s)

  infixl 5 ◌>>=◌
  unfoldable pub ◌>>=◌ : Exec S A → (A → Exec S B) → Exec S B
  ◌>>=◌ m f s = let (r, s') = m s in continue r f s'

infixl 5 ◌>>◌
abbrev pub ◌>>◌ {ℓ κ} : {S : Type ℓ} {B : Type κ} → Exec S (Unit {0}) → Exec S B → Exec S B
m >> k = m >>= λ _. k
