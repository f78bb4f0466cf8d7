-- ===== src/Main/Startup/Calls.antt =====
-- What src/main.rs and the `create` functions of the drivers ask of the machine at the start, and
-- computations that may fail with an `io::Error` or panic.
use findex_cloud.Base.{Option, Bool, String}
use findex_cloud.Errors.{Outcome, done, failed as call_failed}
use findex_cloud.Exec.{Call}
use findex_cloud.Dynamodb.Metadata.{Creation}

pub data IoResult (A : Type 0) : Type 0 where
  panicked : IoResult A
  ok : A → IoResult A
  failed : String → IoResult A

abbrev pub Io : Type 0 → Type 0 → Type 0
Io S A = S → IoResult A × S

abbrev pub or_failed : {A : Type 0} → Outcome A → IoResult A
or_failed (done a) = ok a
or_failed (call_failed text) = failed text

abbrev pub or_panicked : {A : Type 0} → Outcome A → IoResult A
or_panicked (done a) = ok a
or_panicked (call_failed text) = panicked

module _ {S A : Type 0} where
  abbrev pub pure : A → Io S A
  pure a s = (ok a, s)

  abbrev pub panic : Io S A
  panic s = (panicked, s)

  -- `call?`
  abbrev pub io : Call S A → Io S A
  io c s = let (o, s') = c s in (or_failed o, s')

  -- `call.expect(..)`, and `call.unwrap_or_else(|e| panic!(..))`
  abbrev pub expect : Call S A → Io S A
  expect c s = let (o, s') = c s in (or_panicked o, s')

module _ {S A B : Type 0} where
  abbrev pub continue : IoResult A → (A → Io S B) → Io S B
  continue (ok a) f s = f a s
  continue (failed text) f s = (failed text, s)
  continue panicked f s = (panicked, s)

  infixl 5 ◌>>=◌
  unfoldable pub ◌>>=◌ : Io S A → (A → Io S B) → Io S B
  ◌>>=◌ m f s = let (r, s') = m s in continue r f s'

infixl 5 ◌>>◌
abbrev pub ◌>>◌ : {S B : Type 0} → Io S (Unit {0}) → Io S B → Io S B
m >> k = m >>= λ _. k

-- The environment, the file system, the four drivers and the HTTP server. A variable of the
-- environment is none if it is not set or not Unicode.
pub record Machine : Type 1 where
  pub State : Type 0
  pub var : String → State → Option String
  pub exists : String → State → Bool
  pub dotenv : Call State (Unit {0})
  pub create_dir_all : String → Call State (Unit {0})
  pub open_lmdb : String → Call State (Unit {0})
  pub create_lmdb_database : Call State (Unit {0})
  pub open_rocksdb : String → Call State (Unit {0})
  pub database_exists : String → Call State Bool
  pub create_database : String → Call State (Unit {0})
  pub connect : String → Call State (Unit {0})
  pub migrate : Call State (Unit {0})
  pub create_table : String → String → State → Creation × State
  pub bind : String → Call State (Unit {0})
  pub run : Call State (Unit {0})
