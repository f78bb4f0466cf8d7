-- ===== src/Errors.antt =====
-- src/errors.rs: the error type of every operation, its HTTP status, and results.
-- The texts of `BadRequest` and `DynamoDb` are kept as data, one constructor for each format
-- string with the values that it prints, but for a whole item. The errors of the drivers are kept as their texts.
pub mod From
pub mod Laws
use findex_cloud.Base.{ℕ, Bytes, String}

pub data Reason : Type 0 where
  too_small_for_signature : ℕ → Reason
  too_small_for_timestamp : ℕ → Reason
  before_unix_epoch : Reason
  request_expired : ℕ → ℕ → Reason
  unknown_index : Bytes → Reason
  cannot_parse_fake_time : Bytes → Reason
  cannot_open_log : Reason
  cannot_convert_to_json : Reason
  cannot_write_log : Reason

pub data DynamoFault : Type 0 where
  sdk : String → DynamoFault
  missing_value : Bytes → DynamoFault
  missing_attribute : String → DynamoFault
  not_bytes : String → DynamoFault
  not_a_string : String → DynamoFault
  no_uid_at_tail : Bytes → DynamoFault
  bad_date : Bytes → DynamoFault

pub data Error : Type 0 where
  sqlx : String → Error
  invalid_signature : Error
  wrong_encoding : Error
  json : Error
  wrong_index_public_id : Error
  findex : String → Error
  rocksdb : String → Error
  heed : String → Error
  dynamo_db : DynamoFault → Error
  bad_request : Reason → Error

pub data StatusCode : Type 0 where
  ok_200 bad_request_400 forbidden_403 internal_server_error_500 : StatusCode

-- `ResponseError::status_code`
unfoldable pub status_code : Error → StatusCode
status_code (sqlx _) = internal_server_error_500
status_code (dynamo_db _) = internal_server_error_500
status_code invalid_signature = forbidden_403
status_code wrong_encoding = bad_request_400
status_code json = bad_request_400
status_code wrong_index_public_id = bad_request_400
status_code (findex _) = bad_request_400
status_code (rocksdb _) = internal_server_error_500
status_code (heed _) = internal_server_error_500
status_code (bad_request _) = bad_request_400

-- `panicked` is the end of a request whose thread panics (`unwrap`, a slice out of range).
pub data Result {ℓ} (T : Type ℓ) : Type ℓ where
  panicked : Result T
  ok : T → Result T
  err : Error → Result T

-- `?`: the first error or panic ends the function.
infixl 5 ◌>>=◌
unfoldable pub ◌>>=◌ {ℓ κ} : {X : Type ℓ} {Y : Type κ} → Result X → (X → Result Y) → Result Y
panicked >>= next = panicked
(err error) >>= next = err error
(ok x) >>= next = next x

-- What a library call gives back: a value, or the text of its error.
pub data Outcome {ℓ} (A : Type ℓ) : Type ℓ where
  done : A → Outcome A
  failed : String → Outcome A

-- `?` on a library's result: the `From` impl of the error makes an `Error` of it.
abbrev pub or_else {ℓ} : {A : Type ℓ} → (String → Error) → Outcome A → Result A
or_else f (done a) = ok a
or_else f (failed text) = err (f text)

-- The status of a handler's answer. An answer that panics has none.
unfoldable pub status_of {ℓ} : {A : Type ℓ} → Result A → Result StatusCode
status_of (ok _) = ok ok_200
status_of (err e) = ok (status_code e)
status_of panicked = panicked
