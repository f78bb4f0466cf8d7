-- ===== src/Errors/From.antt =====
-- The conversions of src/errors.rs from the errors of the libraries, which come as their texts. The
-- SDK's is `sdk_error` of Dynamodb.
use findex_cloud.Base.{String}
use findex_cloud.Errors
use findex_cloud.Errors.{Error}

abbrev pub sqlx : String → Error
sqlx text = Errors.sqlx text

abbrev pub rocksdb : String → Error
rocksdb text = Errors.rocksdb text

abbrev pub heed : String → Error
heed text = Errors.heed text

-- The text is dropped.
abbrev pub serde_json : String → Error
serde_json text = Errors.json

abbrev pub utf8 : String → Error
utf8 text = Errors.wrong_encoding

abbrev pub core : String → Error
core text = Errors.findex text

abbrev pub set : String → Error
set text = Errors.findex text
