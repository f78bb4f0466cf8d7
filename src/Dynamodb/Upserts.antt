-- ===== src/Dynamodb/Upserts.antt =====
-- `upsert_entries` of src/dynamodb.rs, item by item.
pub mod Entry
use findex_cloud.Base.{
  ℕ, bytes_eq, none, some, ◌++◌, ◌≢◌, ap, sym, ◌∙◌, ◌==◌, option_eq, beq-false_of_ne, ==_refl,
  if◌then◌else◌, String, string_eq,
}
use findex_cloud.Base.HashMap.{get, insert}
use findex_cloud.Errors.{Result, ok, err, panicked, ◌>>=◌ as bind_result}
use findex_cloud.Exec.Laws.{post_rule, attempt_rule}
use findex_cloud.Core.{Index, Table, EncryptedTable, UpsertData}
use findex_cloud.Spec.{reject}
use findex_cloud.Dynamodb
use findex_cloud.Dynamodb.Items.{
  Item, get_uid_attribute_value, extract_bytes, value_column, value_item, AttributeValue, b, s,
  other, attribute, as_b,
}
use findex_cloud.Dynamodb.Client.{
  Dynamo, IsDynamo, Values, set_value, value_in, bytes_of, Conditional, written, check_failed,
  failed,
}
use findex_cloud.Dynamodb.Upserts.Entry.{SwapSteps}

module _ (db : Dynamo) (dynamo : IsDynamo db) (names : Dynamodb.Names) (n : ℕ) where
  open dynamo use {values}

  -- A run that returns is a compare and swap for each item. Of one that fails nothing is known: a
  -- call that failed may have been carried out, and so may those in flight.
  abbrev pub UpsertPost :
      Index → db.Db × EncryptedTable → UpsertData → Result EncryptedTable × db.Db → Type 0
  UpsertPost index st items (ok rejected, d) =
      SwapSteps db dynamo names n index st items (d, rejected)
  UpsertPost index st items (err _, d) = Unit
  UpsertPost index st items (panicked, d) = ⊥
