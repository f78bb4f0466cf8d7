-- ===== src/Core/Signature.antt =====
-- `check_body_signature` of src/core.rs. A body is a KMAC tag, an expiry of eight bytes and data.
pub mod Laws
use findex_cloud.Base.{
  ℕ, ◌≡◌, Bytes, Option, none, some, length, take, drop, leb, ltb, ◌==◌, bytes_eq, if◌then◌else◌,
  not,
}
use findex_cloud.Words.{be_value}
use findex_cloud.Errors.From
use findex_cloud.Errors.{
  Reason, too_small_for_signature, too_small_for_timestamp, before_unix_epoch, request_expired,
  invalid_signature, bad_request, Result, ok, err, Outcome, or_else, ◌>>=◌,
}

-- What `cloudproof_findex`, `cosmian_findex` and `cosmian_crypto_core` give: the two lengths, the
-- key material that a seed is read as, the key derived from it and the tag of two byte strings.
pub record Crypto : Type 1 where
  pub callback_signature_length : ℕ
  pub uid_length : ℕ
  pub KeyingMaterial : Type 0
  pub KmacKey : Type 0
  pub deserialize_seed : Bytes → Outcome KeyingMaterial
  pub derive_kmac_key : KeyingMaterial → Bytes → KmacKey
  pub kmac : KmacKey → Bytes → Bytes → Bytes

-- A KMAC with an output of `n` bytes gives `n` bytes.
pub record IsKmac (c : Crypto) : Type 0 where
  pub length-kmac :
      (key : c.KmacKey) (timestamp text : Bytes)
      → length (c.kmac key timestamp text) ≡ c.callback_signature_length

-- `Iterator::next_chunk`: the next `n` bytes and the rest, none if fewer are left.
unfoldable pub next_chunk : ℕ → Bytes → Option (Bytes × Bytes)
next_chunk n bytes = if leb n (length bytes) then some (take n bytes, drop n bytes) else none

unfoldable pub chunk_or : Reason → ℕ → Bytes → Result (Bytes × Bytes)
chunk_or reason n bytes = elim (next_chunk n bytes) [
  | none ↦ err (bad_request reason)
  | some chunk ↦ ok chunk
]

-- `SystemTime::now()` in seconds, none before the epoch, against the signed expiry.
unfoldable pub check_expiration : Option ℕ → Bytes → Bytes → Result Bytes
check_expiration none timestamp text = err (bad_request before_unix_epoch)
check_expiration (some now) timestamp text =
    if ltb (be_value timestamp) now
    then err (bad_request (request_expired now (be_value timestamp)))
    else ok text

-- The part of the function that stands after the body has been cut up.
unfoldable pub verify_parts :
    (c : Crypto) → Option ℕ → Bytes → Bytes → Bytes → Bytes → Bytes → Result Bytes
unfolding ◌>>=◌
verify_parts c now index_id seed signature_received timestamp text = do
  material ← or_else From.core (c.deserialize_seed seed)
  let key = c.derive_kmac_key material index_id
  let signature_computed = c.kmac key timestamp text
  if not (signature_received == signature_computed)
      then err invalid_signature
      else check_expiration now timestamp text

-- The part that stands after the signature has been read, of a body of `original_length` bytes.
unfoldable pub check_rest :
    (c : Crypto) → Option ℕ → Bytes → Bytes → ℕ → Bytes → Bytes → Result Bytes
unfolding ◌>>=◌
check_rest c now index_id seed original_length signature_received bytes = do
  (timestamp, text) ← chunk_or (too_small_for_timestamp original_length) 8 bytes
  verify_parts c now index_id seed signature_received timestamp text

unfoldable pub check_body_signature : (c : Crypto) → Option ℕ → Bytes → Bytes → Bytes → Result Bytes
unfolding ◌>>=◌
check_body_signature c now body index_id seed = do
  (signature_received, bytes) ←
      chunk_or (too_small_for_signature (length body)) c.callback_signature_length body
  check_rest c now index_id seed (length body) signature_received bytes
