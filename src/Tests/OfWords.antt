-- ===== src/Tests/OfWords.antt =====
-- Words, errors and the signature check at concrete inputs.
use findex_cloud.Base.{some, none, [], ◌∷◌, ◌≡◌, refl, ◌↔◌, ◌^◌, ◌-◌, arith, bytes_beq}
use findex_cloud.Words.{to_be_bytes, from_be_bytes, be_bytes, be_value, add64}
use findex_cloud.Words.RoundTrip.{from_be_bytes-to_be_bytes}
use findex_cloud.Words.Signed.{as_i64, i64_bits, add_i64, negsuc, pos, i64_bits-add_i64}
use findex_cloud.Errors.{
  ◌>>=◌, ok, err, invalid_signature, request_expired, bad_request, too_small_for_signature,
  too_small_for_timestamp,
}
use findex_cloud.Core.Signature.{
  check_body_signature, check_rest, verify_parts, check_expiration, chunk_or, next_chunk,
}
use findex_cloud.Core.Signature.Laws.{IsSigned, check_body_signature_iff}
use findex_cloud.Tests.Memory.{crypto, crypto-IsKmac}
use findex_cloud.Tests.Samples.{alpha, signed_body}

program : Unit {0}
unfolding to_be_bytes from_be_bytes be_bytes be_value add64 as_i64 i64_bits add_i64
    check_body_signature check_rest verify_parts check_expiration chunk_or next_chunk bytes_beq
    ◌>>=◌
program = tt

words : (to_be_bytes 258 ≡ 0 ∷ 0 ∷ 0 ∷ 0 ∷ 0 ∷ 0 ∷ 1 ∷ 2 ∷ []) × (from_be_bytes (1 ∷ []) ≡ none)
unfolding program
words = (refl, refl)

signed_words : (as_i64 (2 ^ 64 - 1) ≡ negsuc 0) × (add_i64 (negsuc 1) (pos 3) ≡ pos 1)
unfolding program
signed_words = (refl, refl)

from_be_bytes-to_be_bytes_example : from_be_bytes (to_be_bytes 123456789) ≡ some 123456789
from_be_bytes-to_be_bytes_example = from_be_bytes-to_be_bytes 123456789 (omega arith)

i64_bits-add_i64_example :
    i64_bits (add_i64 (as_i64 (2 ^ 64 - 5)) (as_i64 7)) ≡ add64 (2 ^ 64 - 5) 7
i64_bits-add_i64_example = i64_bits-add_i64 (2 ^ 64 - 5) 7

-- A body is accepted until its expiry, and refused afterwards or for another key.
bodies :
    (check_body_signature crypto (some 100) (signed_body (13 ∷ []) (8 ∷ [])) alpha.id (13 ∷ [])
      ≡ ok (8 ∷ []))
    × (check_body_signature crypto (some 101) (signed_body (13 ∷ []) (8 ∷ [])) alpha.id (13 ∷ [])
        ≡ err (bad_request (request_expired 101 100)))
    × (check_body_signature crypto (some 100) (signed_body (13 ∷ []) (8 ∷ [])) alpha.id (14 ∷ [])
        ≡ err invalid_signature)
    × (check_body_signature crypto (some 100) (1 ∷ []) alpha.id (13 ∷ [])
        ≡ err (bad_request (too_small_for_signature 1)))
    × (check_body_signature crypto (some 100) (1 ∷ 2 ∷ 3 ∷ []) alpha.id (13 ∷ [])
        ≡ err (bad_request (too_small_for_timestamp 3)))
unfolding program
bodies = (refl, refl, refl, refl, refl)

check_body_signature_iff_example :
    let body = signed_body (13 ∷ []) (8 ∷ 80 ∷ []) in
    (check_body_signature crypto (some 99) body alpha.id (13 ∷ []) ≡ ok (8 ∷ 80 ∷ []))
    ↔ IsSigned crypto (some 99) body alpha.id (13 ∷ []) (8 ∷ 80 ∷ [])
check_body_signature_iff_example =
    check_body_signature_iff crypto (some 99) (signed_body (13 ∷ []) (8 ∷ 80 ∷ [])) alpha.id
      (13 ∷ []) (8 ∷ 80 ∷ []) crypto-IsKmac
