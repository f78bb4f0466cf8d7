-- ===== src/Core/Signature/Laws.antt =====
-- What the signature check accepts, and that it accepts what a client signs.
use findex_cloud.Base.{
  ℕ, ◌≤◌, ◌≡◌, ◌↔◌, refl, sym, subst, ◌∙◌, ap, Bytes, Option, none, some, ◌++◌, length,
  length-append, take-append-drop, take-length-append, drop-length-append, length-take, bytes_eq,
  eq_of_beq, ==_refl, arith,
}
use findex_cloud.Words.{be_value}
use findex_cloud.Errors.{Reason, too_small_for_signature, too_small_for_timestamp, ok, done}
use findex_cloud.Errors.Laws.{>>=-eq-ok}
use findex_cloud.Core.Signature.{
  Crypto, IsKmac, next_chunk, chunk_or, check_expiration, verify_parts, check_rest,
  check_body_signature,
}

-- A chunk and the rest are the bytes.
chunk_or-eq-ok :
    (r : Reason) (n : ℕ) (bytes chunk rest : Bytes)
    → chunk_or r n bytes ≡ ok (chunk, rest)
    → (bytes ≡ chunk ++ rest) × (length chunk ≡ n)
unfolding chunk_or next_chunk
chunk_or-eq-ok r n bytes chunk rest h =
    ground (arith, take-append-drop {0} n bytes, length-take {0} n bytes)

chunk_or-append :
    (r : Reason) (chunk rest : Bytes) → chunk_or r (length chunk) (chunk ++ rest) ≡ ok (chunk, rest)
unfolding chunk_or next_chunk
chunk_or-append r chunk rest = ground (
  arith,
  take-length-append {0} chunk rest,
  drop-length-append {0} chunk rest,
  length-append {0} chunk rest,
)

check_expiration-eq-ok :
    (now : Option ℕ) (timestamp text data' : Bytes)
    → check_expiration now timestamp text ≡ ok data'
    → (data' ≡ text) × (t : ℕ) × (now ≡ some t) × (t ≤ be_value timestamp)
unfolding check_expiration
check_expiration-eq-ok none timestamp text data' h = cc
check_expiration-eq-ok (some t) timestamp text data' h = (ground arith, t, refl, ground arith)

module _ (c : Crypto) where
  open c use {callback_signature_length, deserialize_seed, derive_kmac_key, kmac}

  -- `body` carries `text`, signed for the index under a seed, and has not expired at `now`.
  pub record IsSigned (now : Option ℕ) (body index_id seed text : Bytes) : Type 0 where
    pub material : c.KeyingMaterial
    pub timestamp : Bytes
    pub time : ℕ
    pub seed_read : deserialize_seed seed ≡ done material
    pub eight : length timestamp ≡ 8
    pub body_signed :
        body ≡ kmac (derive_kmac_key material index_id) timestamp text ++ (timestamp ++ text)
    pub clock : now ≡ some time
    pub not_expired : time ≤ be_value timestamp

  module _ (now : Option ℕ) (index_id seed received timestamp text : Bytes) where
    tag : c.KeyingMaterial → Bytes
    tag material = kmac (derive_kmac_key material index_id) timestamp text

    verify_parts_inv :
        (material : c.KeyingMaterial) (out : Bytes)
        → deserialize_seed seed ≡ done material
        → verify_parts c now index_id seed received timestamp text ≡ ok out
        → (received ≡ tag material) × (check_expiration now timestamp text ≡ ok out)
    unfolding verify_parts tag
    verify_parts_inv material out read h = ground (arith, eq_of_beq received (tag material))

    verify_parts_read :
        (out : Bytes)
        → verify_parts c now index_id seed received timestamp text ≡ ok out
        → (material : c.KeyingMaterial) × (deserialize_seed seed ≡ done material)
    unfolding verify_parts
    verify_parts_read out h = ground arith

    IsSigned-of_verify :
        (body out : Bytes)
        → body ≡ received ++ (timestamp ++ text)
        → length timestamp ≡ 8
        → verify_parts c now index_id seed received timestamp text ≡ ok out
        → IsSigned now body index_id seed out
    unfolding tag
    IsSigned-of_verify body out parts eight h =
        let (material, read) = verify_parts_read out h in
        let (signed, fresh) = verify_parts_inv material out read h in
        let (same, t, clock, bound) = check_expiration-eq-ok now timestamp text out fresh in
        record {
          material = material;
          timestamp = timestamp;
          time = t;
          seed_read = read;
          eight = eight;
          body_signed = rw (same, ← signed) parts;
          clock = clock;
          not_expired = bound;
        }

    verify_parts_of_signed :
        (material : c.KeyingMaterial) (t : ℕ)
        → deserialize_seed seed ≡ done material
        → received ≡ tag material
        → now ≡ some t
        → t ≤ be_value timestamp
        → verify_parts c now index_id seed received timestamp text ≡ ok text
    unfolding verify_parts tag check_expiration
    verify_parts_of_signed material t read signed clock bound =
        rw (read, signed, ==_refl (tag material), clock) (ground arith)

  module _ (now : Option ℕ) (body index_id seed text : Bytes) where
    IsSigned-of_ok :
        check_body_signature c now body index_id seed ≡ ok text
        → IsSigned now body index_id seed text
    unfolding check_body_signature check_rest
    IsSigned-of_ok h =
        let short = too_small_for_signature (length body) in
        let late = too_small_for_timestamp (length body) in
        let (chunk, first, h1) =
          >>=-eq-ok (chunk_or short callback_signature_length body)
            (λ (p : Bytes × Bytes). check_rest c now index_id seed (length body) p.0 p.1) h in
        let (chunk', second, h2) =
          >>=-eq-ok (chunk_or late 8 chunk.1)
            (λ (p : Bytes × Bytes). verify_parts c now index_id seed chunk.0 p.0 p.1) h1 in
        let (outer, _) =
          chunk_or-eq-ok short callback_signature_length body chunk.0 chunk.1 first in
        let (inner, eight) = chunk_or-eq-ok late 8 chunk.1 chunk'.0 chunk'.1 second in
        IsSigned-of_verify now index_id seed chunk.0 chunk'.0 chunk'.1 body text
          (outer ∙ ap (λ r. chunk.0 ++ r) inner) eight h2

    ok_of_IsSigned :
        IsKmac c
        → IsSigned now body index_id seed text
        → check_body_signature c now body index_id seed ≡ ok text
    unfolding check_body_signature check_rest tag
    ok_of_IsSigned k s =
        let received = tag now index_id seed body s.timestamp text s.material in
        let size : callback_signature_length ≡ length received =
          sym (k.length-kmac (derive_kmac_key s.material index_id) s.timestamp text) in
        let short = too_small_for_signature (length body) in
        let late = too_small_for_timestamp (length body) in
        let first : chunk_or short callback_signature_length body
            ≡ ok (received, s.timestamp ++ text) =
          subst (λ n. chunk_or short n body ≡ ok (received, s.timestamp ++ text)) (sym size)
            (subst (λ b. chunk_or short (length received) b ≡ ok (received, s.timestamp ++ text))
              (sym s.body_signed) (chunk_or-append short received (s.timestamp ++ text))) in
        let second : chunk_or late 8 (s.timestamp ++ text) ≡ ok (s.timestamp, text) =
          subst (λ n. chunk_or late n (s.timestamp ++ text) ≡ ok (s.timestamp, text)) s.eight
            (chunk_or-append late s.timestamp text) in
        let third =
          verify_parts_of_signed now index_id seed received s.timestamp text s.material s.time
            s.seed_read refl s.clock s.not_expired in
        ground (arith, first, second, third)

  -- Where a KMAC has the length of a signature: `check_body_signature` returns `text` exactly when
  -- the body is a tag, an expiry of eight bytes and `text`, the tag is the KMAC of the expiry and
  -- `text` under the key derived from the seed and the index ID, and the clock can be read and is
  -- not past the expiry.
  pub check_body_signature_iff :
      (now : Option ℕ) (body index_id seed text : Bytes)
      → IsKmac c
      → (check_body_signature c now body index_id seed ≡ ok text)
        ↔ IsSigned now body index_id seed text
  check_body_signature_iff now body index_id seed text k =
      (IsSigned-of_ok now body index_id seed text, ok_of_IsSigned now body index_id seed text k)
