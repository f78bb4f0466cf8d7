-- ===== src/Words.antt =====
-- `usize`, `u64` and `i64` of a 64-bit target, and their big-endian bytes, as core.rs, rocksdb.rs
-- and heed.rs use them. Sums wrap as they do in a release build.
pub mod RoundTrip
pub mod Signed
use findex_cloud.Base.{
  ℕ, zero, suc, ◌+◌, ◌*◌, ◌/◌, ◌%◌, ◌^◌, Bytes, Option, none, some, [], ◌∷◌, ◌++◌, foldl, length,
  nat_beq, if◌then◌else◌,
}

abbrev pub word_mod : ℕ
word_mod = 2 ^ 64

-- `a + b` on 64-bit words.
unfoldable pub add64 : ℕ → ℕ → ℕ
add64 a b = (a + b) % word_mod

-- The `k` low bytes of a number, the most significant first.
unfoldable pub be_bytes : ℕ → ℕ → Bytes
be_bytes zero v = []
be_bytes (suc k) v = be_bytes k (v / 256) ++ v % 256 ∷ []

unfoldable pub be_value : Bytes → ℕ
be_value = foldl (λ acc b. acc * 256 + b) 0

unfoldable pub to_be_bytes : ℕ → Bytes
to_be_bytes = be_bytes 8

-- `bytes.try_into::<[u8; 8]>().map(from_be_bytes)`: none unless there are eight bytes.
unfoldable pub from_be_bytes : Bytes → Option ℕ
from_be_bytes bytes = if nat_beq (length bytes) 8 then some (be_value bytes) else none
