-- ===== src/Words/RoundTrip.antt =====
-- Writing a word and reading it back.
use mathlib.Core.List.{foldl-append}
use native.Mathlib.Nat.{pow-suc}
use findex_cloud.Base.{
  ℕ, zero, suc, ◌+◌, ◌*◌, ◌/◌, ◌%◌, ◌^◌, ◌<◌, ◌≡◌, refl, ◌∙◌, Bytes, some, [], ◌∷◌, ◌++◌, length,
  length-append, arith,
}
use findex_cloud.Words.{word_mod, be_bytes, be_value, to_be_bytes, from_be_bytes}

abbrev pub IsByte : ℕ → Type 0
IsByte b = b < 256

abbrev pub IsWord : ℕ → Type 0
IsWord v = v < word_mod

pub length-be_bytes : (k v : ℕ) → length (be_bytes k v) ≡ k
unfolding be_bytes
length-be_bytes zero v = refl
length-be_bytes (suc k) v =
    omega
      (arith, length-append {0} (be_bytes k (v / 256)) (v % 256 ∷ []), length-be_bytes k (v / 256))

be_value-concat : (xs : Bytes) (b : ℕ) → be_value (xs ++ b ∷ []) ≡ be_value xs * 256 + b
unfolding be_value
be_value-concat xs b = rw foldl-append

be_value-be_bytes : (k v : ℕ) → v < 256 ^ k → be_value (be_bytes k v) ≡ v
unfolding be_bytes
be_value-be_bytes zero v h = unfold be_value in omega arith
be_value-be_bytes (suc k) v h =
    be_value-concat (be_bytes k (v / 256)) (v % 256)
    ∙ omega (arith, be_value-be_bytes k (v / 256) (omega (arith, pow-suc 256 k)))

pub length-to_be_bytes : (v : ℕ) → length (to_be_bytes v) ≡ 8
unfolding to_be_bytes
length-to_be_bytes = length-be_bytes 8

-- A word comes back from its eight bytes.
pub from_be_bytes-to_be_bytes : (v : ℕ) → IsWord v → from_be_bytes (to_be_bytes v) ≡ some v
unfolding from_be_bytes to_be_bytes
from_be_bytes-to_be_bytes v h = rw (length-be_bytes, be_value-be_bytes 8 v h)

be_value-be_bytes_8 : (v : ℕ) → be_value (be_bytes 8 v) ≡ v % word_mod
unfolding be_value be_bytes
be_value-be_bytes_8 v = omega arith

-- Eight bytes keep the low 64 bits of any number.
pub from_be_bytes_wraps : (v : ℕ) → from_be_bytes (to_be_bytes v) ≡ some (v % word_mod)
unfolding from_be_bytes to_be_bytes
from_be_bytes_wraps v = rw (length-be_bytes, be_value-be_bytes_8)
