-- ===== src/Rocksdb/Merge.antt =====
-- `merge_add` of src/rocksdb.rs, the merge operator of the size cells.
pub mod Grouping
use findex_cloud.Base.{
  ℕ, ◌%◌, ◌+◌, Bytes, Option, none, some, List, [], ◌∷◌, ◌++◌, length, ◌≡◌, refl, ap, nat_beq,
  if◌then◌else◌, arith,
}
use findex_cloud.Words.{word_mod, add64, be_value, to_be_bytes, from_be_bytes}
use findex_cloud.Words.RoundTrip.{from_be_bytes_wraps, length-to_be_bytes}
use findex_cloud.Spec.{size_value, IsSized}

-- `result += usize::from_be_bytes(bytes)`, or none where there are not eight bytes.
unfoldable pub add_operand : ℕ → Bytes → Option ℕ
add_operand result operand = elim (from_be_bytes operand) [
  | none ↦ none
  | some value ↦ some (add64 result value)
]

unfoldable pub add_operands : ℕ → List Bytes → Option ℕ
unfolding add_operand
add_operands result [] = some result
add_operands result (operand ∷ operands) = elim (add_operand result operand) [
  | none ↦ none
  | some sum ↦ add_operands sum operands
]

unfoldable pub add_existing : Option Bytes → Option ℕ
unfolding add_operand
add_existing none = some 0
add_existing (some existing_value) = add_operand 0 existing_value

unfoldable pub merge_add : Option Bytes → List Bytes → Option Bytes
unfolding add_existing add_operands
merge_add existing_value operands = elim (add_existing existing_value) [
  | none ↦ none
  | some result ↦ elim (add_operands result operands) [
    | none ↦ none
    | some sum ↦ some (to_be_bytes sum)
  ]
]

pub read_sized : (bytes : Bytes) → length bytes ≡ 8 → (w : ℕ) × (from_be_bytes bytes ≡ some w)
unfolding from_be_bytes
read_sized bytes h = (be_value bytes, ground arith)

add64_zero : (n : ℕ) → add64 0 (n % word_mod) ≡ add64 0 n
unfolding add64
add64_zero n = omega arith

add64_add : (a n : ℕ) → add64 (add64 0 a) (n % word_mod) ≡ add64 a n
unfolding add64
add64_add a n = omega arith

-- Merging the bytes of a length into a size cell that is absent or has eight bytes adds the length
-- on 64-bit words.
pub merge_add-size :
    (o : Option Bytes) (n : ℕ)
    → IsSized o
    → merge_add o (to_be_bytes n ∷ []) ≡ some (to_be_bytes (add64 (size_value o) n))
unfolding merge_add size_value
merge_add-size none n h = ground (arith, from_be_bytes_wraps n, add64_zero n)
merge_add-size (some bytes) n h =
    let (w, read) = read_sized bytes h in ground (arith, read, from_be_bytes_wraps n, add64_add w n)
