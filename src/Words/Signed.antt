-- ===== src/Words/Signed.antt =====
-- `i64`, as an integer that stands for its bit pattern.
use findex_cloud.Base.{◌+◌, ap, ℕ, ◌-◌, ◌%◌, ◌^◌, ◌≡◌, ltb, if◌then◌else◌, arith}
use findex_cloud.Words.{word_mod, add64}

-- `negsuc n` is -(n + 1).
pub data ℤ : Type 0 where
  pos : ℕ → ℤ
  negsuc : ℕ → ℤ

-- `w as i64` of a `usize`: the same 64 bits.
unfoldable pub as_i64 : ℕ → ℤ
as_i64 w =
    let bits = w % word_mod in if ltb bits (2 ^ 63) then pos bits else negsuc (word_mod - bits - 1)

-- The two's complement pattern, `v as u64`.
unfoldable pub i64_bits : ℤ → ℕ
i64_bits (pos n) = n % word_mod
i64_bits (negsuc n) = word_mod - 1 - n % word_mod

-- `a + b` on `i64`.
unfoldable pub add_i64 : ℤ → ℤ → ℤ
add_i64 a b = as_i64 (add64 (i64_bits a) (i64_bits b))

pub i64_bits-as_i64 : (w : ℕ) → i64_bits (as_i64 w) ≡ w % word_mod
unfolding i64_bits as_i64
i64_bits-as_i64 w = ground arith

pub as_i64-mod : (w : ℕ) → as_i64 (w % word_mod) ≡ as_i64 w
unfolding as_i64
as_i64-mod w = ground arith

pub add_i64-as_i64 : (a b : ℕ) → add_i64 (as_i64 a) (as_i64 b) ≡ as_i64 (a + b)
unfolding add_i64
add_i64-as_i64 a b =
    rw (i64_bits-as_i64, i64_bits-as_i64)
      (unfold add64 in rw (← as_i64-mod (a + b)) (ap as_i64 (omega arith)))

-- Adding as `i64` and adding as `usize` give the same 64 bits.
pub i64_bits-add_i64 : (a b : ℕ) → i64_bits (add_i64 (as_i64 a) (as_i64 b)) ≡ add64 a b
unfolding add_i64
i64_bits-add_i64 a b = simp i64_bits-as_i64 (unfold add64 in omega arith)
