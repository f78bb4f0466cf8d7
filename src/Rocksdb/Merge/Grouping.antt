-- ===== src/Rocksdb/Merge/Grouping.antt =====
-- RocksDB may merge operands in groups, early or late: the operator gives one result.
use findex_cloud.Base.{
  ℕ, Bytes, Option, none, some, List, [], ◌∷◌, ◌++◌, ◌≡◌, refl, ap, subst, Option-cases, inl, inr,
  arith,
}
use findex_cloud.Words.{add64, to_be_bytes, from_be_bytes}
use findex_cloud.Words.RoundTrip.{IsWord, from_be_bytes-to_be_bytes}
use findex_cloud.Rocksdb.Merge.{add_operand, add_operands, add_existing, merge_add}

add64-IsWord : (a b : ℕ) → IsWord (add64 a b)
unfolding add64
add64-IsWord a b = omega arith

add64_zero_left : (s : ℕ) → IsWord s → add64 0 s ≡ s
unfolding add64
add64_zero_left s h = omega arith

add64_assoc : (a b c : ℕ) → add64 (add64 a b) c ≡ add64 a (add64 b c)
unfolding add64
add64_assoc a b c = omega arith

add_operand-IsWord : (r s : ℕ) (b : Bytes) → add_operand r b ≡ some s → IsWord s
unfolding add_operand
add_operand-IsWord r s b h = elim (Option-cases (from_be_bytes b)) [
  | inl bad ↦ absurd (ground arith)
  | inr (v, read) ↦ let e : add64 r v ≡ s = ground arith in subst IsWord e (add64-IsWord r v)
]

add_operands-IsWord :
    (ops : List Bytes) (r s : ℕ) → IsWord r → add_operands r ops ≡ some s → IsWord s
unfolding add_operands
add_operands-IsWord [] r s h e = let same : r ≡ s = cc in subst IsWord same h
add_operands-IsWord (op ∷ ops) r s h e = elim (Option-cases (add_operand r op)) [
  | inl bad ↦ absurd (ground arith)
  | inr (t, read) ↦ add_operands-IsWord ops t s (add_operand-IsWord r t op read) (ground arith)
]

add_existing-IsWord : (o : Option Bytes) (s : ℕ) → add_existing o ≡ some s → IsWord s
unfolding add_existing
add_existing-IsWord none s h = let same : 0 ≡ s = cc in subst IsWord same (omega arith)
add_existing-IsWord (some b) s h = add_operand-IsWord 0 s b h

-- A sum that has been written and is read again goes on as it was.
add_existing-to_be_bytes : (s : ℕ) → IsWord s → add_existing (some (to_be_bytes s)) ≡ some s
unfolding add_existing add_operand
add_existing-to_be_bytes s h = ground (arith, from_be_bytes-to_be_bytes s h, add64_zero_left s h)

add_operands-append :
    (xs ys : List Bytes) (r : ℕ)
    → add_operands r (xs ++ ys)
      ≡ elim (add_operands r xs) [ none ↦ none | some s ↦ add_operands s ys ]
unfolding add_operands
add_operands-append [] ys r = refl
add_operands-append (x ∷ xs) ys r = elim (Option-cases (add_operand r x)) [
  | inl bad ↦ ground arith
  | inr (t, read) ↦ ground (arith, add_operands-append xs ys t)
]

-- The second group of operands is merged into the cell that the first group has left.
abbrev pub then_merge : Option Bytes → List Bytes → Option Bytes
then_merge none operands = none
then_merge (some bytes) operands = merge_add (some bytes) operands

-- Merging two groups of operands into a size cell one group after the other gives what merging them
-- all at once gives, also where an operand has not eight bytes.
pub merge_add-append :
    (existing : Option Bytes) (xs ys : List Bytes)
    → merge_add existing (xs ++ ys) ≡ then_merge (merge_add existing xs) ys
unfolding merge_add
merge_add-append existing xs ys = elim (Option-cases (add_existing existing)) [
  | inl bad ↦ ground arith
  | inr (r, read) ↦ elim (Option-cases (add_operands r xs)) [
    | inl bad ↦ ground (arith, add_operands-append xs ys r)
    | inr (s, sum) ↦
        let word = add_operands-IsWord xs r s (add_existing-IsWord existing r read) sum in
        ground (arith, add_operands-append xs ys r, add_existing-to_be_bytes s word)
  ]
]

-- A sum started at `r` is `r` more than the sum started at `t`.
add_operands-shift :
    (xs : List Bytes) (r t s : ℕ)
    → add_operands t xs ≡ some s
    → add_operands (add64 r t) xs ≡ some (add64 r s)
unfolding add_operands add_operand
add_operands-shift [] r t s h = let same : t ≡ s = cc in ap (λ n. some (add64 r n)) same
add_operands-shift (x ∷ xs) r t s h = elim (Option-cases (from_be_bytes x)) [
  | inl bad ↦ absurd (ground arith)
  | inr (v, read) ↦ ground (arith, add64_assoc r t v, add_operands-shift xs r (add64 t v) s)
]

add64_zero_right : (r : ℕ) → IsWord r → add64 r 0 ≡ r
unfolding add64
add64_zero_right r h = omega arith

-- Operands that `merge_add` has merged among themselves count, as one operand, for what they count
-- one by one.
pub merge_add-partial :
    (existing : Option Bytes) (xs ys : List Bytes) (merged : Bytes)
    → merge_add none xs ≡ some merged
    → merge_add existing (merged ∷ ys) ≡ merge_add existing (xs ++ ys)
unfolding merge_add
merge_add-partial existing xs ys merged h = elim (Option-cases (add_operands 0 xs)) [
  | inl bad ↦ absurd (unfold add_existing in ground arith)
  | inr (s, sum) ↦ elim (Option-cases (add_existing existing)) [
    | inl bad ↦ ground arith
    | inr (r, read) ↦
        let word = add_existing-IsWord existing r read in
        let word_s = add_operands-IsWord xs 0 s (omega arith) sum in
        let written : merged ≡ to_be_bytes s = unfold add_existing in ground arith in
        let start : add_operands r xs ≡ some (add64 r s) =
          subst (λ n. add_operands n xs ≡ some (add64 r s)) (add64_zero_right r word)
            (add_operands-shift xs r 0 s sum) in
        let joined = add_operands-append xs ys r in
        let first : add_operand r merged ≡ some (add64 r s) =
          unfold add_operand in ground (arith, written, from_be_bytes-to_be_bytes s word_s) in
        unfold add_operands in ground (arith, joined, start, first, read)
  ]
]
