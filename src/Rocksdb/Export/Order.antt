-- ===== src/Rocksdb/Export/Order.antt =====
-- The order of keys in RocksDB, bytewise, and the keys that have a common prefix.
use findex_cloud.Base.{
  Bytes, [], ◌∷◌, ◌++◌, Bool, true, false, ◌≡◌, refl, ltb, nat_beq, ◌||◌, ◌&&◌, arith,
}
use findex_cloud.Rocksdb.Export.{starts_with}

-- The bytewise order: no byte of the first list is above one of the second at the first difference.
unfoldable pub lex : Bytes → Bytes → Bool
lex [] key = true
lex (x ∷ xs) [] = false
lex (x ∷ xs) (y ∷ ys) = ltb x y || nat_beq x y && lex xs ys

-- From a prefix on, the keys that start with it come first.
pub starts_with-false :
    (prefix key next : Bytes)
    → lex prefix key ≡ true
    → starts_with prefix key ≡ false
    → lex key next ≡ true
    → starts_with prefix next ≡ false
unfolding lex starts_with
starts_with-false [] key next h s t = absurd cc
starts_with-false (x ∷ xs) [] next h s t = absurd cc
starts_with-false (x ∷ xs) (y ∷ ys) [] h s t = refl
starts_with-false (x ∷ xs) (y ∷ ys) (z ∷ zs) h s t = ground (arith, starts_with-false xs ys zs)

pub starts_with-append : (prefix rest : Bytes) → starts_with prefix (prefix ++ rest) ≡ true
unfolding starts_with
starts_with-append [] rest = refl
starts_with-append (x ∷ xs) rest = ground (arith, starts_with-append xs rest)

pub lex-append : (prefix rest : Bytes) → lex prefix (prefix ++ rest) ≡ true
unfolding lex
lex-append [] rest = refl
lex-append (x ∷ xs) rest = ground (arith, lex-append xs rest)

pub rest_of :
    (prefix key : Bytes) → starts_with prefix key ≡ true → (rest : Bytes) × (key ≡ prefix ++ rest)
unfolding starts_with
rest_of [] key h = (key, refl)
rest_of (x ∷ xs) [] h = absurd cc
rest_of (x ∷ xs) (y ∷ ys) h =
    let same : starts_with xs ys ≡ true = ground arith in
    let head : x ≡ y = ground arith in let (rest, e) = rest_of xs ys same in (rest, cc)
