-- ===== src/Spec/Keys.antt =====
-- Keys made of an ID, one byte and a tail are told apart.
use findex_cloud.Base.{
  ℕ, ◌+◌, Bytes, ◌∷◌, ◌++◌, length, length-append, append_cancel, ◌≡◌, ◌≢◌, ap, arith,
}

abbrev pub tagged : Bytes → ℕ → Bytes → Bytes
tagged id p tail = id ++ p ∷ tail

pub tagged_parts :
    (i j : Bytes) (p q : ℕ) (x y : Bytes)
    → length i ≡ length j
    → tagged i p x ≡ tagged j q y
    → (i ≡ j) × (p ≡ q) × (x ≡ y)
tagged_parts i j p q x y same e = let (ids, tails) = append_cancel i j same e in (ids, cc, cc)

length-tagged : (i : Bytes) (p : ℕ) (x : Bytes) → length (tagged i p x) ≡ length i + 1 + length x
length-tagged i p x = omega (arith, length-append {0} i (p ∷ x))

pub tagged_injective :
    (i j : Bytes) (p q : ℕ) (x y : Bytes)
    → length x ≡ length y
    → tagged i p x ≡ tagged j q y
    → (i ≡ j) × (p ≡ q) × (x ≡ y)
tagged_injective i j p q x y same e =
    tagged_parts i j p q x y
      (omega (arith, length-tagged i p x, length-tagged j q y, ap (length {A = ℕ}) e)) e

pub tagged_ne :
    (i j : Bytes) (p q : ℕ) (x y : Bytes)
    → length i ≡ length j
    → p ≢ q
    → tagged i p x ≢ tagged j q y
tagged_ne i j p q x y same h e = h (tagged_parts i j p q x y same e).1
