-- ===== src/Dynamodb/Chunks.antt =====
-- `slice::chunks` of the standard library, as src/dynamodb.rs uses it.
use findex_cloud.Base.{
  ℕ, zero, suc, ◌≤◌, List, [], ◌∷◌, ◌++◌, length, take, drop, length-take, length-drop,
  take-append-drop, ◌≡◌, ◌∙◌, ap, refl, All, arith,
}

abbrev pub concat {ℓ} : {A : Type ℓ} → List (List A) → List A
concat [] = []
concat (chunk ∷ rest) = chunk ++ concat rest

module _ {ℓ} {A : Type ℓ} where
  -- On fuel: `chunks` gives as much as there are elements, and each chunk takes one at least.
  unfoldable pub chunks_from : ℕ → ℕ → List A → List (List A)
  chunks_from zero n xs = []
  chunks_from (suc fuel) n [] = []
  chunks_from (suc fuel) n (x ∷ xs) = take n (x ∷ xs) ∷ chunks_from fuel n (drop n (x ∷ xs))

  unfoldable pub chunks : ℕ → List A → List (List A)
  chunks n xs = chunks_from (length xs) n xs

  chunks_from-concat :
      (fuel n : ℕ) (xs : List A) → 1 ≤ n → length xs ≤ fuel → concat (chunks_from fuel n xs) ≡ xs
  unfolding chunks_from
  chunks_from-concat zero n [] pos_n enough = refl
  chunks_from-concat zero n (x ∷ xs) pos_n enough = absurd (omega arith)
  chunks_from-concat (suc fuel) n [] pos_n enough = refl
  chunks_from-concat (suc fuel) n (x ∷ xs) pos_n enough =
      ap (λ rest. take n (x ∷ xs) ++ rest)
        (chunks_from-concat fuel n (drop n (x ∷ xs)) pos_n (omega (arith, length-drop n (x ∷ xs))))
      ∙ take-append-drop n (x ∷ xs)

  chunks_from-bounded :
      (fuel n : ℕ) (xs : List A)
      → 1 ≤ n
      → All (λ chunk. (1 ≤ length chunk) × (length chunk ≤ n)) (chunks_from fuel n xs)
  unfolding chunks_from
  chunks_from-bounded zero n xs pos_n = tt
  chunks_from-bounded (suc fuel) n [] pos_n = tt
  chunks_from-bounded (suc fuel) n (x ∷ xs) pos_n = (
    (omega (arith, length-take n (x ∷ xs)), omega (arith, length-take n (x ∷ xs))),
    chunks_from-bounded fuel n (drop n (x ∷ xs)) pos_n,
  )

  -- Chunks of a positive size are the list cut into pieces: joined they are the list, and each has
  -- one element at least and no more than the size.
  pub chunks-partition :
      (n : ℕ) (xs : List A)
      → 1 ≤ n
      → (concat (chunks n xs) ≡ xs)
        × All (λ chunk. (1 ≤ length chunk) × (length chunk ≤ n)) (chunks n xs)
  unfolding chunks
  chunks-partition n xs pos_n = (
    chunks_from-concat (length xs) n xs pos_n (omega arith),
    chunks_from-bounded (length xs) n xs pos_n,
  )
