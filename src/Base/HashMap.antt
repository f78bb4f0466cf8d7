-- ===== src/Base/HashMap.antt =====
-- `std::collections::HashMap` as an association list with at most one entry for each key. The
-- order of the list is the order of iteration, which Rust leaves open.
use mathlib.Core.Path.{◌≡◌, refl}
use mathlib.Core.Logic.{◌≢◌}
use mathlib.Core.Option.{Option, none, some}
use mathlib.Core.List.{List, [], ◌∷◌}
use native.Mathlib.Omega.{arith}
use findex_cloud.Base.Tests.{if◌then◌else◌}
use findex_cloud.Base.Eq.{PartialEq, ◌==◌}
use findex_cloud.Base.Lists.{All}

module _ {ℓ κ} {K : Type ℓ} {V : Type κ} ⦃e : PartialEq K⦄ where
  unfoldable pub get : K → List (K × V) → Option V
  get key [] = none
  get key ((head, value) ∷ entries) = if head == key then some value else get key entries

  unfoldable pub remove : K → List (K × V) → List (K × V)
  remove key [] = []
  remove key ((head, value) ∷ entries) =
      let rest = remove key entries in if head == key then rest else (head, value) ∷ rest

  unfoldable pub insert : K → V → List (K × V) → List (K × V)
  insert key value [] = (key, value) ∷ []
  insert key value ((head, old) ∷ entries) =
      if head == key then (key, value) ∷ entries else (head, old) ∷ insert key value entries

  pub get-remove :
      (key other : K) (entries : List (K × V))
      → get other (remove key entries) ≡ (if key == other then none else get other entries)
  unfolding get remove
  get-remove key other [] = ground arith
  get-remove key other ((head, value) ∷ entries) = ground (
    arith,
    get-remove key other entries,
    e.same_iff head key,
    e.same_iff head other,
    e.same_iff key other,
  )

  pub get-insert :
      (key other : K) (value : V) (entries : List (K × V))
      → get other (insert key value entries)
        ≡ (if key == other then some value else get other entries)
  unfolding get insert
  get-insert key other value [] = refl
  get-insert key other value ((head, old) ∷ entries) = ground (
    arith,
    e.same_iff key other,
    get-insert key other value entries,
    e.same_iff head other,
    e.same_iff head key,
  )

-- No key stands twice: the maps and sets of the program have distinct keys.
module _ {ℓ κ} {K : Type ℓ} {V : Type κ} where
  abbrev pub DistinctKeys : List (K × V) → Type ℓ
  DistinctKeys [] = Unit
  DistinctKeys ((k, v) ∷ m) = All (λ e. e.0 ≢ k) m × DistinctKeys m
