-- ===== src/Base/SortedTables.antt =====
-- The keys of a table after ORDER BY.
use mathlib.Core.Path.{◌≡◌, refl}
use mathlib.Core.Bool.{Bool}
use mathlib.Core.List.{List, [], ◌∷◌}
use native.Mathlib.Omega.{arith}
use myblog.Base.Equality.{Eq}
use myblog.Base.Tables.{has_key, unique}
use myblog.Base.Ordering.{insert_by, sort_by}

module _ {ℓ κ} {A : Type ℓ} {K : Type κ} ⦃e : Eq K⦄ (key : A → K) (le : A → A → Bool) where
  has_key-insert_by :
      (k : K) (x : A) (ys : List A) → has_key key k (insert_by le x ys) ≡ has_key key k (x ∷ ys)
  has_key-insert_by k x [] = refl
  has_key-insert_by k x (y ∷ ys) = ground (arith, has_key-insert_by k x ys)

  pub has_key-sort_by : (k : K) (xs : List A) → has_key key k (sort_by le xs) ≡ has_key key k xs
  has_key-sort_by k [] = refl
  has_key-sort_by k (x ∷ xs) =
      ground (arith, has_key-insert_by k x (sort_by le xs), has_key-sort_by k xs)

  unique-insert_by : (x : A) (ys : List A) → unique key (insert_by le x ys) ≡ unique key (x ∷ ys)
  unique-insert_by x [] = refl
  unique-insert_by x (y ∷ ys) =
      ground (arith, has_key-insert_by (key y) x ys, unique-insert_by x ys)

  -- Sorting keeps a unique key unique.
  pub unique-sort_by : (xs : List A) → unique key (sort_by le xs) ≡ unique key xs
  unique-sort_by [] = refl
  unique-sort_by (x ∷ xs) =
      ground
        (arith, unique-insert_by x (sort_by le xs), has_key-sort_by (key x) xs, unique-sort_by xs)
