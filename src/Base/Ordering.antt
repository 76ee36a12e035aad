-- ===== src/Base/Ordering.antt =====
-- ORDER BY with a key of one's own: a sort by a Boolean test.
use Prim.Native.Nat.{suc}
use mathlib.Core.Path.{◌≡◌, refl, ◌∙◌}
use mathlib.Core.Logic.{inl, inr}
use mathlib.Core.Bool.{Bool, true, false, ◌&&◌}
use mathlib.Core.List.{List, [], ◌∷◌}
use native.Mathlib.Omega.{arith}
use myblog.Base.Tests.{if◌then◌else◌, Bool-cases}
use myblog.Base.Lists.{count, length, All, keep, length-keep}

module _ {ℓ} {A : Type ℓ} (le : A → A → Bool) where
  abbrev pub insert_by : A → List A → List A
  insert_by x [] = x ∷ []
  insert_by x (y ∷ ys) = if le x y then x ∷ y ∷ ys else y ∷ insert_by x ys

  -- `ORDER BY`, where `le x y` tells that `x` may stand before `y`.
  abbrev pub sort_by : List A → List A
  sort_by [] = []
  sort_by (x ∷ xs) = insert_by x (sort_by xs)

  -- `x` may stand before every element.
  abbrev pub before_all : A → List A → Bool
  before_all x [] = true
  before_all x (y ∷ ys) = le x y && before_all x ys

  -- Of any two elements, the one that stands first may stand before the other.
  abbrev pub ordered : List A → Bool
  ordered [] = true
  ordered (x ∷ xs) = before_all x xs && ordered xs

  count-insert_by :
      (p : A → Bool) (x : A) (ys : List A) → count p (insert_by x ys) ≡ count p (x ∷ ys)
  count-insert_by p x [] = refl
  count-insert_by p x (y ∷ ys) = ground (arith, count-insert_by p x ys)

  -- Sorting keeps, for every test, the number of elements that pass it.
  pub count-sort_by : (p : A → Bool) (xs : List A) → count p (sort_by xs) ≡ count p xs
  count-sort_by p [] = refl
  count-sort_by p (x ∷ xs) = ground (arith, count-insert_by p x (sort_by xs), count-sort_by p xs)

  length-insert_by : (x : A) (ys : List A) → length (insert_by x ys) ≡ suc (length ys)
  length-insert_by x [] = refl
  length-insert_by x (y ∷ ys) = ground (arith, length-insert_by x ys)

  pub length-sort_by : (xs : List A) → length (sort_by xs) ≡ length xs
  length-sort_by [] = refl
  length-sort_by (x ∷ xs) = ground (arith, length-insert_by x (sort_by xs), length-sort_by xs)

  -- A sorted selection has as many elements as pass the test.
  pub length-sort_keep : (p : A → Bool) (xs : List A) → length (sort_by (keep p xs)) ≡ count p xs
  length-sort_keep p xs = length-sort_by (keep p xs) ∙ length-keep p xs

  module _ {κ} (P : A → Type κ) where
    All-insert_by : (x : A) (ys : List A) → P x → All P ys → All P (insert_by x ys)
    All-insert_by x [] p h = (p, tt)
    All-insert_by x (y ∷ ys) p (q, h) = elim (Bool-cases (le x y)) [
      | inl b ↦ rw b (p, (q, h))
      | inr b ↦ rw b (q, All-insert_by x ys p h)
    ]

    pub All-sort_by : (xs : List A) → All P xs → All P (sort_by xs)
    All-sort_by [] h = tt
    All-sort_by (x ∷ xs) (p, h) = All-insert_by x (sort_by xs) p (All-sort_by xs h)

  module _ (total : (x y : A) → le x y ≡ false → le y x ≡ true)
      (trans : (x y z : A) → le x y ≡ true → le y z ≡ true → le x z ≡ true) where
    before_all_trans :
        (x y : A) (ys : List A) → le x y ≡ true → before_all y ys ≡ true → before_all x ys ≡ true
    before_all_trans x y [] h k = refl
    before_all_trans x y (z ∷ ys) h k = ground (arith, trans x y z, before_all_trans x y ys)

    before_all-insert_by :
        (z x : A) (ys : List A)
        → le z x ≡ true
        → before_all z ys ≡ true
        → before_all z (insert_by x ys) ≡ true
    before_all-insert_by z x [] h k = ground arith
    before_all-insert_by z x (y ∷ ys) h k = ground (arith, before_all-insert_by z x ys)

    ordered-insert_by : (x : A) (ys : List A) → ordered ys ≡ true → ordered (insert_by x ys) ≡ true
    ordered-insert_by x [] h = refl
    ordered-insert_by x (y ∷ ys) h = ground (
      arith,
      total x y,
      before_all_trans x y ys,
      before_all-insert_by y x ys,
      ordered-insert_by x ys,
    )

    -- With a total and transitive test, the result is ordered.
    pub ordered-sort_by : (xs : List A) → ordered (sort_by xs) ≡ true
    ordered-sort_by [] = refl
    ordered-sort_by (x ∷ xs) = ordered-insert_by x (sort_by xs) (ordered-sort_by xs)
