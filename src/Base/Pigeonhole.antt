-- ===== src/Base/Pigeonhole.antt =====
-- Pairwise distinct members of a list are no more than the list has members.
use Prim.Native.Nat.{suc, ◌≤◌}
use mathlib.Core.Path.{◌≡◌, refl}
use mathlib.Core.Bool.{Bool, true, false, not, ◌&&◌}
use mathlib.Core.List.{List, [], ◌∷◌}
use native.Mathlib.Omega.{arith}
use myblog.Base.Tests.{if◌then◌else◌}
use myblog.Base.Lists.{length}
use myblog.Base.Equality.{Eq, ◌==◌, contains}

module _ {ℓ} {A : Type ℓ} ⦃e : Eq A⦄ where
  -- The list without the first occurrence.
  without : A → List A → List A
  without a [] = []
  without a (x ∷ xs) = if a == x then xs else x ∷ without a xs

  length-without :
      (a : A) (xs : List A) → contains xs a ≡ true → suc (length (without a xs)) ≡ length xs
  unfolding without
  length-without a [] h = cc
  length-without a (x ∷ xs) h = ground (arith, length-without a xs)

  contains-without :
      (a b : A) (xs : List A)
      → contains xs b ≡ true
      → (b == a) ≡ false
      → contains (without a xs) b ≡ true
  unfolding without
  contains-without a b [] h ne = cc
  contains-without a b (x ∷ xs) h ne = ground (arith, contains-without a b xs)

  abbrev pub distinct : List A → Bool
  distinct [] = true
  distinct (x ∷ xs) = not (contains xs x) && distinct xs

  -- Every member of the first list is a member of the second.
  abbrev pub covered : List A → List A → Bool
  covered [] ys = true
  covered (x ∷ xs) ys = contains ys x && covered xs ys

  covered-without :
      (a : A) (xs ys : List A)
      → covered xs ys ≡ true
      → contains xs a ≡ false
      → covered xs (without a ys) ≡ true
  covered-without a [] ys h ne = refl
  covered-without a (x ∷ xs) ys h ne =
      ground (arith, covered-without a xs ys, contains-without a x ys)

  pub pigeonhole :
      (xs ys : List A) → distinct xs ≡ true → covered xs ys ≡ true → length xs ≤ length ys
  pigeonhole [] ys d c = omega arith
  pigeonhole (x ∷ xs) ys d c =
      ground (arith, pigeonhole xs (without x ys), covered-without x xs ys, length-without x ys)
