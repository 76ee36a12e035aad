-- ===== src/Base/Tables.antt =====
-- Tables as lists of rows: the queries by key that the repositories make, and what they keep.
use Prim.Native.Nat.{ℕ, ◌+◌}
use mathlib.Core.Path.{◌≡◌, refl}
use mathlib.Core.Bool.{Bool, true, false}
use mathlib.Core.Option.{Option, none, some}
use mathlib.Core.List.{List, [], ◌∷◌, ◌++◌}
use native.Mathlib.Omega.{arith}
use myblog.Base.Tests.{if◌then◌else◌}
use myblog.Base.Lists.{count}
use myblog.Base.Equality.{Eq, ◌==◌}

abbrev pub indicator : Bool → ℕ
indicator true = 1
indicator false = 0

module _ {ℓ κ} {A : Type ℓ} {K : Type κ} ⦃e : Eq K⦄ (key : A → K) where
  -- `session.get(Model, k)`: the row with that primary key.
  abbrev pub row_at : K → List A → Option A
  row_at k [] = none
  row_at k (x ∷ xs) = if key x == k then some x else row_at k xs

  -- Assigning to the attributes of the row that `session.get` finds.
  abbrev pub update_at : K → (A → A) → List A → List A
  update_at k f [] = []
  update_at k f (x ∷ xs) = if key x == k then f x ∷ xs else x ∷ update_at k f xs

  -- `DELETE … WHERE key = k`
  abbrev pub delete_at : K → List A → List A
  delete_at k [] = []
  delete_at k (x ∷ xs) = if key x == k then delete_at k xs else x ∷ delete_at k xs

  -- Is there a row with that key?
  abbrev pub has_key : K → List A → Bool
  has_key k [] = false
  has_key k (x ∷ xs) = if key x == k then true else has_key k xs

  -- A UNIQUE constraint.
  abbrev pub unique : List A → Bool
  unique [] = true
  unique (x ∷ xs) = if has_key (key x) xs then false else unique xs

  pub row_at-key : (k : K) (xs : List A) (x : A) → row_at k xs ≡ some x → key x ≡ k
  row_at-key k [] z h = cc
  row_at-key k (y ∷ xs) z h = ground (arith, row_at-key k xs z)

  pub has_key-row_at : (k : K) (xs : List A) (x : A) → row_at k xs ≡ some x → has_key k xs ≡ true
  has_key-row_at k [] z h = cc
  has_key-row_at k (y ∷ xs) z h = ground (arith, has_key-row_at k xs z)

  pub has_key-none : (k : K) (xs : List A) → row_at k xs ≡ none → has_key k xs ≡ false
  has_key-none k [] h = refl
  has_key-none k (y ∷ xs) h = ground (arith, has_key-none k xs)

  pub delete_at_absent : (k : K) (xs : List A) → has_key k xs ≡ false → delete_at k xs ≡ xs
  delete_at_absent k [] h = refl
  delete_at_absent k (y ∷ xs) h = ground (arith, delete_at_absent k xs)

  pub has_key-append :
      (k : K) (xs ys : List A)
      → has_key k (xs ++ ys) ≡ (if has_key k xs then true else has_key k ys)
  has_key-append k [] ys = refl
  has_key-append k (x ∷ xs) ys = ground (arith, has_key-append k xs ys)

  pub has_key-delete_at :
      (k j : K) (xs : List A)
      → has_key j (delete_at k xs) ≡ (if k == j then false else has_key j xs)
  has_key-delete_at k j [] = ground arith
  has_key-delete_at k j (x ∷ xs) = ground (arith, has_key-delete_at k j xs)

  pub has_key-update_at :
      (k j : K) (f : A → A)
      → ((x : A) → key (f x) ≡ key x)
      → (xs : List A) → has_key j (update_at k f xs) ≡ has_key j xs
  has_key-update_at k j f same [] = refl
  has_key-update_at k j f same (x ∷ xs) = ground (arith, same x, has_key-update_at k j f same xs)

  -- The constraint after an insert, an update of other columns, and a delete.
  pub unique-append :
      (xs : List A) (y : A)
      → unique xs ≡ true
      → has_key (key y) xs ≡ false
      → unique (xs ++ y ∷ []) ≡ true
  unique-append [] y u fresh = refl
  unique-append (x ∷ xs) y u fresh =
      ground (arith, unique-append xs y, has_key-append (key x) xs (y ∷ []))

  pub unique-update_at :
      (k : K) (f : A → A)
      → ((x : A) → key (f x) ≡ key x)
      → (xs : List A) → unique (update_at k f xs) ≡ unique xs
  unique-update_at k f same [] = refl
  unique-update_at k f same (x ∷ xs) =
      ground (arith, same x, has_key-update_at k (key x) f same xs, unique-update_at k f same xs)

  pub unique-delete_at : (k : K) (xs : List A) → unique xs ≡ true → unique (delete_at k xs) ≡ true
  unique-delete_at k [] u = refl
  unique-delete_at k (x ∷ xs) u =
      ground (arith, unique-delete_at k xs, has_key-delete_at k (key x) xs)

  -- How the number of rows that pass a test changes.
  pub count-update_at :
      (q : A → Bool) (k : K) (f : A → A) (xs : List A) (x : A)
      → row_at k xs ≡ some x
      → count q (update_at k f xs) + indicator (q x) ≡ count q xs + indicator (q (f x))
  count-update_at q k f [] z h = cc
  count-update_at q k f (y ∷ xs) z h = ground (arith, count-update_at q k f xs z)

  pub count-delete_at :
      (q : A → Bool) (k : K) (xs : List A) (x : A)
      → unique xs ≡ true
      → row_at k xs ≡ some x
      → count q (delete_at k xs) + indicator (q x) ≡ count q xs
  count-delete_at q k [] z u h = cc
  count-delete_at q k (y ∷ xs) z u h =
      ground (arith, count-delete_at q k xs z, delete_at_absent k xs)

  -- Reading back what was written.
  pub row_at-update_at_self :
      (k : K) (f : A → A)
      → ((x : A) → key (f x) ≡ key x)
      → (xs : List A) (x : A) → row_at k xs ≡ some x
      → row_at k (update_at k f xs) ≡ some (f x)
  row_at-update_at_self k f same [] z h = cc
  row_at-update_at_self k f same (y ∷ xs) z h =
      ground (arith, same y, row_at-update_at_self k f same xs z)

  pub row_at-update_at_ne :
      (k j : K) (f : A → A)
      → ((x : A) → key (f x) ≡ key x)
      → (xs : List A) → (k == j) ≡ false
      → row_at j (update_at k f xs) ≡ row_at j xs
  row_at-update_at_ne k j f same [] ne = refl
  row_at-update_at_ne k j f same (y ∷ xs) ne =
      ground (arith, same y, row_at-update_at_ne k j f same xs ne)

  pub row_at-append_self :
      (xs : List A) (y : A) → row_at (key y) xs ≡ none → row_at (key y) (xs ++ y ∷ []) ≡ some y
  row_at-append_self [] y h = ground arith
  row_at-append_self (x ∷ xs) y h = ground (arith, row_at-append_self xs y)

  pub row_at-append_found :
      (k : K) (xs ys : List A) (x : A) → row_at k xs ≡ some x → row_at k (xs ++ ys) ≡ some x
  row_at-append_found k [] ys x h = cc
  row_at-append_found k (z ∷ xs) ys x h = ground (arith, row_at-append_found k xs ys x)

  pub update_at-append_self :
      (f : A → A) (xs : List A) (y : A)
      → row_at (key y) xs ≡ none
      → update_at (key y) f (xs ++ y ∷ []) ≡ xs ++ f y ∷ []
  update_at-append_self f [] y h = ground arith
  update_at-append_self f (x ∷ xs) y h = ground (arith, update_at-append_self f xs y)

  -- Doing it again changes nothing.
  pub update_at_twice :
      (k : K) (f : A → A)
      → ((x : A) → key (f x) ≡ key x)
      → ((x : A) → f (f x) ≡ f x)
      → (xs : List A) → update_at k f (update_at k f xs) ≡ update_at k f xs
  update_at_twice k f same again [] = refl
  update_at_twice k f same again (x ∷ xs) =
      ground (arith, same x, again x, update_at_twice k f same again xs)

  pub delete_at_twice : (k : K) (xs : List A) → delete_at k (delete_at k xs) ≡ delete_at k xs
  delete_at_twice k [] = refl
  delete_at_twice k (x ∷ xs) = ground (arith, delete_at_twice k xs)

  pub row_at-delete_at_self : (k : K) (xs : List A) → row_at k (delete_at k xs) ≡ none
  row_at-delete_at_self k [] = refl
  row_at-delete_at_self k (x ∷ xs) = ground (arith, row_at-delete_at_self k xs)
