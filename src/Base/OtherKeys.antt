-- ===== src/Base/OtherKeys.antt =====
-- A table with two keys: what an update at one of them does to the other.
use mathlib.Core.Path.{◌≡◌, refl}
use mathlib.Core.Bool.{true}
use mathlib.Core.Option.{some}
use mathlib.Core.List.{List, [], ◌∷◌}
use native.Mathlib.Omega.{arith}
use myblog.Base.Equality.{Eq}
use myblog.Base.Tables.{row_at, update_at, has_key, unique}

module _ {ℓ κ} {A : Type ℓ} {K : Type κ} ⦃e : Eq K⦄ (key other : A → K) where
  pub has_key-row_other :
      (k : K) (rows : List A) (x : A)
      → row_at key k rows ≡ some x
      → has_key other (other x) rows ≡ true
  has_key-row_other k [] x h = cc
  has_key-row_other k (y ∷ rows) x h = ground (arith, has_key-row_other k rows x)

module _ {ℓ κ} {A : Type ℓ} {K : Type κ} ⦃e : Eq K⦄ (key other : A → K) where
  -- A row that is found by the one key is found by the other.
  pub row_at-other :
      (k : K) (rows : List A) (x : A)
      → unique other rows ≡ true
      → row_at key k rows ≡ some x
      → row_at other (other x) rows ≡ some x
  row_at-other k [] x u h = cc
  row_at-other k (y ∷ rows) x u h =
      ground (arith, row_at-other k rows x, has_key-row_other key other k rows x)

  module _ (f : A → A) (same : (x : A) → other (f x) ≡ other x) where
    pub has_key-update_other :
        (id k : K) (rows : List A)
        → has_key other k (update_at key id f rows) ≡ has_key other k rows
    has_key-update_other id k [] = refl
    has_key-update_other id k (x ∷ rows) = ground (arith, same x, has_key-update_other id k rows)

    pub unique-update_other :
        (id : K) (rows : List A) → unique other (update_at key id f rows) ≡ unique other rows
    unique-update_other id [] = refl
    unique-update_other id (x ∷ rows) =
        ground (arith, same x, has_key-update_other id (other x) rows, unique-update_other id rows)

    -- A row that was found by its other key, and then changed, is found again.
    pub row_at-update_other :
        (k : K) (rows : List A) (x : A)
        → unique key rows ≡ true
        → row_at other k rows ≡ some x
        → row_at other k (update_at key (key x) f rows) ≡ some (f x)
    row_at-update_other k [] x u h = cc
    row_at-update_other k (y ∷ rows) x u h =
        ground (arith, same y, row_at-update_other k rows x, has_key-row_other other key k rows x)

module _ {ℓ κ} {A : Type ℓ} {K : Type κ} ⦃e : Eq K⦄ (key : A → K) (f g : A → A) where
  -- An update by a key reaches one row, so only what it does to that row counts.
  pub update_at-one_row :
      (k : K) (rows : List A) (x : A)
      → row_at key k rows ≡ some x
      → f x ≡ g x
      → update_at key k f rows ≡ update_at key k g rows
  update_at-one_row k [] x h same = refl
  update_at-one_row k (y ∷ rows) x h same = ground (arith, update_at-one_row k rows x)
