-- ===== src/Base/AllTables.antt =====
-- What holds of every row of a table, and of the elements of a sorted list.
use mathlib.Core.Path.{◌≡◌, subst}
use mathlib.Core.Option.{some, some-injective}
use mathlib.Core.List.{List, [], ◌∷◌}
use mathlib.Core.Logic.{inl, inr}
use myblog.Base.Tests.{Bool-cases}
use myblog.Base.Lists.{All}
use myblog.Base.Equality.{Eq, ◌==◌, Text}
use myblog.Base.Tables.{update_at, delete_at, row_at}
use myblog.Base.Sorted.{sorted, insert_sorted, text_le}

module _ {ℓ κ λ'} {A : Type ℓ} {K : Type κ} ⦃e : Eq K⦄ (P : A → Type λ') (key : A → K) where
  pub row_at-All : (k : K) (xs : List A) (x : A) → All P xs → row_at key k xs ≡ some x → P x
  row_at-All k [] x h found = cc
  row_at-All k (y ∷ xs) x (p, h) found = elim (Bool-cases (key y == k)) [
    | inl same ↦ subst P (some-injective y x (rw same at found)) p
    | inr other ↦ row_at-All k xs x h (rw other at found)
  ]

  pub All-update_at :
      (k : K) (f : A → A) (xs : List A)
      → ((x : A) → P x → P (f x))
      → All P xs
      → All P (update_at key k f xs)
  All-update_at k f [] keep h = tt
  All-update_at k f (x ∷ xs) keep (p, h) = elim (Bool-cases (key x == k)) [
    | inl same ↦ rw same (keep x p, h)
    | inr other ↦ rw other (p, All-update_at k f xs keep h)
  ]

  pub All-delete_at : (k : K) (xs : List A) → All P xs → All P (delete_at key k xs)
  All-delete_at k [] h = tt
  All-delete_at k (x ∷ xs) (p, h) = elim (Bool-cases (key x == k)) [
    | inl same ↦ rw same (All-delete_at k xs h)
    | inr other ↦ rw other (p, All-delete_at k xs h)
  ]

module _ {λ'} (P : Text → Type λ') where
  All-insert_sorted : (t : Text) (ts : List Text) → P t → All P ts → All P (insert_sorted t ts)
  unfolding insert_sorted
  All-insert_sorted t [] p h = (p, tt)
  All-insert_sorted t (s ∷ ts) p (q, h) = elim (Bool-cases (text_le t s)) [
    | inl before ↦ rw before (p, (q, h))
    | inr behind ↦ rw behind (q, All-insert_sorted t ts p h)
  ]

  pub All-sorted : (ts : List Text) → All P ts → All P (sorted ts)
  unfolding sorted
  All-sorted [] h = tt
  All-sorted (t ∷ ts) (p, h) = All-insert_sorted t (sorted ts) p (All-sorted ts h)
