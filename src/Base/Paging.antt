-- ===== src/Base/Paging.antt =====
-- OFFSET and LIMIT, and that the pages make up the whole list.
use Prim.Native.Nat.{ℕ, zero, suc, ◌+◌, ◌-◌, ◌*◌, ◌/◌, ◌≤◌, ◌<◌, max}
use mathlib.Core.Path.{◌≡◌, refl, ap, subst, ◌∙◌}
use mathlib.Core.List.{List, [], ◌∷◌, ◌++◌, map, map-append}
use native.Mathlib.Omega.{arith}
use native.Mathlib.Nat.{lt-div-mul-add}
use myblog.Base.Lists.{length, take, drop, take_all}

-- `max(1, math.ceil(total / size))`
abbrev pub page_count : ℕ → ℕ → ℕ
page_count total size = max 1 ((total + (size - 1)) / size)

reach_total :
    (q total size : ℕ) → 0 < size → total + (size - 1) < q * size + size → total ≤ max 1 q * size
reach_total zero total size h k = ground arith
reach_total (suc q) total size h k = ground arith

enough_pages : (total size : ℕ) → 0 < size → total ≤ page_count total size * size
enough_pages total size h =
    reach_total ((total + (size - 1)) / size) total size h (lt-div-mul-add h)

module _ {ℓ} {A : Type ℓ} where
  -- `.offset((page - 1) * size).limit(size)`, for a page from 1 on.
  abbrev pub page_of : ℕ → ℕ → List A → List A
  page_of page size rows = take size (drop ((page - 1) * size) rows)

  -- The pages from 1 to `n`, one after another.
  abbrev pub first_pages : ℕ → ℕ → List A → List A
  first_pages zero size rows = []
  first_pages (suc n) size rows = first_pages n size rows ++ page_of (suc n) size rows

  take-split : (n m : ℕ) (xs : List A) → take (n + m) xs ≡ take n xs ++ take m (drop n xs)
  take-split zero m xs = let e : 0 + m ≡ m = omega arith in rw e
  take-split (suc n) zero [] = let e : suc n + 0 ≡ suc n = omega arith in rw e
  take-split (suc n) (suc m) [] = let e : suc n + suc m ≡ suc (n + suc m) = omega arith in rw e
  take-split (suc n) m (x ∷ xs) =
      let e : suc n + m ≡ suc (n + m) = omega arith in rw e (ap (◌∷◌ x) (take-split n m xs))

  first_pages-take : (n size : ℕ) (rows : List A) → first_pages n size rows ≡ take (n * size) rows
  first_pages-take zero size rows = let e : 0 * size ≡ 0 = omega arith in rw e
  first_pages-take (suc n) size rows =
      let more : suc n * size ≡ n * size + size = omega arith in
      let start : suc n - 1 ≡ n = omega arith in
      rw (more, start, take-split (n * size) size rows, first_pages-take n size rows)

  pub pages_cover :
      (size : ℕ) (rows : List A)
      → 0 < size
      → first_pages (page_count (length rows) size) size rows ≡ rows
  pages_cover size rows h = rw (
    first_pages-take (page_count (length rows) size) size rows,
    take_all (page_count (length rows) size * size) rows (enough_pages (length rows) size h),
  )

-- The answers of a reader who asks for the pages from 1 to `n`.
abbrev pub read_pages {ℓ} : {B : Type ℓ} → (ℕ → List B) → ℕ → List B
read_pages items zero = []
read_pages items (suc n) = read_pages items n ++ items (suc n)

module _ {ℓ κ} {A : Type ℓ} {B : Type κ} (f : A → B) (items : ℕ → List B) (size : ℕ) (rows : List A)
    (each : (n : ℕ) → items (suc n) ≡ map f (page_of (suc n) size rows)) where
  read_pages-first : (n : ℕ) → read_pages items n ≡ map f (first_pages n size rows)
  read_pages-first zero = refl
  read_pages-first (suc n) = rw (each n, read_pages-first n, map-append)

  -- Where each answer is the page of the rows, the pages together are all rows.
  pub read_pages-cover :
      (total : ℕ)
      → length rows ≡ total
      → 0 < size
      → read_pages items (page_count total size) ≡ map f rows
  read_pages-cover total same h =
      subst (λ k. read_pages items (page_count k size) ≡ map f rows) same
        (read_pages-first (page_count (length rows) size) ∙ ap (map f) (pages_cover size rows h))
