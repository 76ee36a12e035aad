-- ===== src/Posts/UniqueSlug.antt =====
-- services/post-service/app/application/commands/handlers.py, `_unique_slug`: the loop over `base`,
-- `base-2`, `base-3`, … up to the first slug that is not taken. Each round meets another taken slug,
-- so one more round than there are posts is enough.
use mathlib.Core.Option.{some-injective, none-ne-some}
use myblog.Base.{
  ℕ, suc, zero, ◌<◌, ◌^◌, Text, ◌≤◌, length, List, ◌≢◌, Option, Bool, ◌++◌, ◌≡◌, some, [], contains,
  true, ◌+◌, ◌∷◌, arith, none, if◌then◌else◌, sym, map, false, length-append, refl, ap, Bool-cases,
  list_eq, number_eq, string_eq, option_eq, inl, inr, Option-cases,
}
use myblog.Base.Decimal.{decimal, decimal-injective, length-decimal}
use myblog.Base.Pigeonhole.{pigeonhole, distinct, covered}
use myblog.Posts.Repository.{PostModel, slug_taken, post_slug}

-- `f"{base}-{n}"`
abbrev pub numbered : Text → ℕ → Text
numbered base n = base ++ b'-' ∷ decimal n

slug_loop : (Text → Bool) → Text → ℕ → ℕ → Text → Option Text
slug_loop taken base zero n slug = none
slug_loop taken base (suc fuel) n slug =
    let rest = slug_loop taken base fuel (n + 1) (numbered base n) in
    if taken slug then rest else some slug

unfoldable pub free_slug : Text → Option Text → List PostModel → Option Text
unfolding slug_loop
free_slug base exclude rows =
    slug_loop (λ s. slug_taken s exclude rows) base (suc (length rows)) 2 base

slug_loop-free :
    (taken : Text → Bool) (base : Text) (fuel n : ℕ) (slug : Text) (s : Text)
    → slug_loop taken base fuel n slug ≡ some s
    → taken s ≡ false
unfolding slug_loop
slug_loop-free taken base zero n slug s h = cc
slug_loop-free taken base (suc fuel) n slug s h = elim (Bool-cases (taken slug)) [
  | inl t ↦ slug_loop-free taken base fuel (n + 1) (numbered base n) s (rw t at h)
  | inr f ↦ rw (← some-injective slug s (rw f at h)) f
]

-- The slug that the loop ends with is not taken by another post.
pub free_slug-free :
    (base : Text) (exclude : Option Text) (rows : List PostModel) (s : Text)
    → free_slug base exclude rows ≡ some s
    → slug_taken s exclude rows ≡ false
unfolding free_slug
free_slug-free base exclude rows s h =
    slug_loop-free (λ t. slug_taken t exclude rows) base (suc (length rows)) 2 base s h

-- What the loop tries in `fuel` rounds.
tried : Text → ℕ → ℕ → Text → List Text
tried base zero n slug = []
tried base (suc fuel) n slug = slug ∷ tried base fuel (n + 1) (numbered base n)

length-tried : (base : Text) (fuel n : ℕ) (slug : Text) → length (tried base fuel n slug) ≡ fuel
unfolding tried
length-tried base zero n slug = refl
length-tried base (suc fuel) n slug =
    omega (arith, length-tried base fuel (n + 1) (numbered base n))

append_cancel : (base s t : Text) → base ++ s ≡ base ++ t → s ≡ t
append_cancel [] s t h = h
append_cancel (c ∷ base) s t h = append_cancel base s t (cc)

numbered-injective : (base : Text) (n m : ℕ) → numbered base n ≡ numbered base m → n ≡ m
numbered-injective base n m h =
    decimal-injective n m (cc (append_cancel base (b'-' ∷ decimal n) (b'-' ∷ decimal m) h))

numbered-ne-base : (base : Text) (n : ℕ) → numbered base n ≢ base
numbered-ne-base base n h =
    absurd (omega (arith, length-append base (b'-' ∷ decimal n), ap (λ (t : Text). length t) h))

not-contains-tried :
    (base : Text) (fuel n : ℕ) (slug t : Text)
    → t ≢ slug
    → ((m : ℕ) → n ≤ m → numbered base m ≢ t)
    → contains (tried base fuel n slug) t ≡ false
unfolding tried
not-contains-tried base zero n slug t ne later = refl
not-contains-tried base (suc fuel) n slug t ne later = ground (
  arith,
  not-contains-tried base fuel (n + 1) (numbered base n) t (λ e. later n (omega arith) (sym e))
      (λ m h. later m (omega arith)),
)

distinct-tried :
    (base : Text) (fuel n : ℕ) (slug : Text)
    → ((m : ℕ) → n ≤ m → numbered base m ≢ slug)
    → distinct (tried base fuel n slug) ≡ true
unfolding tried
distinct-tried base zero n slug later = refl
distinct-tried base (suc fuel) n slug later =
    rw
      (not-contains-tried base fuel (n + 1) (numbered base n) slug
        (λ e. later n (omega arith) (sym e)) (λ m h. later m (omega arith)))
      (distinct-tried base fuel (n + 1) (numbered base n)
        (λ m h e. absurd (omega (arith, numbered-injective base m n e))))

slug_taken-contains :
    (s : Text) (exclude : Option Text) (rows : List PostModel)
    → slug_taken s exclude rows ≡ true
    → contains (map post_slug rows) s ≡ true
slug_taken-contains s exclude [] h = cc
slug_taken-contains s exclude (m ∷ rows) h = ground (arith, slug_taken-contains s exclude rows)

module _ (exclude : Option Text) (rows : List PostModel) where
  covered-tried :
      (base : Text) (fuel n : ℕ) (slug : Text)
      → slug_loop (λ s. slug_taken s exclude rows) base fuel n slug ≡ none
      → covered (tried base fuel n slug) (map post_slug rows) ≡ true
  unfolding slug_loop tried
  covered-tried base zero n slug h = refl
  covered-tried base (suc fuel) n slug h = elim (Bool-cases (slug_taken slug exclude rows)) [
    | inl t ↦
        rw (slug_taken-contains slug exclude rows t)
          (covered-tried base fuel (n + 1) (numbered base n) (rw t at h))
    | inr f ↦ absurd (none-ne-some _ (sym (rw f at h)))
  ]

length-slugs : (rows : List PostModel) → length (map post_slug rows) ≡ length rows
length-slugs [] = refl
length-slugs (m ∷ rows) = ground (arith, length-slugs rows)

-- The loop ends with a slug, for every base and every table of posts.
pub free_slug_total :
    (base : Text) (exclude : Option Text) (rows : List PostModel)
    → (s : Text) × (free_slug base exclude rows ≡ some s)
free_slug_total base exclude rows = elim (Option-cases (free_slug base exclude rows)) [
  | inr found ↦ found
  | inl stuck ↦ absurd (
      omega (
        arith,
        pigeonhole (tried base (suc (length rows)) 2 base) (map post_slug rows)
            (distinct-tried base (suc (length rows)) 2 base (λ m h. numbered-ne-base base m))
            (unfold free_slug in covered-tried exclude rows base (suc (length rows)) 2 base stuck),
        length-tried base (suc (length rows)) 2 base,
        length-slugs rows,
      ))
]

-- A free base is taken as it is.
pub free_slug_base :
    (base : Text) (exclude : Option Text) (rows : List PostModel)
    → slug_taken base exclude rows ≡ false
    → free_slug base exclude rows ≡ some base
unfolding free_slug
free_slug_base base exclude rows h = rw h

slug_loop-length :
    (taken : Text → Bool) (base : Text) (fuel n : ℕ) (slug s : Text)
    → length base ≤ 180
    → length slug ≤ 200
    → n + fuel ≤ 10 ^ 19
    → slug_loop taken base fuel n slug ≡ some s
    → length s ≤ 200
unfolding slug_loop
slug_loop-length taken base zero n slug s short now few h = cc
slug_loop-length taken base (suc fuel) n slug s short now few h = elim (Bool-cases (taken slug)) [
  | inl t ↦
      let next : length (numbered base n) ≤ 200 =
        omega (arith, length-append base (b'-' ∷ decimal n), length-decimal 18 n (omega arith)) in
      slug_loop-length taken base fuel (n + 1) (numbered base n) s short next (omega arith)
        (rw t at h)
  | inr f ↦ rw (← some-injective slug s (rw f at h)) now
]

-- A base of 180 characters leaves room for the number.
pub free_slug-length :
    (base : Text) (exclude : Option Text) (rows : List PostModel) (s : Text)
    → length base ≤ 180
    → length rows < 10 ^ 18
    → free_slug base exclude rows ≡ some s
    → length s ≤ 200
unfolding free_slug
free_slug-length base exclude rows s short few h =
    slug_loop-length (λ t. slug_taken t exclude rows) base (suc (length rows)) 2 base s short
      (omega arith) (omega arith) h
