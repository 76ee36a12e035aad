-- ===== src/Posts/Slug/Tags.antt =====
-- What `normalize_tags` and `reading_time_minutes` promise.
use myblog.Base.Pigeonhole.{distinct}
use myblog.Base.{
  ℕ, Text, ◌≡◌, arith, List, false, ◌*◌, contains, true, ◌∷◌, ◌≤◌, take, All, length, ◌++◌, suc,
  Bool-cases, ◌+◌, ◌||◌, [], zero, All-take, list_eq, number_eq, string_eq, option_eq, inl,
  length-take-le, refl, inr, All-append, or-false,
}
use myblog.Posts.Slug.Shape.{IsSlug, slugify-IsSlug}
use myblog.Base.Unicode.{Unicode}
use myblog.Base.Python.{is_empty}
use myblog.Posts.Slug.{round_200, normalize_tags, add_tags, slugify}

-- A tag is a slug of 1 to 30 characters.
pub record IsTag (t : Text) : Type 0 where
  pub slug : IsSlug t
  pub some_character : is_empty t ≡ false
  pub short : length t ≤ 30

contains-append :
    (xs ys : List Text) (t : Text) → contains (xs ++ ys) t ≡ (contains xs t || contains ys t)
contains-append [] ys t = refl
contains-append (x ∷ xs) ys t = ground (arith, contains-append xs ys t)

distinct-append :
    (xs : List Text) (t : Text)
    → distinct xs ≡ true
    → contains xs t ≡ false
    → distinct (xs ++ t ∷ []) ≡ true
distinct-append [] t h k = refl
distinct-append (x ∷ xs) t h k = ground (arith, distinct-append xs t, contains-append xs (t ∷ []) x)

contains-take :
    (n : ℕ) (xs : List Text) (t : Text) → contains xs t ≡ false → contains (take n xs) t ≡ false
contains-take zero xs t h = refl
contains-take (suc n) [] t h = refl
contains-take (suc n) (x ∷ xs) t h = ground (arith, contains-take n xs t)

distinct-take : (n : ℕ) (xs : List Text) → distinct xs ≡ true → distinct (take n xs) ≡ true
distinct-take zero xs h = refl
distinct-take (suc n) [] h = refl
distinct-take (suc n) (x ∷ xs) h = ground (arith, distinct-take n xs, contains-take n xs x)

module _ (u : Unicode) where
  add_tags_lem :
      (seen tags : List Text)
      → All IsTag seen
      → distinct seen ≡ true
      → All IsTag (add_tags u seen tags) × (distinct (add_tags u seen tags) ≡ true)
  unfolding add_tags
  add_tags_lem seen [] a d = (a, d)
  add_tags_lem seen (t ∷ tags) a d =
      elim (Bool-cases (is_empty (slugify u t 30) || contains seen (slugify u t 30))) [
        | inl skip ↦ rw skip (add_tags_lem seen tags a d)
        | inr fresh ↦
            let s = slugify-IsSlug u t 30 in
            let new = or-false (is_empty (slugify u t 30)) (contains seen (slugify u t 30)) fresh in
            rw fresh (
              add_tags_lem (seen ++ slugify u t 30 ∷ []) tags
                (All-append IsTag seen (slugify u t 30 ∷ []) a
                  (record { slug = s.0; some_character = new.0; short = s.1 }, tt))
                (distinct-append seen (slugify u t 30) d new.1))
      ]

  -- Normalised tags are at most ten, pairwise distinct, and each is a slug of 1 to 30 characters.
  pub normalize_tags_lem :
      (tags : List Text)
      → All IsTag (normalize_tags u tags)
        × (distinct (normalize_tags u tags) ≡ true)
        × (length (normalize_tags u tags) ≤ 10)
  unfolding normalize_tags
  normalize_tags_lem tags =
      let r = add_tags_lem [] tags tt refl in
      (
        All-take IsTag 10 (add_tags u [] tags) (r.0),
        distinct-take 10 (add_tags u [] tags) (r.1),
        length-take-le 10 (add_tags u [] tags),
      )

-- Rounding to a multiple of 200 is off by at most 100.
pub round_200_near : (n : ℕ) → (200 * round_200 n ≤ n + 100) × (n ≤ 200 * round_200 n + 100)
unfolding round_200
round_200_near n = ground arith
