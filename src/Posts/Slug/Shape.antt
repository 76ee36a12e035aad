-- ===== src/Posts/Slug/Shape.antt =====
-- The shape of a slug: characters of `[a-z0-9-]`, no dash at an end and no two in a row.
use myblog.Base.{
  ℕ, Text, ◌≡◌, true, Bool, ◌∷◌, ◌||◌, not, ◌&&◌, [], nat_eq, arith, take, length, ◌++◌, suc, false,
  ◌≤◌, codes, refl, length-take-le, zero, map,
}
use myblog.Posts.Slug.{
  is_alnum, is_dash, slugify, dash_runs, collapse, uncut, replace, is_kept, lower_ascii, ascii_only,
  translate,
}
use myblog.Base.Python.{is_empty, strip_by, lstrip, rstrip}
use myblog.Base.Unicode.{Unicode}

-- No dash at the front if the flag is set, and no two dashes in a row.
abbrev pub spaced : Bool → Text → Bool
spaced after_dash [] = true
spaced after_dash (c ∷ t) = not (after_dash && is_dash c) && spaced (is_dash c) t

abbrev pub no_final_dash : Text → Bool
no_final_dash [] = true
no_final_dash (c ∷ []) = not (is_dash c)
no_final_dash (c ∷ d ∷ t) = no_final_dash (d ∷ t)

abbrev pub is_slug_char : ℕ → Bool
is_slug_char c = is_alnum c || is_dash c

abbrev pub all_chars : (ℕ → Bool) → Text → Bool
all_chars p [] = true
all_chars p (c ∷ t) = p c && all_chars p t

pub record IsSlug (t : Text) : Type 0 where
  pub chars : all_chars is_slug_char t ≡ true
  pub dashes : spaced true t ≡ true
  pub final : no_final_dash t ≡ true

-- Cuts keep what holds of every character, and the spacing.
module _ (p : ℕ → Bool) where
  chars-lstrip : (t : Text) → all_chars p t ≡ true → all_chars p (lstrip is_dash t) ≡ true
  chars-lstrip [] h = refl
  chars-lstrip (c ∷ t) h = ground (arith, chars-lstrip t)

  chars-rstrip : (t : Text) → all_chars p t ≡ true → all_chars p (rstrip is_dash t) ≡ true
  chars-rstrip [] h = refl
  chars-rstrip (c ∷ t) h = ground (arith, chars-rstrip t)

  chars-take : (n : ℕ) (t : Text) → all_chars p t ≡ true → all_chars p (take n t) ≡ true
  chars-take zero t h = refl
  chars-take (suc n) [] h = refl
  chars-take (suc n) (c ∷ t) h = ground (arith, chars-take n t)

  chars-append :
      (s t : Text) → all_chars p s ≡ true → all_chars p t ≡ true → all_chars p (s ++ t) ≡ true
  chars-append [] t h k = k
  chars-append (c ∷ s) t h k = ground (arith, chars-append s t)

pub spaced_weaken : (b : Bool) (t : Text) → spaced true t ≡ true → spaced b t ≡ true
spaced_weaken b [] h = refl
spaced_weaken b (c ∷ t) h = ground arith

spaced-lstrip : (b : Bool) (t : Text) → spaced b t ≡ true → spaced true (lstrip is_dash t) ≡ true
spaced-lstrip b [] h = refl
spaced-lstrip b (c ∷ t) h = ground (arith, spaced-lstrip (is_dash c) t)

spaced-rstrip : (b : Bool) (t : Text) → spaced b t ≡ true → spaced b (rstrip is_dash t) ≡ true
spaced-rstrip b [] h = refl
spaced-rstrip b (c ∷ t) h = ground (arith, spaced-rstrip (is_dash c) t)

spaced-take : (b : Bool) (n : ℕ) (t : Text) → spaced b t ≡ true → spaced b (take n t) ≡ true
spaced-take b zero t h = refl
spaced-take b (suc n) [] h = refl
spaced-take b (suc n) (c ∷ t) h = ground (arith, spaced-take (is_dash c) n t)

spaced-collapse : (b : Bool) (t : Text) → spaced b (collapse b t) ≡ true
unfolding collapse
spaced-collapse b [] = refl
spaced-collapse b (c ∷ t) = ground (arith, spaced-collapse (is_dash c) t)

no_final-cons :
    (c : ℕ) (t : Text)
    → no_final_dash t ≡ true
    → is_empty t && is_dash c ≡ false
    → no_final_dash (c ∷ t) ≡ true
no_final-cons c [] h k = ground arith
no_final-cons c (d ∷ t) h k = h

no_final-rstrip : (t : Text) → no_final_dash (rstrip is_dash t) ≡ true
no_final-rstrip [] = refl
no_final-rstrip (c ∷ t) = ground (arith, no_final-rstrip t, no_final-cons c (rstrip is_dash t))

strip-IsSlug :
    (b : Bool) (t : Text)
    → all_chars is_slug_char t ≡ true
    → spaced b t ≡ true
    → IsSlug (strip_by is_dash t)
strip-IsSlug b t h k = record {
  chars = chars-rstrip is_slug_char (lstrip is_dash t) (chars-lstrip is_slug_char t h);
  dashes = spaced-rstrip true (lstrip is_dash t) (spaced-lstrip b t k);
  final = no_final-rstrip (lstrip is_dash t);
}

length-lstrip : (t : Text) → length (lstrip is_dash t) ≤ length t
length-lstrip [] = omega arith
length-lstrip (c ∷ t) = ground (arith, length-lstrip t)

length-rstrip : (t : Text) → length (rstrip is_dash t) ≤ length t
length-rstrip [] = omega arith
length-rstrip (c ∷ t) = ground (arith, length-rstrip t)

-- The characters through the steps.
kept-dash_runs :
    (b : Bool) (t : Text) → all_chars (λ c. is_kept c || is_dash c) (dash_runs b t) ≡ true
unfolding dash_runs
kept-dash_runs b [] = refl
kept-dash_runs b (c ∷ t) = ground (arith, kept-dash_runs (not (is_kept c)) t)

abbrev is_plus_or_slug : ℕ → Bool
is_plus_or_slug c = is_slug_char c || nat_eq c b'+'

chars-sharp :
    (t : Text)
    → all_chars (λ c. is_kept c || is_dash c) t ≡ true
    → all_chars is_plus_or_slug (replace b'#' (codes "sharp") t) ≡ true
unfolding replace
chars-sharp [] h = refl
chars-sharp (c ∷ t) h = ground (arith, chars-sharp t)

chars-plus :
    (t : Text)
    → all_chars is_plus_or_slug t ≡ true
    → all_chars is_slug_char (replace b'+' (codes "plus") t) ≡ true
unfolding replace
chars-plus [] h = refl
chars-plus (c ∷ t) h = ground (arith, chars-plus t)

chars-collapse :
    (b : Bool) (t : Text)
    → all_chars is_slug_char t ≡ true
    → all_chars is_slug_char (collapse b t) ≡ true
unfolding collapse
chars-collapse b [] h = refl
chars-collapse b (c ∷ t) h = ground (arith, chars-collapse (is_dash c) t)

uncut-IsSlug : (u : Unicode) (value : Text) → IsSlug (uncut u value)
unfolding uncut
uncut-IsSlug u value =
    let dashed = dash_runs false (map lower_ascii (ascii_only (u.nfkd (map translate value)))) in
    let sharp = replace b'#' (codes "sharp") dashed in
    let plus = replace b'+' (codes "plus") sharp in
    strip-IsSlug false (collapse false plus)
      (chars-collapse false plus (
        chars-plus sharp (
          chars-sharp dashed
            (kept-dash_runs false (map lower_ascii (ascii_only (u.nfkd (map translate value))))))))
      (spaced-collapse false plus)

-- For any text, table of Unicode and length, a slug has only lower-case letters, digits and dashes,
-- no two dashes follow each other, none stands first or last, and it is not longer than was asked.
pub slugify-IsSlug :
    (u : Unicode) (value : Text) (max_length : ℕ)
    → IsSlug (slugify u value max_length) × (length (slugify u value max_length) ≤ max_length)
unfolding slugify
slugify-IsSlug u value n =
    let s = uncut-IsSlug u value in
    (
      strip-IsSlug true (take n (uncut u value)) (chars-take is_slug_char n (uncut u value) s.chars)
          (spaced-take true n (uncut u value) s.dashes),
      omega (
        arith,
        length-rstrip (lstrip is_dash (take n (uncut u value))),
        length-lstrip (take n (uncut u value)),
        length-take-le n (uncut u value),
      ),
    )
