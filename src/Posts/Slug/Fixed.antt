-- ===== src/Posts/Slug/Fixed.antt =====
-- A slug is left as it is: `slugify` of a well-formed text that is short enough is that text.
use myblog.Base.{
  ℕ, Text, ◌≡◌, arith, Bool, true, ◌∷◌, codes, map, not, ◌≤◌, [], false, length, refl, take_all,
}
use myblog.Posts.Slug.Shape.{
  IsSlug, slugify-IsSlug, all_chars, no_final_dash, spaced, is_slug_char, spaced_weaken,
}
use myblog.Base.Unicode.{Unicode, IsAscii, IsLawful}
use myblog.Base.Python.{strip_by, lstrip, rstrip}
use myblog.Posts.Slug.{
  replace, translate, ascii_only, dash_runs, lower_ascii, collapse, is_dash, slugify, uncut,
  is_kept,
}

abbrev SlugChars : Text → Type 0
SlugChars t = all_chars is_slug_char t ≡ true

translate_slug : (t : Text) → SlugChars t → map translate t ≡ t
unfolding translate
translate_slug [] h = refl
translate_slug (c ∷ t) h = ground (arith, translate_slug t)

slug-IsAscii : (t : Text) → SlugChars t → IsAscii t
slug-IsAscii [] h = tt
slug-IsAscii (c ∷ t) h = (ground arith, slug-IsAscii t (ground arith))

ascii_only_slug : (t : Text) → SlugChars t → ascii_only t ≡ t
unfolding ascii_only
ascii_only_slug [] h = refl
ascii_only_slug (c ∷ t) h = ground (arith, ascii_only_slug t)

lower_slug : (t : Text) → SlugChars t → map lower_ascii t ≡ t
unfolding lower_ascii
lower_slug [] h = refl
lower_slug (c ∷ t) h = ground (arith, lower_slug t)

dash_runs_slug : (b : Bool) (t : Text) → SlugChars t → spaced b t ≡ true → dash_runs b t ≡ t
unfolding dash_runs
dash_runs_slug b [] h k = refl
dash_runs_slug b (c ∷ t) h k = ground (arith, dash_runs_slug (not (is_kept c)) t)

sharp_slug : (t : Text) → SlugChars t → replace b'#' (codes "sharp") t ≡ t
unfolding replace
sharp_slug [] h = refl
sharp_slug (c ∷ t) h = ground (arith, sharp_slug t)

plus_slug : (t : Text) → SlugChars t → replace b'+' (codes "plus") t ≡ t
unfolding replace
plus_slug [] h = refl
plus_slug (c ∷ t) h = ground (arith, plus_slug t)

collapse_slug : (b : Bool) (t : Text) → spaced b t ≡ true → collapse b t ≡ t
unfolding collapse
collapse_slug b [] h = refl
collapse_slug b (c ∷ t) h = ground (arith, collapse_slug (is_dash c) t)

lstrip_slug : (t : Text) → spaced true t ≡ true → lstrip is_dash t ≡ t
lstrip_slug [] h = refl
lstrip_slug (c ∷ t) h = ground arith

rstrip_slug : (t : Text) → no_final_dash t ≡ true → rstrip is_dash t ≡ t
rstrip_slug [] h = refl
rstrip_slug (c ∷ []) h = ground arith
rstrip_slug (c ∷ d ∷ t) h = ground (arith, rstrip_slug (d ∷ t) h)

strip_slug : (t : Text) → IsSlug t → strip_by is_dash t ≡ t
strip_slug t s = rw (lstrip_slug t s.dashes) (rstrip_slug t s.final)

module _ (u : Unicode) (l : IsLawful u) where
  uncut_slug : (t : Text) → IsSlug t → uncut u t ≡ t
  unfolding uncut
  uncut_slug t s =
      rw
        (
          translate_slug t s.chars,
          l.nfkd_ascii t (slug-IsAscii t s.chars),
          ascii_only_slug t s.chars,
          lower_slug t s.chars,
          dash_runs_slug false t s.chars (spaced_weaken false t s.dashes),
          sharp_slug t s.chars,
          plus_slug t s.chars,
          collapse_slug false t (spaced_weaken false t s.dashes),
        )
        (strip_slug t s)

  pub slugify_slug : (t : Text) (n : ℕ) → IsSlug t → length t ≤ n → slugify u t n ≡ t
  unfolding slugify
  slugify_slug t n s h = rw (uncut_slug t s, take_all n t h) (strip_slug t s)

  -- Where normalising leaves ASCII alone, a slug is its own slug, for any two lengths of which the
  -- second is not smaller.
  pub slugify_idempotent :
      (value : Text) (n m : ℕ) → n ≤ m → slugify u (slugify u value n) m ≡ slugify u value n
  slugify_idempotent value n m h =
      let s = slugify-IsSlug u value n in
      slugify_slug (slugify u value n) m s.0 (omega (arith, s.1))
