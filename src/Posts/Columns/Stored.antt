-- ===== src/Posts/Columns/Stored.antt =====
-- Which rows fit their columns after any requests and events:
-- services/post-service/app/infrastructure/persistence/models.py.
use myblog.Base.{
  ℕ, Text, Option, none, some, List, [], ◌∷◌, Bool, true, false, ◌||◌, ◌≤◌, ◌≡◌, ◌⊎◌, inl, inr,
  Bool-cases, refl, arith, All, length, list_eq, number_eq,
}
use myblog.Base.Unicode.{Unicode}
use myblog.Kernel.Redis.{Redis}
use myblog.Web.Security.{Decoded}
use myblog.Posts.Domain.{Category}
use myblog.Posts.Handlers.{PostStore}
use myblog.Posts.ReadModel.{Collation}
use myblog.Posts.Repository.{PostModel, PostTagModel, Db}
use myblog.Posts.Columns.{Fits, FitsNullable, ShortPost, ShortTag, ShortCategory, ShortDb}
use myblog.Posts.Columns.Units.{
  FitsPost, FitsTag, FitsCategory, has_astral, units, some_astral, some_units,
}
use myblog.Posts.Columns.Reached.{Reached, FitsTokens, reached-short}

abbrev pub astral_post : PostModel → Bool
astral_post m =
    has_astral m.id
    || (has_astral m.title
        || (has_astral m.slug
            || (has_astral m.summary
                || (has_astral m.author_id
                    || (has_astral m.author_name
                        || (some_astral m.category_id || some_astral m.cover_image_url))))))

abbrev pub astral_tag : PostTagModel → Bool
astral_tag t = has_astral t.post_id || has_astral t.tag

abbrev pub astral_category : Category → Bool
astral_category c =
    has_astral c.id
    || (has_astral c.name
        || (has_astral c.slug || (has_astral c.description || some_astral c.image_url)))

-- Every row fits its columns, or has a character behind the basic plane.
pub record StoredDb (db : Db) : Type 0 where
  pub posts : All (λ m. FitsPost m ⊎ (astral_post m ≡ true)) db.posts
  pub post_tags : All (λ t. FitsTag t ⊎ (astral_tag t ≡ true)) db.post_tags
  pub categories : All (λ c. FitsCategory c ⊎ (astral_category c ≡ true)) db.categories

units-basic : (n : ℕ) (t : Text) → Fits n t → has_astral t ≡ false → units t ≤ n
units-basic n t short basic = let same = units-length t basic in omega (arith, same, short)
  where
    units-length : (t : Text) → has_astral t ≡ false → units t ≡ length t
    units-length [] h = refl
    units-length (c ∷ t) h = ground (arith, units-length t)

some_units-basic :
    (n : ℕ) (t : Option Text) → FitsNullable n t → some_astral t ≡ false → some_units t ≤ n
some_units-basic n none short basic = omega arith
some_units-basic n (some t) short basic = units-basic n t short basic

or_false : (a b : Bool) → (a || b) ≡ false → (a ≡ false) × (b ≡ false)
or_false a b h = ground arith

post-stored : (m : PostModel) → ShortPost m → FitsPost m ⊎ (astral_post m ≡ true)
post-stored m h = elim (Bool-cases (astral_post m)) [
  | inl astral ↦ inr astral
  | inr basic ↦
      let (id, r1) = or_false _ _ basic in
      let (title, r2) = or_false _ _ r1 in
      let (slug, r3) = or_false _ _ r2 in
      let (summary, r4) = or_false _ _ r3 in
      let (author_id, r5) = or_false _ _ r4 in
      let (author_name, r6) = or_false _ _ r5 in
      let (category_id, cover) = or_false _ _ r6 in
      inl (record {
        id = units-basic 36 m.id h.id id;
        title = units-basic 200 m.title h.title title;
        slug = units-basic 200 m.slug h.slug slug;
        summary = units-basic 500 m.summary h.summary summary;
        author_id = units-basic 36 m.author_id h.author_id author_id;
        author_name = units-basic 100 m.author_name h.author_name author_name;
        category_id = some_units-basic 36 m.category_id h.category_id category_id;
        cover_image_url = some_units-basic 500 m.cover_image_url h.cover_image_url cover;
      })
]

tag-stored : (t : PostTagModel) → ShortTag t → FitsTag t ⊎ (astral_tag t ≡ true)
tag-stored t h = elim (Bool-cases (astral_tag t)) [
  | inl astral ↦ inr astral
  | inr basic ↦
      let (post_id, tag) = or_false _ _ basic in
      inl (record {
        post_id = units-basic 36 t.post_id h.post_id post_id;
        tag = units-basic 30 t.tag h.tag tag;
      })
]

category-stored : (c : Category) → ShortCategory c → FitsCategory c ⊎ (astral_category c ≡ true)
category-stored c h = elim (Bool-cases (astral_category c)) [
  | inl astral ↦ inr astral
  | inr basic ↦
      let (id, r1) = or_false _ _ basic in
      let (name, r2) = or_false _ _ r1 in
      let (slug, r3) = or_false _ _ r2 in
      let (description, image_url) = or_false _ _ r3 in
      inl (record {
        id = units-basic 36 c.id h.id id;
        name = units-basic 60 c.name h.name name;
        slug = units-basic 80 c.slug h.slug slug;
        description = units-basic 300 c.description h.description description;
        image_url = some_units-basic 500 c.image_url h.image_url image_url;
      })
]

All-mono {ℓ κ λ'} :
    {A : Type ℓ} (P : A → Type κ) (Q : A → Type λ')
    → ((a : A) → P a → Q a)
    → (xs : List A) → All P xs
    → All Q xs
All-mono P Q f [] h = tt
All-mono P Q f (x ∷ xs) (p, h) = (f x p, All-mono P Q f xs h)

module _ (R : Redis) (prefix : Text) (u : Unicode) (col : Collation) (with_redis : Bool)
    (decode : Text → Decoded) where
  -- From tables where every text has at most as many characters as its column is long, whatever
  -- requests to the administrators' routes and whatever events about comments come, in whatever
  -- order: every row of the tables fits its columns, which count UTF-16 units, or it has a character
  -- that takes two of them. What the tokens say of their users has at most as many characters as its
  -- columns are long, the fresh identifiers have at most 36, the URLs of the images in the requests
  -- have at most 500, and there are fewer than 10 ^ 18 posts when a request comes.
  pub reached-fits :
      (first st : PostStore R)
      → FitsTokens decode
      → ShortDb first.db
      → Reached R prefix u col with_redis decode first st
      → StoredDb st.db
  reached-fits first st tokens fits steps =
      let short = reached-short R prefix u col with_redis decode first st tokens fits steps in
      record {
        posts = All-mono ShortPost _ post-stored st.db.posts short.posts;
        post_tags = All-mono ShortTag _ tag-stored st.db.post_tags short.post_tags;
        categories = All-mono ShortCategory _ category-stored st.db.categories short.categories;
      }
