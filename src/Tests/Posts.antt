-- ===== src/Tests/Posts.antt =====
-- The examples of post-service.
use myblog.Posts
use myblog.Posts.Domain
use myblog.Posts.Handlers
use myblog.Posts.Slug.{slugify, round_200, normalize_tags}
use myblog.Tests.Sample.{
  counter, ascii, prefix, stamp, draft, post_db, post_store, ascii-IsLawful, post_db-IsValid, later,
}
use myblog.Posts.Slug.Shape.{IsSlug, slugify-IsSlug}
use myblog.Kernel.Errors.{ok}
use myblog.Posts.Repository.{post_slug}
use myblog.Base.{
  Text, All, codes, ◌∷◌, ◌≡◌, none, length, ◌≤◌, [], refl, false, some, true, arith, list_eq,
  number_eq, string_eq, option_eq, has_key,
}
use myblog.Posts.Slug.Tags.{IsTag, normalize_tags_lem}
use myblog.Posts.UniqueSlug.{free_slug, free_slug_total}
use myblog.Posts.Domain.{Post, change_slug}
use myblog.Posts.Slug.Fixed.{slugify_idempotent}
use myblog.Base.Pigeonhole.{distinct}
use myblog.Posts.Handlers.{CreatePostCommand}
use myblog.Posts.Columns.Units.{FitsPost}
use myblog.Base.{subst, arith}
use mathlib.Core.Option.{some-injective}
use myblog.Posts.Repository.{to_model}
use myblog.Posts.Handlers.Create.{inserted, finished, create_lem}

slug_of_turkish : slugify ascii (231 ∷ codes "ok I#C") 180 ≡ codes "cok-isharpc"
unfolding slugify
slug_of_turkish = refl

slugify-IsSlug_example :
    IsSlug (slugify ascii (codes "C++ & Go!") 180)
    × (length (slugify ascii (codes "C++ & Go!") 180) ≤ 180)
slugify-IsSlug_example = slugify-IsSlug ascii (codes "C++ & Go!") 180

slugify_idempotent_example :
    slugify ascii (slugify ascii (codes "Hello, World") 30) 180
    ≡ slugify ascii (codes "Hello, World") 30
slugify_idempotent_example =
    slugify_idempotent ascii ascii-IsLawful (codes "Hello, World") 30 180 (omega arith)

normalize_tags_lem_example :
    All IsTag (normalize_tags ascii (codes "Go" ∷ codes "go" ∷ []))
    × (distinct (normalize_tags ascii (codes "Go" ∷ codes "go" ∷ [])) ≡ true)
    × (length (normalize_tags ascii (codes "Go" ∷ codes "go" ∷ [])) ≤ 10)
normalize_tags_lem_example = normalize_tags_lem ascii (codes "Go" ∷ codes "go" ∷ [])

free_slug_total_example : (s : Text) × (free_slug (codes "hello") none post_db.posts ≡ some s)
free_slug_total_example = free_slug_total (codes "hello") none post_db.posts

-- A post with the title of another gets the next slug.
abbrev made_post : Post
made_post = Domain.noted stamp "post.created" (record {
  id = codes "n1";
  title = codes "Hello";
  slug = codes "hello";
  summary = [];
  content = codes "The same title again.";
  author_id = codes "u1";
  author_name = codes "Ada";
  status = Domain.draft;
  category_id = some (codes "c1");
  cover_image_url = none;
  tags = codes "cplusplus" ∷ [];
  reading_time = 1;
  comment_count = 0;
  created_at = 5000000;
  updated_at = 5000000;
  published_at = none;
  events = [];
})

abbrev create_command : CreatePostCommand
create_command = record {
  body = draft;
  author_id = codes "u1";
  author_name = codes "Ada";
  publish = true;
}

made_post-fits :
    (slug : Text)
    → free_slug (codes "hello") none post_db.posts ≡ some slug
    → FitsPost (to_model (finished true later (change_slug slug made_post)))
unfolding list_eq number_eq option_eq free_slug myblog.Base.Decimal.decimal
made_post-fits slug found =
    let is : codes "hello-2" ≡ slug = some-injective _ _ found in
    subst (λ t. FitsPost (to_model (finished true later (change_slug t made_post)))) is
      (record {
        id = ground arith;
        title = ground arith;
        slug = ground arith;
        summary = ground arith;
        author_id = ground arith;
        author_name = ground arith;
        category_id = ground arith;
        cover_image_url = ground arith;
      })

create_lem_example :
    (slug : Text) × (has_key post_slug slug post_store.db.posts ≡ false)
    × (Handlers.create counter prefix ascii stamp later create_command post_store ≡ (
      ok (codes "n1"),
      inserted counter prefix ascii (finished true later (change_slug slug made_post)) post_store,
    ))
    × FitsPost (to_model (finished true later (change_slug slug made_post)))
unfolding list_eq number_eq Domain.create slugify normalize_tags
    myblog.Posts.Slug.reading_time_minutes
create_lem_example =
    create_lem counter prefix ascii stamp later create_command post_store post_db-IsValid made_post
      refl refl refl made_post-fits
