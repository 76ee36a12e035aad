-- ===== src/Tests/Reading.antt =====
-- The examples of the read models.
use myblog.Posts.Repository
use myblog.Posts.ReadModel.{
  selected, PostQuery, Page, list_posts, PostSummary, summary_of, Joined, passes, joined,
}
use myblog.Posts.ReadModel.Pages.{IsLawful, at_page, total_of, items_at, pages_lem}
use myblog.Posts.Domain.{draft}
use myblog.Base.{
  list_eq, ℕ, true, none, number_eq, Text, false, codes, ◌≡◌, ◌∷◌, some, [], arith, count, refl,
  suc, map, Bool, keep,
}
use myblog.Base.Sorted.{text_le}
use myblog.Tests.Sample.{post_db, code_points, first_post}
use myblog.Posts.Repository.{post_slug, PostModel, post_key, to_post}
use myblog.Base.Paging.{read_pages, page_count}
use myblog.Kernel.Errors.{ok}

-- A published post and a draft
abbrev second_post : PostModel
second_post = record first_post {
  id = codes "p2";
  slug = codes "notes";
  status = draft;
  published_at = none;
}

abbrev library : Repository.Db
library = record post_db { posts = first_post ∷ second_post ∷ [] }

abbrev newest : PostQuery
newest = record {
  page = 1;
  size = 1;
  published_only = true;
  status = none;
  tag = some (codes "news");
  category = none;
  q = some (codes "Hello");
}

abbrev anything : PostQuery
anything = record newest { published_only = false; tag = none; q = none }

text_le-total : (x y : Text) → text_le x y ≡ false → text_le y x ≡ true
unfolding text_le
text_le-total [] y h = cc
text_le-total (c ∷ x) [] h = refl
text_le-total (c ∷ x) (d ∷ y) h = ground (arith, text_le-total x y)

text_le_trans : (x y z : Text) → text_le x y ≡ true → text_le y z ≡ true → text_le x z ≡ true
unfolding text_le
text_le_trans [] y z h k = refl
text_le_trans (c ∷ x) [] z h k = cc
text_le_trans (c ∷ x) (d ∷ y) [] h k = cc
text_le_trans (c ∷ x) (d ∷ y) (e ∷ z) h k = ground (arith, text_le_trans x y z)

code_points-IsLawful : IsLawful code_points
code_points-IsLawful = record {
  total = λ x y h. text_le-total x y h;
  trans = λ x y z h k. text_le_trans x y z h k;
}

pages_lem_example :
    ((n : ℕ)
      → (p : Page PostSummary) × (list_posts code_points (at_page (suc n) anything) library ≡ ok p)
        × (p.pages ≡ page_count (total_of code_points anything library) 1)
        × (p.total ≡ total_of code_points anything library))
    × (read_pages
          (items_at code_points anything library)
          (page_count (total_of code_points anything library) 1)
        ≡ map (summary_of library) (selected code_points anything library))
    × ((test : Joined → Bool)
        → count test (selected code_points anything library)
          ≡ count test (keep (passes code_points anything library) (joined library)))
pages_lem_example = pages_lem code_points anything library (omega arith)
