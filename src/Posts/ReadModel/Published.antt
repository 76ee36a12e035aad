-- ===== src/Posts/ReadModel/Published.antt =====
-- What readers without a login see: published posts only.
use myblog.Posts.ReadModel.{
  PostQuery, list_posts, selected, summary_of, joined, passes, Collation, PostSummary, Joined, Page,
  stands_before, category_of, detail, get_by_slug, is_published_row,
}
use myblog.Posts.Repository.{Db, PostModel, post_slug}
use myblog.Base.{
  Option, list_eq, ◌≡◌, Text, number_eq, true, some, arith, All, none, Bool, ◌==◌, keep, All-keep,
  codes, All-map, refl, All-take, drop, ◌-◌, ◌*◌, All-drop, Bool-cases, nat_eq, ◌&&◌, ltb, inl, inr,
  List, if◌then◌else◌, find, unique, has_key, row_at, false, map, ◌∷◌, [], Option-cases, not, ◌||◌,
  ◌∙◌, ap,
}
use myblog.Kernel.Errors.{Result, ok, err}
use myblog.Posts.Domain.{published, PostStatus, status_value, draft}
use myblog.Base.Ordering.{All-sort_by}
use myblog.Base.Paging.{page_of}

abbrev pub IsPublished : PostSummary → Type 0
IsPublished s = s.status ≡ published

abbrev pub ItemsPublished : Result (Page PostSummary) → Type 0
ItemsPublished (ok p) = All IsPublished p.items
ItemsPublished (err e) = Unit

published_value : (s : PostStatus) → (status_value s == codes "published") ≡ true → s ≡ published
unfolding list_eq number_eq
published_value draft h = cc
published_value published h = refl

module _ (col : Collation) (query : PostQuery) (db : Db) where
  row_published :
      (j : Joined)
      → query.published_only ≡ true
      → passes col query db j ≡ true
      → j.0.status ≡ published
  row_published (m, c) p h = published_value m.status (ground arith)

  -- A list for readers has published posts only, whatever the filters and the page.
  pub published_list_lem : query.published_only ≡ true → ItemsPublished (list_posts col query db)
  unfolding list_posts
  published_list_lem p =
      let rows =
        All-sort_by (stands_before col query.published_only) (λ j. j.0.status ≡ published)
          (keep (passes col query db) (joined db))
          (All-keep (λ j. j.0.status ≡ published) (passes col query db) (λ j h. row_published j p h)
            (joined db)) in
      let items =
        All-map IsPublished (summary_of db) (page_of query.page query.size (selected col query db))
          (All-take (λ j. j.0.status ≡ published) query.size
            (drop ((query.page - 1) * query.size) (selected col query db))
            (All-drop (λ j. j.0.status ≡ published) ((query.page - 1) * query.size)
              (selected col query db) rows)) in
      elim (Bool-cases (nat_eq query.page 0 && ltb 0 query.size)) [
        | inl bad ↦ rw bad tt
        | inr good ↦ elim (Bool-cases (nat_eq query.size 0)) [
          | inl bad ↦ rw (good, bad) tt
          | inr fine ↦ rw (good, fine) items
        ]
      ]

abbrev shown_row : Db → Option PostModel → Option Joined
shown_row db none = none
shown_row db (some m) = some (m, category_of m.category_id db.categories)

find-joined :
    (db : Db) (test : PostModel → Bool) (rows : List PostModel)
    → find (λ j. test (j.0)) (map (λ m. (m, category_of m.category_id db.categories)) rows)
      ≡ shown_row db (find test rows)
find-joined db test [] = refl
find-joined db test (m ∷ rows) = elim (Bool-cases (test m)) [
  | inl passed ↦ rw passed refl
  | inr failed ↦ rw failed (find-joined db test rows)
]

abbrev pub only_if : (PostModel → Bool) → Option PostModel → Option PostModel
only_if p none = none
only_if p (some m) = if p m then some m else none

module _ (key : PostModel → Text) (k : Text) (p : PostModel → Bool) where
  find_absent :
      (rows : List PostModel)
      → has_key key k rows ≡ false
      → find (λ m. key m == k && p m) rows ≡ none
  find_absent [] h = refl
  find_absent (m ∷ rows) h = ground (arith, find_absent rows)

  find-key :
      (rows : List PostModel)
      → unique key rows ≡ true
      → find (λ m. key m == k && p m) rows ≡ only_if p (row_at key k rows)
  find-key [] u = refl
  find-key (m ∷ rows) u = ground (arith, find-key rows, find_absent rows)

-- The answer about a post.
abbrev pub page_for : Db → Option PostModel → Option (PostSummary × Text)
page_for db none = none
page_for db (some m) = some (summary_of db (m, category_of m.category_id db.categories), m.content)

detail_lem : (db : Db) (test : PostModel → Bool) → detail test db ≡ page_for db (find test db.posts)
unfolding detail
detail_lem db test = elim (Option-cases (find test db.posts)) [
  | inl absent ↦ rw (find-joined db test db.posts, absent)
  | inr (m, found) ↦ rw (find-joined db test db.posts, found)
]

-- Where slugs are unique, a reader gets the post with the slug if it is there and published, and
-- nothing if it is a draft or there is none; the administrator gets drafts too.
pub by_slug_lem :
    (slug : Text) (published_only : Bool) (db : Db)
    → unique post_slug db.posts ≡ true
    → get_by_slug slug published_only db
      ≡ page_for db
          (only_if (λ m. not published_only || is_published_row m) (row_at post_slug slug db.posts))
unfolding get_by_slug
by_slug_lem slug published_only db u =
    detail_lem db (λ m. m.slug == slug && (not published_only || is_published_row m))
    ∙ ap (page_for db)
        (find-key post_slug slug (λ m. not published_only || is_published_row m) db.posts u)
