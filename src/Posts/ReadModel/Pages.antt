-- ===== src/Posts/ReadModel/Pages.antt =====
-- The pages of a list of posts.
use myblog.Posts.ReadModel.{
  PostQuery, list_posts, selected, summary_of, joined, passes, Collation, Page, PostSummary, Joined,
  later_first, stands_before,
}
use myblog.Posts.Repository.{Db}
use myblog.Base.Paging.{page_count, page_of, read_pages, read_pages-cover}
use myblog.Kernel.Errors.{Result, ok, err}
use myblog.Base.{
  none, some, true, false, ℕ, Bool, List, ◌<◌, length, count, suc, ◌≡◌, keep, [], map, arith, refl,
  Option, Text, false, true, some,
}
use myblog.Base.Ordering.{ordered, count-sort_by, ordered-sort_by, sort_by, length-sort_keep}

abbrev pub items_of : Result (Page PostSummary) → List PostSummary
items_of (ok p) = p.items
items_of (err e) = []

abbrev pub at_page : ℕ → PostQuery → PostQuery
at_page n query = record query { page = n }

module _ (col : Collation) (query : PostQuery) (db : Db) where
  abbrev pub items_at : ℕ → List PostSummary
  items_at n = items_of (list_posts col (at_page n query) db)

  abbrev pub total_of : ℕ
  total_of = count (passes col query db) (joined db)

  length-selected : length (selected col query db) ≡ total_of
  length-selected =
      length-sort_keep (stands_before col query.published_only) (passes col query db) (joined db)

  answered :
      0 < query.size
      → (n : ℕ)
      → (p : Page PostSummary) × (list_posts col (at_page (suc n) query) db ≡ ok p)
        × (p.pages ≡ page_count total_of query.size)
        × (p.total ≡ total_of)
  unfolding list_posts
  answered h n = (
    record {
      items = map (summary_of db) (page_of (suc n) query.size (selected col query db));
      page = suc n;
      size = query.size;
      total = total_of;
      pages = page_count total_of query.size;
    },
    ground arith,
    refl,
    refl,
  )

  -- For a size of at least 1: every page from 1 on is answered and tells the number of rows that
  -- pass the filters and the same number of pages; and that many pages, one after another, are the
  -- summaries of the selected rows, of which for each test as many pass as of the filtered rows.
  pub pages_lem :
      0 < query.size
      → ((n : ℕ)
          → (p : Page PostSummary) × (list_posts col (at_page (suc n) query) db ≡ ok p)
            × (p.pages ≡ page_count total_of query.size)
            × (p.total ≡ total_of))
        × (read_pages items_at (page_count total_of query.size)
            ≡ map (summary_of db) (selected col query db))
        × ((test : Joined → Bool)
            → count test (selected col query db)
              ≡ count test (keep (passes col query db) (joined db)))
  pages_lem h = (
    answered h,
    read_pages-cover (summary_of db) items_at query.size (selected col query db)
        (λ n. unfold list_posts in ground arith) total_of length-selected h,
    λ test.
        count-sort_by (stands_before col query.published_only) test
          (keep (passes col query db) (joined db)),
  )

-- The order of texts by the collation is total and transitive.
pub record IsLawful (col : Collation) : Type 0 where
  pub total : (x y : Text) → col.le x y ≡ false → col.le y x ≡ true
  pub trans : (x y z : Text) → col.le x y ≡ true → col.le y z ≡ true → col.le x z ≡ true

module _ (col : Collation) (lawful : IsLawful col) where
  later-total :
      (a b : Option ℕ) (s t : Text)
      → later_first a b (col.le s t) ≡ false
      → later_first b a (col.le t s) ≡ true
  later-total none none s t h = lawful.total s t h
  later-total none (some b) s t h = refl
  later-total (some a) none s t h = cc
  later-total (some a) (some b) s t h = ground (arith, lawful.total s t)

  later_trans :
      (a b c : Option ℕ) (s t u : Text)
      → later_first a b (col.le s t) ≡ true
      → later_first b c (col.le t u) ≡ true
      → later_first a c (col.le s u) ≡ true
  later_trans none none none s t u h k = lawful.trans s t u h k
  later_trans none none (some c) s t u h k = cc
  later_trans none (some b) c s t u h k = cc
  later_trans (some a) none none s t u h k = refl
  later_trans (some a) none (some c) s t u h k = cc
  later_trans (some a) (some b) none s t u h k = refl
  later_trans (some a) (some b) (some c) s t u h k = ground (arith, lawful.trans s t u)

  ordered_rows :
      (published_only : Bool) (rows : List Joined)
      → ordered (stands_before col published_only) (sort_by (stands_before col published_only) rows)
        ≡ true
  ordered_rows true rows =
      ordered-sort_by (stands_before col true)
        (λ x y h. later-total x.0.published_at y.0.published_at x.0.id y.0.id h)
        (λ x y z h k.
          later_trans x.0.published_at y.0.published_at z.0.published_at x.0.id y.0.id z.0.id h k)
        rows
  ordered_rows false rows =
      ordered-sort_by (stands_before col false)
        (λ x y h. later-total (some x.0.updated_at) (some y.0.updated_at) x.0.id y.0.id h)
        (λ x y z h k.
          later_trans (some x.0.updated_at) (some y.0.updated_at) (some z.0.updated_at) x.0.id
            y.0.id z.0.id h k)
        rows

  -- Where the collation orders texts, the selected rows stand newest first, by the time of
  -- publication for readers and by the last change for the administrator, and rows of one time by
  -- their identifiers.
  pub order_lem :
      (query : PostQuery) (db : Db)
      → ordered (stands_before col query.published_only) (selected col query db) ≡ true
  order_lem query db = ordered_rows query.published_only (keep (passes col query db) (joined db))
