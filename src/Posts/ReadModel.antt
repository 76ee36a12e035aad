-- ===== src/Posts/ReadModel.antt =====
-- services/post-service/app/infrastructure/persistence/read_model.py. A query is a function on the
-- tables; its WHERE clauses are Boolean tests on the joined rows.
pub mod Pages
pub mod Totals
pub mod Published
use myblog.Base.{
  ℕ, Text, List, Option, Bool, ◌∷◌, keep, if◌then◌else◌, map, some, ◌&&◌, ◌==◌, take, false, none,
  nat_eq, codes, true, find, [], row_at, ◌||◌, ltb, ◌++◌, list_eq, number_eq, string_eq, option_eq,
  count, not,
}
use myblog.Base.Paging.{page_of, page_count}
use myblog.Base.Ordering.{sort_by}
use myblog.Base.Sorted.{sorted}
use myblog.Posts.Repository.{PostModel, PostTagModel, Db, category_key, tags_of}
use myblog.Posts.Domain.{PostStatus, Category, status_value}
use myblog.Kernel.Errors.{Result, err, database_error, zero_division_error, ok}
use myblog.Kernel.Events.{to_iso_z, Value}
use myblog.Base.Python.{or_none, strip}

-- What the database's collation decides: the order of texts, and `ILIKE` at a pattern.
pub record Collation : Type 0 where
  pub le : Text → Text → Bool
  pub ilike : Text → Text → Bool

-- A row of the outer join of posts and categories. `category_id` is a key, so there is at most one.
abbrev pub Joined : Type 0
Joined = PostModel × Option Category

abbrev pub category_of : Option Text → List Category → Option Category
category_of none categories = none
category_of (some id) categories = row_at category_key id categories

abbrev pub joined : Db → List Joined
joined db = map (λ m. (m, category_of m.category_id db.categories)) db.posts

-- The arguments of `list_posts`.
pub record PostQuery : Type 0 where
  pub page : ℕ
  pub size : ℕ
  pub published_only : Bool
  pub status : Option Text
  pub tag : Option Text
  pub category : Option Text
  pub q : Option Text

pub record CategoryRef : Type 0 where
  pub id : Text
  pub name : Option Text
  pub slug : Option Text

pub record PostSummary : Type 0 where
  pub id : Text
  pub title : Text
  pub slug : Text
  pub summary : Text
  pub status : PostStatus
  pub author_name : Text
  pub cover_image_url : Option Text
  pub reading_time : ℕ
  pub comment_count : ℕ
  pub tags : List Text
  pub category : Option CategoryRef
  pub created_at : Value
  pub updated_at : Value
  pub published_at : Value

pub record Page (A : Type 0) : Type 0 where
  pub items : List A
  pub page : ℕ
  pub size : ℕ
  pub total : ℕ
  pub pages : ℕ

abbrev pub name_of : Option Category → Option Text
name_of none = none
name_of (some c) = some c.name

abbrev pub slug_of : Option Category → Option Text
slug_of none = none
slug_of (some c) = some c.slug

-- `{…} if row.category_id else None`
abbrev pub category_ref : Option Text → Option Category → Option CategoryRef
category_ref none c = none
category_ref (some []) c = none
category_ref (some (d ∷ id)) c = some (record { id = d ∷ id; name = name_of c; slug = slug_of c })

-- `_summary`, with the sorted tags of `_tags_for`
abbrev pub summary_of : Db → Joined → PostSummary
summary_of db (m, c) = record {
  id = m.id;
  title = m.title;
  slug = m.slug;
  summary = m.summary;
  status = m.status;
  author_name = m.author_name;
  cover_image_url = m.cover_image_url;
  reading_time = m.reading_time;
  comment_count = m.comment_count;
  tags = sorted (tags_of m.id db.post_tags);
  category = category_ref m.category_id c;
  created_at = to_iso_z (some m.created_at);
  updated_at = to_iso_z (some m.updated_at);
  published_at = to_iso_z m.published_at;
}

abbrev pub is_published_row : PostModel → Bool
is_published_row m = status_value m.status == codes "published"

-- `in (select post_id where tag = tag)`
abbrev pub has_tag : Text → Text → List PostTagModel → Bool
has_tag id tag [] = false
has_tag id tag (t ∷ rows) = (t.post_id == id && t.tag == tag) || has_tag id tag rows

-- `a.desc(), id`, where NULL is below every value
abbrev pub later_first : Option ℕ → Option ℕ → Bool → Bool
later_first none none tie = tie
later_first none (some b) tie = false
later_first (some a) none tie = true
later_first (some a) (some b) tie = ltb b a || (nat_eq a b && tie)

module _ (col : Collation) where
  abbrev pub status_filter : PostQuery → PostModel → Bool
  status_filter query m =
      if query.published_only
      then is_published_row m
      else elim (or_none query.status) [ none ↦ true | some s ↦ status_value m.status == s ]

  abbrev pub tag_filter : PostQuery → Db → PostModel → Bool
  tag_filter query db m = elim (or_none query.tag) [
    | none ↦ true
    | some t ↦ has_tag m.id t db.post_tags
  ]

  abbrev pub category_filter : PostQuery → Option Category → Bool
  category_filter query c = elim (or_none query.category) [
    | none ↦ true
    | some s ↦ slug_of c == some s
  ]

  -- `f"%{q.strip()[:100]}%"`
  abbrev pub like_pattern : Text → Text
  like_pattern q = b'%' ∷ (take 100 (strip q) ++ b'%' ∷ [])

  abbrev pub search_filter : PostQuery → PostModel → Bool
  search_filter query m = elim (or_none query.q) [
    | none ↦ true
    | some q ↦ col.ilike (like_pattern q) m.title || col.ilike (like_pattern q) m.summary
  ]

  abbrev pub passes : PostQuery → Db → Joined → Bool
  passes query db (m, c) =
      status_filter query m
      && (tag_filter query db m && (category_filter query c && search_filter query m))

  -- `order_by`
  abbrev pub stands_before : Bool → Joined → Joined → Bool
  stands_before published_only (a, _) (b, _) =
      if published_only
      then later_first a.published_at b.published_at (col.le a.id b.id)
      else later_first (some a.updated_at) (some b.updated_at) (col.le a.id b.id)

  -- The rows of all pages.
  abbrev pub selected : PostQuery → Db → List Joined
  selected query db =
      sort_by (stands_before query.published_only) (keep (passes query db) (joined db))

  -- The database refuses a negative OFFSET, and `total / size` raises for the size 0.
  unfoldable pub list_posts : PostQuery → Db → Result (Page PostSummary)
  list_posts query db =
      if nat_eq query.page 0 && ltb 0 query.size
      then err database_error
      else if nat_eq query.size 0
      then err zero_division_error
      else ok (record {
        items = map (summary_of db) (page_of query.page query.size (selected query db));
        page = query.page;
        size = query.size;
        total = count (passes query db) (joined db);
        pages = page_count (count (passes query db) (joined db)) query.size;
      })

-- `_detail`: the summary and the content of the first row that passes the tests.
unfoldable pub detail : (PostModel → Bool) → Db → Option (PostSummary × Text)
detail where_ db = detail_of (find (λ j. where_ (j.0)) (joined db))
  where
    detail_of : Option Joined → Option (PostSummary × Text)
    detail_of none = none
    detail_of (some (m, c)) = some (summary_of db (m, c), m.content)

-- `get_by_slug` and `get_by_id`
unfoldable pub get_by_slug : Text → Bool → Db → Option (PostSummary × Text)
unfolding detail
get_by_slug slug published_only =
    detail (λ m. m.slug == slug && (not published_only || is_published_row m))

unfoldable pub get_by_id : Text → Db → Option (PostSummary × Text)
unfolding detail
get_by_id post_id = detail (λ m. m.id == post_id)
