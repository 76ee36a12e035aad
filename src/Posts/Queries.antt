-- ===== src/Posts/Queries.antt =====
-- services/post-service/app/application/queries/handlers.py and infrastructure/view_counter.py.
-- A query reads the tables `db`, and Redis through the cache.
pub mod Reader
use myblog.Cache.{get_or_load}
use myblog.Kernel.Redis.{Redis, except_redis}
use myblog.Posts.Repository.{Db}
use myblog.Posts.ReadModel.{
  Collation, PostQuery, PostSummary, Page, list_posts, get_by_slug, get_by_id,
}
use myblog.Posts.ReadModel.Totals
use myblog.Posts.Handlers.{posts_ns}
use myblog.Base.{ℕ, Text, Option, false, ◌≡◌, true, List, none, codes, ◌++◌, some}
use myblog.Kernel.Errors.{Result, err, ok, Exc, raised, not_found, encoded}
use myblog.Kernel.Exec.{Exec, throw, ◌>>=◌, pure}

-- The JSON values of the answers, which `json.dumps` and `json.loads` carry through Redis, and the
-- hash that `make_key` makes of its parts.
pub record Codec (R : Redis) : Type 0 where
  pub page : Page PostSummary → R.Json
  pub post : Option (PostSummary × Text) → R.Json
  pub tag_list : List (Text × ℕ) → R.Json
  pub category_list : List Totals.CategoryCount → R.Json
  pub read_post : R.Json → Option (PostSummary × Text)
  pub slug_key : Text → Text
  pub list_key : PostQuery → Text

-- What is read back is what was written.
pub record IsLawful (R : Redis) (codec : Codec R) : Type 0 where
  pub post_back : (o : Option (PostSummary × Text)) → codec.read_post (codec.post o) ≡ o

-- The query of `list_published`
abbrev pub public_query : ℕ → ℕ → Option Text → Option Text → Option Text → PostQuery
public_query page size tag category q = record {
  page = page;
  size = size;
  published_only = true;
  status = none;
  tag = tag;
  category = category;
  q = q;
}

-- The query of `admin_list`
abbrev pub admin_query : ℕ → ℕ → Option Text → Option Text → PostQuery
admin_query page size status q = record {
  page = page;
  size = size;
  published_only = false;
  status = status;
  tag = none;
  category = none;
  q = q;
}

module _ (R : Redis) where
  -- `RedisViewCounter.hit`
  abbrev pub hit : Text → Exec R.State ℕ
  hit post_id = except_redis (R.incr (codes "post:views:" ++ post_id)) (pure 0)

  -- `if post is None: raise NotFoundError(…)`, and the count of views beside the post
  unfoldable pub counted_view : Option (PostSummary × Text) → Exec R.State (PostSummary × Text × ℕ)
  counted_view none = throw (raised not_found)
  counted_view (some (post, content)) = do views ← hit post.id; pure (post, content, views)

module _ (R : Redis) (codec : Codec R) (col : Collation) (prefix : Text) (ttl : ℕ) (db : Db) where
  unfoldable pub list_published :
      ℕ → ℕ → Option Text → Option Text → Option Text → Exec R.State R.Json
  list_published page size tag category q =
      let query = public_query page size tag category q in
      get_or_load R prefix posts_ns (codec.list_key query) ttl
        (encoded codec.page (list_posts col query db))

  unfoldable pub get_published : Text → Exec R.State (PostSummary × Text × ℕ)
  unfolding counted_view
  get_published slug = do
    value ←
        get_or_load R prefix posts_ns (codec.slug_key slug) ttl
          (ok (codec.post (get_by_slug slug true db)))
    counted_view R (codec.read_post value)

  unfoldable pub cached_tags : Exec R.State R.Json
  cached_tags =
      get_or_load R prefix posts_ns (codes "tags") ttl (ok (codec.tag_list (Totals.tags col db)))

  unfoldable pub cached_categories : Exec R.State R.Json
  cached_categories =
      get_or_load R prefix posts_ns (codes "categories") ttl
        (ok (codec.category_list (Totals.categories col db)))

-- The queries of the administrator go to the tables.
abbrev pub admin_list :
    Collation → ℕ → ℕ → Option Text → Option Text → Db → Result (Page PostSummary)
admin_list col page size status q = list_posts col (admin_query page size status q)

abbrev pub found_or_error : Option (PostSummary × Text) → Result (PostSummary × Text)
found_or_error none = err (raised not_found)
found_or_error (some d) = ok d

unfoldable pub admin_get : Text → Db → Result (PostSummary × Text)
admin_get post_id db = found_or_error (get_by_id post_id db)
