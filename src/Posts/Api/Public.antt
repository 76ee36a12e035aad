-- ===== src/Posts/Api/Public.antt =====
-- services/post-service/app/api/routers/public.py: the routes under /api/posts for readers. The
-- `Cache-Control` header of the list is left out.
use myblog.Posts.ReadModel.{PostSummary, Collation}
use myblog.Base.{ℕ, Text, Option, Bool, leb, ◌&&◌, if◌then◌else◌}
use myblog.Kernel.Redis.{Redis}
use myblog.Posts.Queries.{Codec, list_published, cached_tags, cached_categories, get_published}
use myblog.Posts.Repository.{Db}
use myblog.Kernel.Exec.{Exec, ◌>>=◌, pure}
use myblog.Web.Fields.{at_most}

pub data PublicRequest : Type 0 where
  get_posts : ℕ → ℕ → Option Text → Option Text → Option Text → PublicRequest
  get_tags get_categories : PublicRequest
  get_slug : Text → PublicRequest

pub data PublicReply (J : Type 0) : Type 0 where
  of_json : J → PublicReply J
  of_view : PostSummary × Text × ℕ → PublicReply J
  validation_error : PublicReply J

-- `page: ge=1, le=1000`, `size: ge=1, le=50`, and the lengths of the filters
abbrev pub accepts_posts : ℕ → ℕ → Option Text → Option Text → Option Text → Bool
accepts_posts page size tag category q =
    leb 1 page
    && (leb page 1000
        && (leb 1 size
            && (leb size 50 && (at_most 30 tag && (at_most 80 category && at_most 100 q)))))

module _ (R : Redis) (codec : Codec R) (col : Collation) (prefix : Text) (ttl : ℕ) (db : Db) where
  unfoldable pub public : PublicRequest → Exec R.State (PublicReply R.Json)
  public (get_posts page size tag category q) =
      if accepts_posts page size tag category q
      then (do
        page ← list_published R codec col prefix ttl db page size tag category q
        pure (of_json page))
      else pure validation_error
  public get_tags = do tags ← cached_tags R codec col prefix ttl db; pure (of_json tags)
  public get_categories = do
    categories ← cached_categories R codec col prefix ttl db
    pure (of_json categories)
  public (get_slug slug) = do
    post ← get_published R codec col prefix ttl db slug
    pure (of_view post)
