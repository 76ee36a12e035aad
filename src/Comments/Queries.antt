-- ===== src/Comments/Queries.antt =====
-- services/comment-service/app/application/handlers.py: `CommentQueryHandler`. The lists for the
-- administrator are those of the read model.
use myblog.Kernel.Redis.{Redis}
use myblog.Base.{Text, ℕ, List, Bool}
use myblog.Comments.ReadModel.{PublicComment, approved_for_post}
use myblog.Comments.Repository.{Db}
use myblog.Kernel.Exec.{Exec}
use myblog.Cache.{get_or_load}
use myblog.Comments.Handlers.{cache_ns}
use myblog.Kernel.Errors.{ok}

module _ (R : Redis) (prefix : Text) (ttl : ℕ) (post_key : Text → Text)
    (json : List PublicComment → R.Json) (id_le : Text → Text → Bool) where
  unfoldable pub cached_for_post : Text → Db → Exec R.State R.Json
  cached_for_post post_id db =
      get_or_load R prefix cache_ns (post_key post_id) ttl
        (ok (json (approved_for_post id_le post_id db)))
