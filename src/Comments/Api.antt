-- ===== src/Comments/Api.antt =====
-- services/comment-service/app/api/routers/comments.py. FastAPI runs the router's dependency first,
-- then the checks that a route declares for its parameters and its body.
pub mod Access
pub mod Submission
use myblog.Comments.ReadModel.{CommentPage, StatusCounts, admin_list, counts}
use myblog.Kernel.Redis.{Redis}
use myblog.Base.{Text, Option, Bool, ℕ, if◌then◌else◌, leb, ◌&&◌}
use myblog.Comments.Handlers.{SubmitCommentCommand, CommentStore, Action, submit, moderate}
use myblog.Web.Fields.{at_most, between}
use myblog.Comments.Domain.{CommentStatus}
use myblog.Kernel.Events.{Stamp}
use myblog.Web.Security.{Principal, Decoded}
use myblog.Base.Python.{or_none}
use myblog.Kernel.Exec.{Exec, ◌>>=◌, pure, gets, ◌>>◌}
use myblog.Web.Guards.{for_admin}
use myblog.Kernel.Errors.{encoded}

pub record SubmitCommentRequest : Type 0 where
  pub post_id : Text
  pub author_name : Text
  pub author_email : Option Text
  pub content : Text
  pub website : Option Text

pub data AdminRequest : Type 0 where
  list_all : Option CommentStatus → ℕ → ℕ → AdminRequest
  get_counts : AdminRequest
  post_action : Text → Action → AdminRequest

pub data Reply : Type 0 where
  of_page : CommentPage → Reply
  of_counts : StatusCounts → Reply
  of_id : Text → Reply
  no_content validation_error : Reply

-- `body.author_email or None`, and the address of the client
abbrev pub submit_command : Option Text → SubmitCommentRequest → SubmitCommentCommand
submit_command host body = record {
  post_id = body.post_id;
  author_name = body.author_name;
  content = body.content;
  author_email = or_none body.author_email;
  ip = host;
  honeypot = body.website;
}

-- The fields of `SubmitCommentRequest` in app/api/schemas.py
abbrev pub accepts_submit : SubmitCommentRequest → Bool
accepts_submit body =
    between 36 36 body.post_id
    && (between 2 60 body.author_name
        && (at_most 254 body.author_email
            && (between 3 2000 body.content && at_most 200 body.website)))

module _ (R : Redis) (prefix : Text) (s : Stamp) (id_le : Text → Text → Bool) where
  -- `submit`
  unfoldable pub post_comment :
      (Text → Text)
      → (Text → Exec R.State Bool)
      → Option Text
      → SubmitCommentRequest
      → Exec (CommentStore R) Reply
  post_comment hash_ip allow host body =
      if accepts_submit body
      then (do id ← submit R prefix hash_ip allow s (submit_command host body); pure (of_id id))
      else pure validation_error

  -- `page: ge=1`, `size: ge=1, le=100`
  abbrev pub route : AdminRequest → Principal → Exec (CommentStore R) Reply
  route (list_all status page size) p =
      if leb 1 page && (leb 1 size && leb size 100)
      then (λ st. (encoded of_page (admin_list id_le status page size st.db), st))
      else pure validation_error
  route get_counts p = gets (λ st. of_counts (counts st.db))
  route (post_action comment_id action) p = do
    moderate R prefix s comment_id action
    pure no_content

  -- The router `admin`: `dependencies=[Depends(require_admin)]`
  unfoldable pub admin :
      Bool → (Text → Decoded) → Option Text → AdminRequest → Exec (CommentStore R) Reply
  admin with_redis decode creds request = for_admin R with_redis decode creds (route request)
