-- ===== src/Comments/Handlers.antt =====
-- services/comment-service/app/application/handlers.py. The limiter and the hash are what the class
-- is given: `allow` is the rate limiter, and `hash_ip` is SHA-256 of the salt and the address, cut.
pub mod Counts
pub mod Submission
pub mod Limited
pub mod Projection
pub mod Moderation
use myblog.Base.{
  list_eq, string_eq, option_eq, number_eq, Text, codes, String, Option, Bool, false, some, true,
  not, ℕ, is_some, none, ◌∷◌, [], ◌==◌, if◌then◌else◌, ◌||◌,
}
use myblog.Kernel.Redis.{Redis}
use myblog.Kernel.Exec.{◌>>=◌, ◌>>◌, Exec, lift, required, throw_if, pure}
use myblog.Comments.Domain
use myblog.Kernel.Events
use myblog.Kernel.Events.{
  Stamp, Payload, Envelope, Value, text_at, text_or_empty, str, payload_or_empty,
}
use myblog.Comments.Repository.{
  comment_aggregate, comment_schema, Repo, get, Db, get_known_post, count_approved, delete_for_post,
  upsert, delete_known_post, update, delete, add,
}
use myblog.Kernel.UnitOfWork.{Store, on_commit, with_uow, Tracked, commit, mutate, new_object}
use myblog.Cache.{bump}
use myblog.Comments.Domain.{KnownPost, Comment}
use myblog.Kernel.Errors.{ok, raised, business_rule_violation, not_found, rate_limited}
use myblog.Base.Python.{or_none}

abbrev pub cache_ns : Text
cache_ns = codes "comments"

pub record SubmitCommentCommand : Type 0 where
  pub post_id : Text
  pub author_name : Text
  pub content : Text
  pub author_email : Option Text
  pub ip : Option Text
  pub honeypot : Option Text

-- The strings that `_moderate` compares.
pub data Action : Type 0 where
  approve_action reject_action delete_action : Action

-- `post is not None and post.is_published`
abbrev pub accepts_comments : Option KnownPost → Bool
accepts_comments none = false
accepts_comments (some p) = p.is_published

-- `p.get("status") == "published"`
abbrev pub is_published_value : Option Value → Bool
is_published_value (some (str t)) = t == codes "published"
is_published_value _ = false

abbrev pub is_post_change : Option String → Bool
is_post_change t =
    t == some "post.published" || t == some "post.updated" || t == some "post.unpublished"

abbrev pub CommentStore : Redis → Type 0
CommentStore R = Store Db R.State

abbrev pub Body : Redis → Type 0 → Type 0
Body R B = Repo R.State B

module _ (R : Redis) (prefix : Text) where
  abbrev invalidate : Body R (Unit {0})
  invalidate = on_commit (bump R prefix cache_ns)

  module _ (hash_ip : Text → Text) (allow : Text → Exec R.State Bool) where
    -- `_hash_ip`: an empty address has no hash.
    abbrev pub hash_of : Option Text → Option Text
    hash_of none = none
    hash_of (some []) = none
    hash_of (some (c ∷ ip)) = some (hash_ip (c ∷ ip))

    -- The lines of `submit` inside the transaction.
    submit_body : Stamp → SubmitCommentCommand → Option Text → Body R Text
    submit_body s cmd ip_hash = do
      post ← get_known_post cmd.post_id
      throw_if (not (accepts_comments post)) (raised not_found)
      c ← lift (Domain.submit s cmd.post_id cmd.author_name cmd.content cmd.author_email ip_hash)
      comment ← new_object c
      add comment
      commit
      pure c.id

    -- The limiter acts on Redis, outside the transaction.
    allowed : Option Text → Exec (CommentStore R) Bool
    allowed none st = (ok true, st)
    allowed (some []) st = (ok true, st)
    allowed (some (c ∷ h)) st = let (r, w) = allow (c ∷ h) st.world in (r, record st { world = w })

    unfoldable pub submit : Stamp → SubmitCommentCommand → Exec (CommentStore R) Text
    unfolding submit_body allowed
    submit s cmd = do
      throw_if (is_some (or_none cmd.honeypot)) (raised business_rule_violation)
      within ← allowed (hash_of cmd.ip)
      throw_if (not within) (raised rate_limited)
      with_uow (submit_body s cmd (hash_of cmd.ip))

  -- What `_moderate` does with the comment it found.
  perform : Stamp → Action → Tracked Comment → ℕ → Body R (Unit {0})
  perform s approve_action comment n = do
    comment ← mutate comment (Domain.approve s n comment.1)
    update comment
  perform s reject_action comment n = do
    comment ← mutate comment (Domain.reject s n comment.1)
    update comment
  perform s delete_action comment n = do
    comment ← mutate comment (ok (Domain.mark_deleted s n comment.1))
    delete comment

  moderate_body : Stamp → Text → Action → Body R (Unit {0})
  unfolding perform
  moderate_body s comment_id action = do
    found ← get comment_id
    comment ← required found
    n ← count_approved comment.1.post_id
    perform s action comment n
    invalidate
    commit

  -- `approve`, `reject` and `delete` are this at their action.
  unfoldable pub moderate : Stamp → Text → Action → Exec (CommentStore R) (Unit {0})
  unfolding moderate_body
  moderate s comment_id action = with_uow (moderate_body s comment_id action)

  -- `PostEventsHandler.__call__`, by the type of the event.
  forget_post : Payload → Body R (Unit {0})
  forget_post p = do
    post_id ← lift (text_at "post_id" p)
    delete_for_post post_id
    delete_known_post post_id
    invalidate
    commit

  learn_post : Payload → Body R (Unit {0})
  learn_post p = do
    post_id ← lift (text_at "post_id" p)
    slug ← lift (text_or_empty "slug" p)
    title ← lift (text_or_empty "title" p)
    upsert (record {
      post_id = post_id;
      slug = slug;
      title = title;
      is_published = is_published_value (Events.get "status" p);
    })
    invalidate
    commit

  unfoldable pub handle_post_event : Envelope → Exec (CommentStore R) (Unit {0})
  unfolding forget_post learn_post
  handle_post_event e = with_uow (
      if e.event_type == some "post.deleted"
      then forget_post (payload_or_empty e)
      else if is_post_change e.event_type
      then learn_post (payload_or_empty e)
      else pure tt)
