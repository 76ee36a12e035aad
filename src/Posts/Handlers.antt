-- ===== src/Posts/Handlers.antt =====
-- services/post-service/app/application/commands/handlers.py and integration_handlers.py.
pub mod Saved
pub mod Lifecycle
pub mod Update
pub mod Create
use myblog.Base.{
  list_eq, number_eq, string_eq, option_eq, Text, codes, String, Option, Bool, ◌==◌, some, false,
  if◌then◌else◌, none, ◌||◌, true, ◌∷◌, not, is_some, [],
}
use myblog.Base.Unicode.{Unicode}
use myblog.Kernel.Redis.{Redis}
use myblog.Kernel.Exec.{◌>>=◌, ◌>>◌, required, Exec, lift, throw_if, pure}
use myblog.Kernel.Events
use myblog.Posts.Domain
use myblog.Posts.Repository
use myblog.Posts.Repository.{post_aggregate, post_schema, Db}
use myblog.Posts.Domain.{Draft, Post, change_slug}
use myblog.Kernel.Events.{Stamp, text_at, Value, Envelope, payload_or_empty, num}
use myblog.Kernel.UnitOfWork.{Tracked, on_commit, Store, mutate, with_uow, new_object, commit}
use myblog.Base.Int.{ℤ, pos}
use myblog.Kernel.Errors.{
  ok, raised, Result, err, conflict, out_of_fuel, value_error, business_rule_violation,
}
use myblog.Posts.UniqueSlug.{free_slug}
use myblog.Cache.{bump}
use myblog.Base.Python.{or_none}

abbrev pub posts_ns : Text
posts_ns = codes "posts"

pub record CreatePostCommand : Type 0 where
  pub body : Draft
  pub author_id : Text
  pub author_name : Text
  pub publish : Bool

pub record UpdatePostCommand : Type 0 where
  pub post_id : Text
  pub body : Draft

pub record CreateCategoryCommand : Type 0 where
  pub name : Text
  pub description : Text
  pub image_url : Option Text

abbrev pub PostStore : Redis → Type 0
PostStore R = Store Db R.State

abbrev pub Body : Redis → Type 0 → Type 0
Body R B = Repository.Repo R.State B

-- `payload.get("approved_comment_count", 0)` through `int`.
count_of : Option Value → Result ℤ
count_of none = ok (pos 0)
count_of (some (num n)) = ok n
count_of (some v) = err value_error

abbrev pub is_count_event : Option String → Bool
is_count_event t =
    t == some "comment.approved" || t == some "comment.rejected" || t == some "comment.deleted"

module _ (R : Redis) (prefix : Text) where
  abbrev pub invalidate : Body R (Unit {0})
  invalidate = on_commit (bump R prefix posts_ns)

  -- `_unique_slug`
  unfoldable pub unique_slug : Text → Option Text → Body R Text
  unique_slug base exclude u = elim (free_slug base (or_none exclude) u.session.posts) [
    | none ↦ (err out_of_fuel, u)
    | some slug ↦ (ok slug, u)
  ]

  -- `_check_category`
  unfoldable pub check_category : Option Text → Body R (Unit {0})
  check_category none u = (ok tt, u)
  check_category (some []) u = (ok tt, u)
  check_category (some (c ∷ t)) u =
      (do
        category ← Repository.get_category (c ∷ t)
        throw_if (not (is_some category)) (raised business_rule_violation))
        u

  -- `_get`
  abbrev get_post : Text → Body R (Tracked Post)
  get_post post_id = do found ← Repository.get post_id; required found

  -- `if cmd.publish: post.publish()`
  abbrev pub publish_if : Bool → Stamp → Tracked Post → Body R (Tracked Post)
  publish_if true s p = mutate p (Domain.publish s p.1)
  publish_if false s p = pure p

  pub create_body : Unicode → Stamp → Stamp → CreatePostCommand → Body R Text
  create_body u s s' cmd = do
    check_category cmd.body.category_id
    made ← lift (Domain.create u s cmd.author_id cmd.author_name cmd.body)
    p ← new_object made
    slug ← unique_slug p.1.slug none
    p ← mutate p (ok (change_slug slug p.1))
    p ← publish_if cmd.publish s' p
    Repository.add p
    invalidate
    commit
    pure p.1.id

  unfoldable pub create : Unicode → Stamp → Stamp → CreatePostCommand → Exec (PostStore R) Text
  unfolding create_body check_category unique_slug
  create u s s' cmd = with_uow (create_body u s s' cmd)

  -- `cmd.slug and uow.posts.slug_exists(post.slug, exclude_id=post.id)`
  unfoldable pub slug_conflict : Option Text → Tracked Post → Body R Bool
  slug_conflict none p u = (ok false, u)
  slug_conflict (some []) p u = (ok false, u)
  slug_conflict (some (c ∷ t)) p u = Repository.slug_exists p.1.slug (some p.1.id) u

  pub update_body : Unicode → Stamp → UpdatePostCommand → Body R (Unit {0})
  update_body u s cmd = do
    p ← get_post cmd.post_id
    check_category cmd.body.category_id
    p ← mutate p (Domain.update u s cmd.body p.1)
    taken ← slug_conflict cmd.body.slug p
    throw_if taken (raised conflict)
    Repository.update p
    invalidate
    commit

  unfoldable pub update : Unicode → Stamp → UpdatePostCommand → Exec (PostStore R) (Unit {0})
  unfolding update_body check_category slug_conflict
  update u s cmd = with_uow (update_body u s cmd)

  publish_body : Stamp → Text → Body R (Unit {0})
  publish_body s post_id = do
    p ← get_post post_id
    p ← mutate p (Domain.publish s p.1)
    Repository.update p
    invalidate
    commit

  unfoldable pub publish : Stamp → Text → Exec (PostStore R) (Unit {0})
  unfolding publish_body
  publish s post_id = with_uow (publish_body s post_id)

  unpublish_body : Stamp → Text → Body R (Unit {0})
  unpublish_body s post_id = do
    p ← get_post post_id
    p ← mutate p (Domain.unpublish s p.1)
    Repository.update p
    invalidate
    commit

  unfoldable pub unpublish : Stamp → Text → Exec (PostStore R) (Unit {0})
  unfolding unpublish_body
  unpublish s post_id = with_uow (unpublish_body s post_id)

  delete_body : Stamp → Text → Body R (Unit {0})
  delete_body s post_id = do
    p ← get_post post_id
    p ← mutate p (ok (Domain.mark_deleted s p.1))
    Repository.delete p
    invalidate
    commit

  unfoldable pub delete : Stamp → Text → Exec (PostStore R) (Unit {0})
  unfolding delete_body
  delete s post_id = with_uow (delete_body s post_id)

  -- What follows once the post is found; without a post nothing is done.
  unfoldable pub sync_found : ℤ → Option (Tracked Post) → Body R (Unit {0})
  sync_found count none = pure tt
  sync_found count (some p) = do
    p ← mutate p (ok (Domain.sync_comment_count count p.1))
    Repository.update p
    invalidate
    commit

  unfoldable pub sync_comment_count : Text → ℤ → Exec (PostStore R) (Unit {0})
  unfolding sync_found
  sync_comment_count post_id count =
      with_uow (do found ← Repository.get post_id; sync_found count found)

  create_category_body : Unicode → Stamp → CreateCategoryCommand → Body R Text
  create_category_body u s cmd = do
    c ← lift (Domain.create_category u s cmd.name cmd.description cmd.image_url)
    taken ← Repository.category_slug_exists c.slug
    throw_if taken (raised conflict)
    Repository.add_category c
    invalidate
    commit
    pure c.id

  unfoldable pub create_category : Unicode → Stamp → CreateCategoryCommand → Exec (PostStore R) Text
  unfolding create_category_body
  create_category u s cmd = with_uow (create_category_body u s cmd)

  delete_category_body : Text → Body R (Unit {0})
  delete_category_body category_id = do
    found ← Repository.get_category category_id
    c ← required found
    used ← Repository.category_in_use category_id
    throw_if used (raised conflict)
    Repository.delete_category c
    invalidate
    commit

  unfoldable pub delete_category : Text → Exec (PostStore R) (Unit {0})
  unfolding delete_category_body
  delete_category category_id = with_uow (delete_category_body category_id)

  -- integration_handlers.py, `CommentEventsHandler.__call__`
  unfoldable pub handle_comment_event : Envelope → Exec (PostStore R) (Unit {0})
  unfolding sync_comment_count count_of text_at
  handle_comment_event e =
      if is_count_event e.event_type
      then (do
        post_id ← lift (text_at "post_id" (payload_or_empty e))
        count ← lift (count_of (Events.get "approved_comment_count" (payload_or_empty e)))
        sync_comment_count post_id count)
      else pure tt
