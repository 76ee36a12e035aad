-- ===== src/Posts/Api.antt =====
-- services/post-service/app/api/routers/admin.py: the routes under /api/posts/admin. FastAPI runs
-- the router's dependency first, then the checks that a route declares for its parameters and its
-- body.
pub mod Access
pub mod Public
pub mod Answers
use myblog.Kernel.Redis.{Redis}
use myblog.Posts.ReadModel.Totals.{Stats, stats}
use myblog.Web.Security.{Principal, Decoded}
use myblog.Base.{
  ℕ, Option, Text, Bool, leb, true, some, ◌&&◌, length, ◌==◌, none, codes, ◌||◌, list_eq, number_eq,
  string_eq, option_eq, if◌then◌else◌,
}
use myblog.Posts.Domain.{Draft}
use myblog.Posts.ReadModel.{Page, PostSummary, Collation}
use myblog.Base.Unicode.{Unicode}
use myblog.Posts.Handlers.{
  CreatePostCommand, CreateCategoryCommand, PostStore, create, update, publish, unpublish, delete,
  create_category, delete_category,
}
use myblog.Kernel.Events.{Stamp}
use myblog.Base.Python.{or_text}
use myblog.Kernel.Exec.{Exec, gets, pure, ◌>>=◌, ◌>>◌}
use myblog.Web.Fields.{at_most}
use myblog.Posts.Schemas.{write_request, category_request}
use myblog.Web.Guards.{for_admin}
use myblog.Posts.Queries.{admin_list, admin_get}
use myblog.Kernel.Errors.{encoded}

-- `CreatePostRequest` is a PostWriteRequest with `publish`.
pub data AdminRequest : Type 0 where
  get_stats : AdminRequest
  list_all : ℕ → ℕ → Option Text → Option Text → AdminRequest
  get_one : Text → AdminRequest
  post_post : Draft → Bool → AdminRequest
  put_post : Text → Draft → AdminRequest
  post_publish post_unpublish delete_post : Text → AdminRequest
  post_category : CreateCategoryCommand → AdminRequest
  remove_category : Text → AdminRequest

-- The body of the answer: none for 204.
pub data Reply : Type 0 where
  of_stats : Stats → Reply
  of_page : Page PostSummary → Reply
  of_post : PostSummary × Text → Reply
  of_id : Text → Reply
  no_content validation_error : Reply

-- `page: ge=1`, `size: ge=1, le=100`, `status: ^(draft|published)$`, `q: max_length=100`
abbrev pub is_status : Option Text → Bool
is_status none = true
is_status (some t) = t == codes "draft" || t == codes "published"

abbrev pub accepts_list : ℕ → ℕ → Option Text → Option Text → Bool
accepts_list page size status q =
    leb 1 page && (leb 1 size && (leb size 100 && (is_status status && at_most 100 q)))

-- `principal.display_name or principal.username`
abbrev pub create_command : Principal → Draft → Bool → CreatePostCommand
create_command p body publish = record {
  body = body;
  author_id = p.user_id;
  author_name = or_text p.display_name p.username;
  publish = publish;
}

-- A body that the schema refuses is answered with 422.
abbrev pub with_body {ℓ} : {S : Type ℓ} {A : Type 0} → Option A → (A → Exec S Reply) → Exec S Reply
with_body none f = pure validation_error
with_body (some a) f = f a

module _ (R : Redis) (prefix : Text) (u : Unicode) (col : Collation) (s s' : Stamp) where
  -- What the route does; the queries read the database.
  abbrev pub route : AdminRequest → Principal → Exec (PostStore R) Reply
  route get_stats p = gets (λ st. of_stats (stats st.db))
  route (list_all page size status q) p =
      if accepts_list page size status q
      then (λ st. (encoded of_page (admin_list col page size status q st.db), st))
      else pure validation_error
  route (get_one post_id) p = λ st. (encoded of_post (admin_get post_id st.db), st)
  route (post_post body publish) p =
      with_body (write_request body) (λ d. do
        post_id ← create R prefix u s s' (create_command p d publish)
        pure (of_id post_id))
  route (put_post post_id body) p =
      with_body (write_request body)
        (λ d. do update R prefix u s (record { post_id = post_id; body = d }); pure no_content)
  route (post_publish post_id) p = do publish R prefix s post_id; pure no_content
  route (post_unpublish post_id) p = do unpublish R prefix s post_id; pure no_content
  route (delete_post post_id) p = do delete R prefix s post_id; pure no_content
  route (post_category cmd) p =
      with_body (category_request cmd)
        (λ c. do id ← create_category R prefix u s c; pure (of_id id))
  route (remove_category category_id) p = do delete_category R prefix category_id; pure no_content

  -- The router: `dependencies=[Depends(require_admin)]`
  unfoldable pub admin :
      Bool → (Text → Decoded) → Option Text → AdminRequest → Exec (PostStore R) Reply
  admin with_redis decode creds request = for_admin R with_redis decode creds (route request)
