-- ===== src/Tests/Columns.antt =====
-- The example of the columns of post-service: an administrator creates a post and comments on it
-- are counted.
use myblog.Base.{Text, none, some, codes, [], ◌∷◌, true, arith, ◌≡◌, list_eq, subst}
use myblog.Kernel.Events.{Envelope, str, num, null}
use myblog.Base.Int.{pos}
use myblog.Web.Security.{Decoded, claims, Claims, principal_of}
use myblog.Posts.Handlers.{PostStore, handle_comment_event}
use myblog.Posts.Api.{AdminRequest, post_post, admin}
use myblog.Posts.Columns.{ShortDb}
use myblog.Posts.Columns.Routes.{FitsPrincipal}
use myblog.Posts.Columns.Reached.{start, request, event, FitsTokens}
use myblog.Posts.Columns.Stored.{StoredDb, reached-fits}
use myblog.Tests.Sample.{
  counter, prefix, ascii, code_points, stamp, later, draft, post_store, post_db,
}

abbrev author : Claims
author = record {
  typ = some (codes "access");
  sub = codes "u1";
  username = some (codes "ada");
  name = some (codes "Ada");
  role = some (codes "admin");
  jti = codes "j1";
  exp = 100;
}

abbrev as_author : Text → Decoded
as_author t = claims author

as_author-fits : FitsTokens as_author
as_author-fits t c h =
    let same : author ≡ c = cc in
    subst (λ x. FitsPrincipal (principal_of x)) same
      (record { user_id = ground arith; username = ground arith; display_name = ground arith })

post_db-fits : ShortDb post_db
post_db-fits = record {
  posts = (
    record {
      id = ground arith;
      title = ground arith;
      slug = ground arith;
      summary = ground arith;
      author_id = ground arith;
      author_name = ground arith;
      category_id = ground arith;
      cover_image_url = tt;
    },
    tt,
  );
  post_tags = (record { post_id = ground arith; tag = ground arith }, tt);
  categories = (
    record {
      id = ground arith;
      name = ground arith;
      slug = ground arith;
      description = ground arith;
      image_url = tt;
    },
    tt,
  );
}

abbrev creation : AdminRequest
creation = post_post draft true

abbrev counted : Envelope
counted = record {
  event_id = some (codes "e9");
  event_type = some "comment.approved";
  version = some 1;
  occurred_at = null;
  source = some "comment-service";
  correlation_id = none;
  payload = some (("post_id", str (codes "n1")) ∷ ("approved_comment_count", num (pos 2)) ∷ []);
}

abbrev created : PostStore counter
created =
    (admin counter prefix ascii code_points stamp later true as_author (some (codes "t")) creation
      post_store).1

reached-fits_example : StoredDb (handle_comment_event counter prefix counted created).1.db
reached-fits_example =
    reached-fits counter prefix ascii code_points true as_author post_store
      (handle_comment_event counter prefix counted created).1 as_author-fits post_db-fits
      (event counted created (
        request stamp later (some (codes "t")) creation post_store (ground arith) tt (ground arith)
          start))
