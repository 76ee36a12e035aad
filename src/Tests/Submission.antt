-- ===== src/Tests/Submission.antt =====
-- The example of a comment that a reader sends.
use myblog.Kernel.Exec.{Exec}
use myblog.Base.{
  Bool, ℕ, Text, Option, some, none, codes, [], ◌∷◌, ◌≡◌, ◌⊎◌, refl, true, false, is_some, list_eq,
  number_eq,
}
use myblog.Base.Python.{or_none}
use myblog.Base.Sorted.{text_le}
use myblog.Kernel.Errors.{ok, err, Exc}
use myblog.Comments.RateLimiter
use myblog.Comments.Repository.{Db}
use myblog.Comments.Handlers.{CommentStore}
use myblog.Comments.Handlers.Submission.{Kept}
use myblog.Comments.Api.{
  SubmitCommentRequest, accepts_submit, submit_command, post_comment, of_id, validation_error,
}
use myblog.Comments.Api.Submission.{submission_lem}
use myblog.Tests.Sample.{counter, prefix, stamp, comment_store, comment}

abbrev post_id : Text
post_id = codes "00000000-0000-4000-8000-000000000001"

abbrev pub db : Db
db = record {
  comments = comment ∷ [];
  known_posts =
      record { post_id = post_id; slug = codes "hello"; title = codes "Hello"; is_published = true }
      ∷ [];
}

abbrev store : CommentStore counter
store = record comment_store { db = db }

abbrev pub body : SubmitCommentRequest
body = record {
  post_id = post_id;
  author_name = codes "Eve";
  author_email = some [];
  content = codes " A good read. ";
  website = none;
}

abbrev pub host : Option Text
host = some (codes "10.0.0.7")

abbrev pub hash_ip : Text → Text
hash_ip t = codes "h"

abbrev limiter : Text → Exec ℕ Bool
limiter = RateLimiter.allow counter 5 600 (codes "ratelimit:comments")

submission_lem_example :
    let (r, st') = post_comment counter prefix stamp text_le hash_ip limiter host body store in
    ((r ≡ ok validation_error) × (accepts_submit body ≡ false) × (st' ≡ store))
    ⊎ ((e : Exc) × (r ≡ err e) × (st'.db ≡ db) × (st'.outbox ≡ []))
    ⊎ ((r ≡ ok (of_id (codes "n1")))
        × (accepts_submit body ≡ true)
        × (is_some (or_none body.website) ≡ false)
        × Kept counter prefix stamp hash_ip limiter (submit_command host body) store st')
unfolding list_eq number_eq
submission_lem_example =
    submission_lem counter prefix stamp text_le hash_ip limiter host body store (refl, refl) refl
