-- ===== src/Tests/Comments.antt =====
-- The examples of comment-service, and of its messages to post-service.
use myblog.Comments.Handlers.Moderation
use myblog.Comments.Handlers.Counts
use myblog.Comments.Handlers.Counts.{IsValid}
use myblog.Posts.Handlers
use myblog.Kernel.Events.{Envelope, null, str}
use myblog.Comments.Domain.{KnownPost}
use myblog.Comments.Handlers.{moderate, handle_post_event, approve_action}
use myblog.Comments.Handlers.Moderation.{moderated, moderate_lem}
use myblog.Tests.Sample.{
  counter, prefix, comment_store, stamp, comment, comment_db, post_store, first_post,
  post_db-IsValid,
}
use myblog.Base.{
  codes, some, true, none, ◌≡◌, ◌∷◌, [], row_at, refl, list_eq, number_eq, string_eq, option_eq,
  ◌⊎◌, ◌==◌, Text, false,
}
use myblog.Services.CommentCount.{newest, moderation-counts}
use myblog.Kernel.Errors.{ok}
use myblog.Posts.Repository.{post_key}
use myblog.Comments.Repository.{known_post_key, count_approved_in}
use myblog.Comments.Handlers.Projection.{handle-change}
use myblog.Messaging.Redelivery.{deliver}
use myblog.Services.PostEvents.{post_events_once}

moderate_lem_example :
    moderate counter prefix stamp (codes "k1") approve_action comment_store
    ≡ Moderation.outcome counter prefix stamp approve_action (some comment) comment_store
unfolding Counts.refuses list_eq number_eq
moderate_lem_example =
    moderate_lem counter prefix stamp (codes "k1") comment_store approve_action (refl, refl)

moderation-counts_example :
    let cst' = (moderate counter prefix stamp (codes "k1") approve_action comment_store).1 in
    (e : Envelope) × (newest cst'.outbox ≡ some e)
    × (row_at post_key
          (codes "p1")
          (Handlers.handle_comment_event counter prefix e post_store).1.db.posts
        ≡ some
            (record first_post { comment_count = count_approved_in (codes "p1") cst'.db.comments }))
unfolding list_eq number_eq Counts.refuses
moderation-counts_example =
    moderation-counts counter prefix prefix stamp approve_action (codes "k1") comment first_post
      comment_store post_store (refl, refl) post_db-IsValid refl refl refl

-- The post gets a new title.
abbrev told : KnownPost
told = record {
  post_id = codes "p1";
  slug = codes "hello";
  title = codes "Hi";
  is_published = true;
}

abbrev pub post_updated : Envelope
post_updated = record {
  event_id = some (codes "e9");
  event_type = some "post.updated";
  version = some 1;
  occurred_at = null;
  source = some "post-service";
  correlation_id = none;
  payload = some (
      ("post_id", str (codes "p1"))
      ∷ ("slug", str (codes "hello"))
      ∷ ("title", str (codes "Hi"))
      ∷ ("status", str (codes "published"))
      ∷ []);
}

handle-change_example :
    let (r, st') = handle_post_event counter prefix post_updated comment_store in
    (r ≡ ok tt)
    × (row_at known_post_key (codes "p1") st'.db.known_posts ≡ some told)
    × ((k : Text)
        → (codes "p1" == k) ≡ false
        → row_at known_post_key k st'.db.known_posts
          ≡ row_at known_post_key k comment_db.known_posts)
    × (st'.db.comments ≡ comment_db.comments)
    × IsValid st'.db
    × (st'.outbox ≡ [])
unfolding option_eq string_eq myblog.Kernel.Events.text_at myblog.Kernel.Events.text_or_empty
    list_eq number_eq
handle-change_example =
    handle-change counter prefix post_updated told refl refl refl refl refl refl comment_store
      (refl, refl)

post_events_once_example :
    ((deliver counter true
        (codes "q")
        (handle_post_event counter prefix)
        3
        post_updated
        comment_store).db
      ≡ comment_db)
    ⊎ ((deliver counter true
          (codes "q")
          (handle_post_event counter prefix)
          3
          post_updated
          comment_store).db
        ≡ (handle_post_event counter prefix post_updated comment_store).1.db)
post_events_once_example =
    post_events_once counter prefix (codes "q") true 3 post_updated comment_store
