-- ===== src/Services/PostEvents.antt =====
-- The events of post-service, delivered to comment-service any number of times.
use myblog.Kernel.Redis.{Redis}
use myblog.Kernel.Events
use myblog.Comments.Repository.{Db, of_post}
use myblog.Comments.Handlers.{CommentStore, handle_post_event, is_post_change, is_published_value}
use myblog.Comments.Repository.{comment_key, known_post_key, upserted}
use myblog.Kernel.Errors.{Result, ok, err}
use myblog.Base.{
  Text, if◌then◌else◌, Bool, ◌≡◌, arith, delete_at, ◌==◌, unique, ◌&&◌, some, list_eq, number_eq,
  string_eq, option_eq, delete_at_twice, ℕ, refl, ◌⊎◌, ◌∙◌, ap, sym,
}
use myblog.Kernel.Events.{Envelope, text_at, payload_or_empty, text_or_empty}
use myblog.Comments.Domain.{KnownPost}
use myblog.Messaging.Redelivery.{deliver, redelivery_lem}
use myblog.Comments.Handlers.Projection.{upserted_twice}

-- What an event makes of the database, by itself.
abbrev checked_db : Db → Db → Db
checked_db old new =
    if unique comment_key new.comments && unique known_post_key new.known_posts then new else old

abbrev forgotten : Result Text → Db → Db
forgotten (ok id) db = checked_db db (record db {
  comments = delete_at of_post id db.comments;
  known_posts = delete_at known_post_key id db.known_posts;
})
forgotten (err e) db = db

abbrev learned : Result Text → Result Text → Result Text → Bool → Db → Db
learned (ok id) (ok slug) (ok title) shown db = checked_db db (record db {
  known_posts =
      upserted (record { post_id = id; slug = slug; title = title; is_published = shown })
        db.known_posts;
})
learned _ _ _ shown db = db

abbrev after_event : Envelope → Db → Db
after_event e db =
    if e.event_type == some "post.deleted"
    then forgotten (text_at "post_id" (payload_or_empty e)) db
    else if is_post_change e.event_type
    then learned (text_at "post_id" (payload_or_empty e))
        (text_or_empty "slug" (payload_or_empty e)) (text_or_empty "title" (payload_or_empty e))
        (is_published_value (Events.get "status" (payload_or_empty e))) db
    else db

module _ (R : Redis) (prefix : Text) where
  handled_db :
      (e : Envelope) (st : CommentStore R)
      → (handle_post_event R prefix e st).1.db ≡ after_event e st.db
  unfolding handle_post_event
  handled_db e st = ground arith

forgotten_twice : (r : Result Text) (db : Db) → forgotten r (forgotten r db) ≡ forgotten r db
forgotten_twice (ok id) db = ground (
  arith,
  delete_at_twice of_post id db.comments,
  delete_at_twice known_post_key id db.known_posts,
)
forgotten_twice (err e) db = refl

learned_twice :
    (a b c : Result Text) (shown : Bool) (db : Db)
    → learned a b c shown (learned a b c shown db) ≡ learned a b c shown db
learned_twice (ok id) (ok slug) (ok title) shown db =
    let p : KnownPost = record { post_id = id; slug = slug; title = title; is_published = shown } in
    ground (arith, upserted_twice p db.known_posts)
learned_twice (err e) b c shown db = refl
learned_twice (ok id) (err e) c shown db = refl
learned_twice (ok id) (ok slug) (err e) shown db = refl

after_event_twice : (e : Envelope) (db : Db) → after_event e (after_event e db) ≡ after_event e db
after_event_twice e db = ground (
  arith,
  forgotten_twice (text_at "post_id" (payload_or_empty e)) db,
  learned_twice (text_at "post_id" (payload_or_empty e)) (text_or_empty "slug" (payload_or_empty e))
      (text_or_empty "title" (payload_or_empty e))
      (is_published_value (Events.get "status" (payload_or_empty e))) db,
)

-- For every database, event, Redis and number of deliveries by the broker, comment-service's
-- database after them is the one before or the one after a single call of the handler: an event
-- about a post has its effect at most once. Nothing is assumed of the event or the database.
pub post_events_once :
    (R : Redis) (prefix queue : Text) (with_redis : Bool) (n : ℕ) (e : Envelope)
    (st : CommentStore R)
    → ((deliver R with_redis queue (handle_post_event R prefix) n e st).db ≡ st.db)
      ⊎ ((deliver R with_redis queue (handle_post_event R prefix) n e st).db
          ≡ (handle_post_event R prefix e st).1.db)
post_events_once R prefix queue with_redis n e st =
    redelivery_lem R with_redis queue (handle_post_event R prefix)
      (λ e s t same.
        handled_db R prefix e s ∙ ap (after_event e) same ∙ sym (handled_db R prefix e t))
      (λ e s.
        handled_db R prefix e (handle_post_event R prefix e s).1
        ∙ ap (after_event e) (handled_db R prefix e s)
        ∙ after_event_twice e s.db
        ∙ sym (handled_db R prefix e s))
      n e st
