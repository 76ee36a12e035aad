-- ===== src/Services/CommentCount.antt =====
-- A moderation in comment-service, and its message delivered to post-service.
use myblog.Kernel.Events
use myblog.Base.{
  list_eq, number_eq, string_eq, option_eq, Text, List, ◌++◌, Option, ◌∷◌, none, [], some, ◌≡◌,
  refl, row_at, row_at-key, false, subst, update_at, row_at-update_at_self, sym,
}
use myblog.Kernel.Redis.{Redis}
use myblog.Comments.Handlers.{CommentStore, moderate}
use myblog.Posts.Domain
use myblog.Comments.Repository.{CommentModel, count_approved_in, comment_key}
use myblog.Comments.Handlers.{Action, approve_action, reject_action, delete_action}
use myblog.Comments.Handlers.Counts
use myblog.Comments.Handlers.Counts.{announcement}
use myblog.Posts.Repository.{PostModel, post_aggregate, post_schema, post_key, write_fields}
use myblog.Posts.Handlers.Lifecycle.{sync_comment_count_lem}
use myblog.Posts.Handlers
use myblog.Posts.Handlers.Saved
use myblog.Kernel.Events.{Stamp, Envelope, build_envelope}
use myblog.Kernel.UnitOfWork.{OutboxMessage}
use myblog.Base.Int.{pos}
use myblog.Comments.Handlers.Moderation.{moderate_lem}

abbrev pub newest : List OutboxMessage → Option Envelope
newest [] = none
newest (m ∷ []) = some m.payload
newest (m ∷ n ∷ rows) = newest (n ∷ rows)

newest-append :
    (rows : List OutboxMessage) (m : OutboxMessage) → newest (rows ++ m ∷ []) ≡ some m.payload
newest-append [] m = refl
newest-append (r ∷ []) m = refl
newest-append (r ∷ q ∷ rows) m = newest-append (q ∷ rows) m

-- The message about the comment `m` when the comments are `rows`, as comment-service sends it.
abbrev message : Text → Stamp → Action → CommentModel → List CommentModel → Envelope
message correlation_id s a m rows =
    build_envelope correlation_id "comment-service" (announcement s a m rows)

module _ (R : Redis) (prefix correlation_id : Text) (s : Stamp) where
  -- post-service reads from it the post and the count.
  dispatch :
      (a : Action) (m : CommentModel) (rows : List CommentModel) (st : Handlers.PostStore R)
      → Handlers.handle_comment_event R prefix (message correlation_id s a m rows) st
        ≡ Handlers.sync_comment_count R prefix m.post_id (pos (count_approved_in m.post_id rows)) st
  unfolding Handlers.handle_comment_event Events.get string_eq option_eq
  dispatch approve_action m rows st = refl
  dispatch reject_action m rows st = refl
  dispatch delete_action m rows st = refl

  module _ (a : Action) (m : CommentModel) (p : PostModel) where
    module _ (rows : List CommentModel) (st : Handlers.PostStore R) (v : Saved.IsValid st.db) where
      delivered :
          row_at post_key m.post_id st.db.posts ≡ some p
          → row_at post_key m.post_id
              (Handlers.handle_comment_event R prefix
                (message correlation_id s a m rows)
                st).1.db.posts
            ≡ some (record p { comment_count = count_approved_in m.post_id rows })
      delivered found =
          let e = row_at-key post_key m.post_id st.db.posts p found in
          let f = write_fields (
            Domain.sync_comment_count (pos (count_approved_in m.post_id rows))
              (Saved.loaded R prefix p st)) in
          rw
            (
              dispatch a m rows st,
              sync_comment_count_lem R prefix m.post_id (pos (count_approved_in m.post_id rows)) st
                  v,
              found,
            )
            (subst (λ k. row_at post_key k (update_at post_key p.id f st.db.posts) ≡ some (f p)) e
              (row_at-update_at_self post_key p.id f (λ x. refl) st.db.posts p
                (subst (λ k. row_at post_key k st.db.posts ≡ some p) (sym e) found)))

-- Both stores have unique keys, the comment is there and may be moderated so, and its post is in
-- post-service. Then the moderation leaves a message in the outbox, and when the newest message is
-- delivered to post-service, the row of the post has the number of approved comments that
-- comment-service then has, and all else of the row is kept.
pub moderation-counts :
    (R : Redis) (comments_prefix posts_prefix : Text) (s : Stamp) (a : Action) (id : Text)
    (m : CommentModel) (p : PostModel) (cst : CommentStore R) (pst : Handlers.PostStore R)
    → Counts.IsValid cst.db
    → Saved.IsValid pst.db
    → row_at comment_key id cst.db.comments ≡ some m
    → Counts.refuses a m.status ≡ false
    → row_at post_key m.post_id pst.db.posts ≡ some p
    → let cst' = (moderate R comments_prefix s id a cst).1 in
      (e : Envelope) × (newest cst'.outbox ≡ some e)
      × (row_at post_key m.post_id (Handlers.handle_comment_event R posts_prefix e pst).1.db.posts
          ≡ some (record p { comment_count = count_approved_in m.post_id cst'.db.comments }))
moderation-counts R cp pp s a id m p cst pst v w found fine post =
    rw (moderate_lem R cp s id cst a v, found, fine)
      (
        message cst.correlation_id s a m (Counts.rows_after a s.now m.id cst.db.comments),
        newest-append cst.outbox _,
        delivered R pp cst.correlation_id s a m p (Counts.rows_after a s.now m.id cst.db.comments)
            pst w post,
      )
