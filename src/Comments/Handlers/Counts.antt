-- ===== src/Comments/Handlers/Counts.antt =====
-- What moderation does, described without the code: which requests are refused, which row changes,
-- and that the message announces the number of approved comments after the change.
use myblog.Base.{
  Text, Bool, some, true, ◌≡◌, arith, String, List, unique, update_at, row_at, false, ◌∷◌,
  delete_at, list_eq, number_eq, string_eq, option_eq, ◌+◌, count-update_at, count-delete_at, [],
}
use myblog.Comments.Handlers.{Action, approve_action, reject_action, delete_action}
use myblog.Kernel.Events.{Instant, Stamp, DomainEvent, str, num}
use myblog.Comments.Repository.{
  CommentModel, Db, comment_key, known_post_key, count_approved_in, is_approved_for,
}
use myblog.Comments.Domain.{CommentStatus, status_eq, approved, rejected, without}
use myblog.Base.Int.{max_zero, pos}

unfoldable pub refuses : Action → CommentStatus → Bool
refuses approve_action status = status_eq status approved
refuses reject_action status = status_eq status rejected
refuses delete_action status = false

-- The comments after an action on the comment `id`.
abbrev pub rows_after : Action → Instant → Text → List CommentModel → List CommentModel
rows_after approve_action now id =
    update_at comment_key id (λ r. record r { status = approved; moderated_at = some now })
rows_after reject_action now id =
    update_at comment_key id (λ r. record r { status = rejected; moderated_at = some now })
rows_after delete_action now id = delete_at comment_key id

abbrev pub event_name : Action → String
event_name approve_action = "comment.approved"
event_name reject_action = "comment.rejected"
event_name delete_action = "comment.deleted"

-- The event about the comment `m` when the comments are `rows`: the count is read from `rows`.
abbrev pub announcement : Stamp → Action → CommentModel → List CommentModel → DomainEvent
announcement s a m rows = record {
  name = event_name a;
  payload =
      ("comment_id", str m.id)
      ∷ ("post_id", str m.post_id)
      ∷ ("approved_comment_count", num (pos (count_approved_in m.post_id rows)))
      ∷ [];
  event_id = s.event_id;
  occurred_at = s.now;
  version = 1;
}

abbrev pub IsValid : Db → Type 0
IsValid db = (unique comment_key db.comments ≡ true) × (unique known_post_key db.known_posts ≡ true)

module _ (id : Text) (m : CommentModel) (rows : List CommentModel) where
  module _ (found : row_at comment_key id rows ≡ some m) (now : Instant) where
    pub count-approve :
        status_eq m.status approved ≡ false
        → count_approved_in m.post_id (rows_after approve_action now id rows)
          ≡ count_approved_in m.post_id rows + 1
    count-approve h = ground (
      arith,
      count-update_at comment_key (is_approved_for m.post_id) id
          (λ r. record r { status = approved; moderated_at = some now }) rows m found,
    )

    pub count-reject :
        max_zero (without (status_eq m.status approved) (count_approved_in m.post_id rows))
        ≡ count_approved_in m.post_id (rows_after reject_action now id rows)
    count-reject = ground (
      arith,
      count-update_at comment_key (is_approved_for m.post_id) id
          (λ r. record r { status = rejected; moderated_at = some now }) rows m found,
    )

    pub count-delete :
        unique comment_key rows ≡ true
        → max_zero (without (status_eq m.status approved) (count_approved_in m.post_id rows))
          ≡ count_approved_in m.post_id (rows_after delete_action now id rows)
    count-delete u =
        ground (arith, count-delete_at comment_key (is_approved_for m.post_id) id rows m u found)
