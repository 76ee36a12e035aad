-- ===== src/Comments/Domain.antt =====
-- services/comment-service/app/domain/comment.py
use myblog.Base.{ℕ, ◌+◌, Text, length, leb, if◌then◌else◌}
use myblog.Base.{Bool, true, false, not, ◌&&◌, Option, none, some, List, [], ◌∷◌}
use myblog.Base.Int.{ℤ, pos, sub_ℕ, max_zero}
use myblog.Base.Python.{or_none, strip}
use myblog.Base.Email.{email_matches}
use myblog.Kernel.Errors.{Result, ok, err, raised, business_rule_violation}
use myblog.Kernel.Events.{Instant, str, num, Payload, DomainEvent, Stamp, record_event}

pub data CommentStatus : Type 0 where
  pending approved rejected : CommentStatus

abbrev pub status_eq : CommentStatus → CommentStatus → Bool
status_eq pending pending = true
status_eq approved approved = true
status_eq rejected rejected = true
status_eq _ _ = false

-- `events` is the list that `record_event` appends to.
pub record Comment : Type 0 where
  pub id : Text
  pub post_id : Text
  pub author_name : Text
  pub content : Text
  pub author_email : Option Text
  pub status : CommentStatus
  pub ip_hash : Option Text
  pub created_at : Instant
  pub moderated_at : Option Instant
  pub events : List DomainEvent

-- `_count_payload`
abbrev pub count_payload : Comment → ℤ → Payload
count_payload c count =
    ("comment_id", str c.id)
    ∷ ("post_id", str c.post_id)
    ∷ ("approved_comment_count", num (pos (max_zero count)))
    ∷ []

abbrev bad_email : Option Text → Bool
bad_email none = false
bad_email (some []) = false
bad_email (some (c ∷ t)) = not (email_matches (c ∷ t))

unfoldable pub submit : Stamp → Text → Text → Text → Option Text → Option Text → Result Comment
unfolding strip email_matches
submit s post_id author_name content author_email ip_hash =
    let name = strip author_name in
    let text = strip content in
    if not (leb 2 (length name) && leb (length name) 60)
    then err (raised business_rule_violation)
    else if not (leb 3 (length text) && leb (length text) 2000)
    then err (raised business_rule_violation)
    else if bad_email author_email
    then err (raised business_rule_violation)
    else ok (record {
      id = s.new_id;
      post_id = post_id;
      author_name = name;
      content = text;
      author_email = or_none author_email;
      status = pending;
      ip_hash = ip_hash;
      created_at = s.now;
      moderated_at = none;
      events =
          record_event s "comment.created"
            (("comment_id", str s.new_id)
              ∷ ("post_id", str post_id)
              ∷ ("author_name", str name)
              ∷ [])
            [];
    })

unfoldable pub approve : Stamp → ℕ → Comment → Result Comment
approve s current_approved_count c =
    if status_eq c.status approved
    then err (raised business_rule_violation)
    else ok (record c {
      status = approved;
      moderated_at = some s.now;
      events =
          record_event s "comment.approved" (count_payload c (pos (current_approved_count + 1)))
            c.events;
    })

-- The count without this comment, if it was approved.
abbrev pub without : Bool → ℕ → ℤ
without was_approved n = sub_ℕ n (if was_approved then 1 else 0)

unfoldable pub reject : Stamp → ℕ → Comment → Result Comment
reject s current_approved_count c =
    if status_eq c.status rejected
    then err (raised business_rule_violation)
    else let was_approved = status_eq c.status approved in
      ok (record c {
        status = rejected;
        moderated_at = some s.now;
        events =
            record_event s "comment.rejected"
              (count_payload c (without was_approved current_approved_count)) c.events;
      })

unfoldable pub mark_deleted : Stamp → ℕ → Comment → Comment
mark_deleted s current_approved_count c =
    let was_approved = status_eq c.status approved in
    record c {
      events =
          record_event s "comment.deleted"
            (count_payload c (without was_approved current_approved_count)) c.events;
    }

pub record KnownPost : Type 0 where
  pub post_id : Text
  pub slug : Text
  pub title : Text
  pub is_published : Bool
