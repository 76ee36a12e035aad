-- ===== src/Comments/Api/Submission.antt =====
-- What comes of a comment that a reader sends: `submit` of app/api/routers/comments.py, behind the
-- schema of app/api/schemas.py.
use myblog.Base.{
  Text, Option, Bool, Bool-cases, inl, inr, true, false, ◌≡◌, ◌⊎◌, refl, has_key, is_some, list_eq,
  number_eq,
}
use myblog.Base.Python.{or_none}
use myblog.Kernel.Errors.{ok, err, Exc}
use myblog.Kernel.Events.{Stamp}
use myblog.Kernel.Exec.{Exec}
use myblog.Kernel.Redis.{Redis}
use myblog.Comments.Repository.{comment_key}
use myblog.Comments.Handlers.{CommentStore}
use myblog.Comments.Handlers.Counts.{IsValid}
use myblog.Comments.Handlers.Submission.{submit-cases, Kept}
use myblog.Comments.Api.{
  SubmitCommentRequest, accepts_submit, submit_command, post_comment, of_id, validation_error,
}

module _ (R : Redis) (prefix : Text) (s : Stamp) (id_le : Text → Text → Bool)
    (hash_ip : Text → Text) (allow : Text → Exec R.State Bool) (host : Option Text) where
  -- A comment that a reader sends, on valid tables and with a fresh identifier, has one of three
  -- outcomes: the schema refuses the body and nothing changes; an exception is raised and the
  -- tables and the outbox are as they were; or the body passed the schema with an empty honeypot,
  -- the post is known and published, and exactly one comment is added: on that post, pending, with
  -- the name (of 2 to 60 characters) and the text (of 3 to 2000) of the body without the space
  -- around them, and the event that announces it is put into the outbox.
  pub submission_lem :
      (body : SubmitCommentRequest) (st : CommentStore R)
      → IsValid st.db
      → has_key comment_key s.new_id st.db.comments ≡ false
      → let (r, st') = post_comment R prefix s id_le hash_ip allow host body st in
        ((r ≡ ok validation_error) × (accepts_submit body ≡ false) × (st' ≡ st))
        ⊎ ((e : Exc) × (r ≡ err e) × (st'.db ≡ st.db) × (st'.outbox ≡ st.outbox))
        ⊎ ((r ≡ ok (of_id s.new_id))
            × (accepts_submit body ≡ true)
            × (is_some (or_none body.website) ≡ false)
            × Kept R prefix s hash_ip allow (submit_command host body) st st')
  unfolding post_comment
  submission_lem body st v fresh = elim (Bool-cases (accepts_submit body)) [
    | inr refused ↦ rw refused (inl (refl, refl, refl))
    | inl accepted ↦
        elim (submit-cases R prefix s hash_ip allow (submit_command host body) st v fresh) [
          | inl (e, raised, tables, sent) ↦
              rw (accepted, raised) (inr (inl (e, refl, tables, sent)))
          | inr (human, fine, kept) ↦ rw (accepted, fine) (inr (inr (refl, refl, human, kept)))
        ]
  ]
