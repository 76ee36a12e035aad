-- ===== src/Comments/Handlers/Submission.antt =====
-- What comes of a comment that a reader sends: `submit` of app/application/handlers.py.
use myblog.Base.{
  ◌≤◌, Text, Option, Bool, Bool-cases, inl, inr, some, none, true, false, not, [], ◌∷◌, ◌++◌, ◌≡◌,
  ◌⊎◌, refl, row_at, has_key, length, is_some, unique-append, arith, list_eq, number_eq,
}
use myblog.Base.Python.{or_none, strip}
use myblog.Kernel.Errors.{
  Result, Result-cases, ok, err, Exc, raised, not_found, business_rule_violation, rate_limited,
}
use myblog.Kernel.Events.{Stamp, str, record_event}
use myblog.Kernel.Exec.{Exec, throw_if, ◌>>=◌, ◌>>◌}
use myblog.Kernel.Redis.{Redis}
use myblog.Kernel.UnitOfWork.{outbox_rows, with_uow}
use myblog.Comments.Domain
use myblog.Comments.Domain.{Comment, pending, KnownPost}
use myblog.Comments.Repository.{comment_key, known_post_key, to_model}
use myblog.Comments.Handlers.{
  CommentStore, SubmitCommentCommand, submit, submit_body, allowed, hash_of, accepts_comments,
}
use myblog.Comments.Handlers.Counts.{IsValid}

-- The comment that is made of a request: pending, on the post that was asked for, with the name and
-- the text without the space around them, and with the one event that announces it.
pub record IsMadeOf (s : Stamp) (cmd : SubmitCommentCommand) (c : Comment) : Type 0 where
  id : c.id ≡ s.new_id
  post_id : c.post_id ≡ cmd.post_id
  author_name : c.author_name ≡ strip cmd.author_name
  content : c.content ≡ strip cmd.content
  author_email : c.author_email ≡ or_none cmd.author_email
  status : c.status ≡ pending
  created_at : c.created_at ≡ s.now
  moderated_at : c.moderated_at ≡ none
  name_length : (2 ≤ length c.author_name) × (length c.author_name ≤ 60)
  text_length : (3 ≤ length c.content) × (length c.content ≤ 2000)
  events :
      c.events
      ≡ record_event s "comment.created"
          (("comment_id", str s.new_id)
            ∷ ("post_id", str cmd.post_id)
            ∷ ("author_name", str (strip cmd.author_name))
            ∷ [])
          []

submitted :
    (s : Stamp) (cmd : SubmitCommentCommand) (ip : Option Text) (c : Comment)
    → Domain.submit s cmd.post_id cmd.author_name cmd.content cmd.author_email ip ≡ ok c
    → IsMadeOf s cmd c
unfolding Domain.submit
submitted s cmd ip c h = record {
  id = ground arith;
  post_id = ground arith;
  author_name = ground arith;
  content = ground arith;
  author_email = ground arith;
  status = ground arith;
  created_at = ground arith;
  moderated_at = ground arith;
  name_length = ground arith;
  text_length = ground arith;
  events = ground arith;
}

open_post :
    (o : Option KnownPost)
    → accepts_comments o ≡ true
    → (p : KnownPost) × (o ≡ some p) × (p.is_published ≡ true)
open_post none h = cc
open_post (some p) h = (p, refl, h)

module _ (R : Redis) (prefix : Text) (s : Stamp) (hash_ip : Text → Text)
    (allow : Text → Exec R.State Bool) where
  -- Nothing of a refused comment is kept.
  abbrev pub Refused : {A : Type 0} → CommentStore R → Result A × CommentStore R → Type 0
  Refused st (r, st') = (e : Exc) × (r ≡ err e) × (st'.db ≡ st.db) × (st'.outbox ≡ st.outbox)

  abbrev pub Kept : SubmitCommentCommand → CommentStore R → CommentStore R → Type 0
  Kept cmd st st' =
      ((p : KnownPost) × (row_at known_post_key cmd.post_id st.db.known_posts ≡ some p)
        × (p.is_published ≡ true))
      × ((c : Comment) × IsMadeOf s cmd c
          × (st'.db ≡ record (st.db) { comments = st.db.comments ++ (to_model c ∷ []) })
          × (st'.outbox
              ≡ st.outbox
                ++ outbox_rows (length st.outbox) st.correlation_id "comment-service"
                    (c.events ++ [])))

  body-cases :
      (cmd : SubmitCommentCommand) (ip : Option Text) (st : CommentStore R)
      → IsValid st.db
      → has_key comment_key s.new_id st.db.comments ≡ false
      → let (r, st') = with_uow (submit_body R prefix hash_ip allow s cmd ip) st in
        Refused st (r, st') ⊎ ((r ≡ ok s.new_id) × Kept cmd st st')
  unfolding submit_body
  body-cases cmd ip st v fresh =
      let found = row_at known_post_key cmd.post_id st.db.known_posts in
      let made = Domain.submit s cmd.post_id cmd.author_name cmd.content cmd.author_email ip in
      elim (Bool-cases (accepts_comments found)) [
        | inr closed ↦ rw closed (inl (raised not_found, refl, refl, refl))
        | inl opened ↦ elim (Result-cases made) [
          | inr (e, bad) ↦ rw (opened, bad) (inl (e, refl, refl, refl))
          | inl (c, fine) ↦
              let made_so = submitted s cmd ip c fine in
              let ids =
                unique-append comment_key st.db.comments (to_model c) v.0 (rw made_so.id fresh) in
              rw (opened, fine, ids, v.1)
                (inr (rw made_so.id refl, (open_post found opened, (c, made_so, refl, refl))))
        ]
      ]

  -- The lines from the limiter on
  limited-cases :
      (o : Option Text) (cmd : SubmitCommentCommand) (st : CommentStore R)
      → IsValid st.db
      → has_key comment_key s.new_id st.db.comments ≡ false
      → let (r, st') =
          (do
            within ← allowed R prefix hash_ip allow o
            throw_if (not within) (raised rate_limited)
            with_uow (submit_body R prefix hash_ip allow s cmd o))
            st in
        Refused st (r, st') ⊎ ((r ≡ ok s.new_id) × Kept cmd st st')
  unfolding allowed
  limited-cases none cmd st v fresh = body-cases cmd none st v fresh
  limited-cases (some []) cmd st v fresh = body-cases cmd (some []) st v fresh
  limited-cases (some (c ∷ h)) cmd st v fresh = elim (Result-cases (allow (c ∷ h) st.world).0) [
    | inr (e, failed) ↦ rw failed (inl (e, refl, refl, refl))
    | inl (true, within) ↦
        rw within
          (body-cases cmd (some (c ∷ h)) (record st { world = (allow (c ∷ h) st.world).1 }) v fresh)
    | inl (false, beyond) ↦ rw beyond (inl (raised rate_limited, refl, refl, refl))
  ]

  pub submit-cases :
      (cmd : SubmitCommentCommand) (st : CommentStore R)
      → IsValid st.db
      → has_key comment_key s.new_id st.db.comments ≡ false
      → let (r, st') = submit R prefix hash_ip allow s cmd st in
        Refused st (r, st')
        ⊎ ((is_some (or_none cmd.honeypot) ≡ false) × (r ≡ ok s.new_id) × Kept cmd st st')
  unfolding submit
  submit-cases cmd st v fresh = elim (Bool-cases (is_some (or_none cmd.honeypot))) [
    | inl bot ↦ rw bot (inl (raised business_rule_violation, refl, refl, refl))
    | inr human ↦ elim (limited-cases (hash_of R prefix hash_ip allow cmd.ip) cmd st v fresh) [
      | inl refused ↦ rw human (inl refused)
      | inr kept ↦ rw human (inr (refl, kept.0, kept.1))
    ]
  ]
