-- ===== src/Comments/Handlers/Moderation.antt =====
-- Moderation refines its description in `Counts`.
use myblog.Comments.Domain
use myblog.Base.{
  Text, Option, some, none, ◌≡◌, row_at, ◌++◌, Option-cases, inl, length, inr, if◌then◌else◌, ◌∷◌,
  list_eq, number_eq, string_eq, option_eq, [], row_at-key, Bool-cases, unique-delete_at,
  unique-update_at, subst, refl, sym,
}
use myblog.Kernel.Redis.{Redis}
use myblog.Comments.Handlers.{
  CommentStore, Action, moderate, approve_action, cache_ns, delete_action, reject_action,
}
use myblog.Kernel.Events.{Stamp}
use myblog.Comments.Handlers.Counts.{
  IsValid, rows_after, refuses, announcement, count-delete, count-reject, count-approve,
}
use myblog.Comments.Repository.{CommentModel, comment_key}
use myblog.Kernel.Errors.{Result, err, raised, not_found, business_rule_violation, ok}
use myblog.Kernel.UnitOfWork.{outbox_rows}
use myblog.Cache.{bump}
use myblog.Comments.Domain.{status_eq, rejected, approved}

module _ (R : Redis) (prefix : Text) (s : Stamp) where
  -- The store after an action on the comment `m`, which a valid store accepts.
  abbrev pub moderated : Action → CommentModel → CommentStore R → CommentStore R
  moderated a m st =
      let rows = rows_after a s.now m.id st.db.comments in
      record st {
        db = record (st.db) { comments = rows };
        outbox =
            st.outbox
            ++ outbox_rows (length st.outbox) st.correlation_id "comment-service"
                (announcement s a m rows ∷ []);
        world = (bump R prefix cache_ns st.world).1;
      }

  abbrev pub outcome :
      Action → Option CommentModel → CommentStore R → Result (Unit {0}) × CommentStore R
  outcome a none st = (err (raised not_found), st)
  outcome a (some m) st =
      if refuses a m.status
      then (err (raised business_rule_violation), st)
      else (ok tt, moderated a m st)

  module _ (m : CommentModel) (st : CommentStore R) (v : IsValid st.db) where
    module _ (found : row_at comment_key m.id st.db.comments ≡ some m) where
      moderate-approve :
          moderate R prefix s m.id approve_action st ≡ outcome approve_action (some m) st
      unfolding moderate refuses Domain.approve
      moderate-approve = elim (Bool-cases (status_eq m.status approved)) [
        | inl bad ↦ rw (found, bad)
        | inr fine ↦ rw (
          found,
          fine,
          v.1,
          count-approve m.id m st.db.comments found s.now fine,
          unique-update_at comment_key m.id
              (λ r. record r { status = approved; moderated_at = some s.now }) (λ r. refl)
              st.db.comments,
          v.0,
        )
      ]

      moderate-reject :
          moderate R prefix s m.id reject_action st ≡ outcome reject_action (some m) st
      unfolding moderate refuses Domain.reject
      moderate-reject = elim (Bool-cases (status_eq m.status rejected)) [
        | inl bad ↦ rw (found, bad)
        | inr fine ↦ rw (
          found,
          fine,
          v.1,
          ← count-reject m.id m st.db.comments found s.now,
          unique-update_at comment_key m.id
              (λ r. record r { status = rejected; moderated_at = some s.now }) (λ r. refl)
              st.db.comments,
          v.0,
        )
      ]

      moderate-delete :
          moderate R prefix s m.id delete_action st ≡ outcome delete_action (some m) st
      unfolding moderate refuses Domain.mark_deleted
      moderate-delete = rw (
        found,
        v.1,
        ← count-delete m.id m st.db.comments found s.now (v.0),
        unique-delete_at comment_key m.id st.db.comments (v.0),
      )

    moderate_found :
        (a : Action)
        → row_at comment_key m.id st.db.comments ≡ some m
        → moderate R prefix s m.id a st ≡ outcome a (some m) st
    moderate_found approve_action found = moderate-approve found
    moderate_found reject_action found = moderate-reject found
    moderate_found delete_action found = moderate-delete found

  -- On a store with unique identifiers, an approval, a rejection or a deletion of any identifier is
  -- answered as `outcome` tells: a missing comment is not found, a comment that has the status
  -- already is refused, and both leave the store as it is; else the one row changes, one event with
  -- the number of approved comments of its post after the change joins the outbox, and the cached
  -- pages are out of date.
  pub moderate_lem :
      (id : Text) (st : CommentStore R) (a : Action)
      → IsValid st.db
      → moderate R prefix s id a st ≡ outcome a (row_at comment_key id st.db.comments) st
  moderate_lem id st a v = elim (Option-cases (row_at comment_key id st.db.comments)) [
    | inl absent ↦ unfold moderate in rw absent
    | inr (m, found) ↦
        let e = row_at-key comment_key id st.db.comments m found in
        rw found (
          subst (λ k. moderate R prefix s k a st ≡ outcome a (some m) st) e
            (moderate_found m st v a
              (subst (λ k. row_at comment_key k st.db.comments ≡ some m) (sym e) found)))
  ]
