-- ===== src/Activity/Every.antt =====
-- Every event that reaches the activity worker: services/activity-worker/app/handlers.py behind
-- libs/py-common/devblog_common/messaging/consumer.py.
use myblog.Base.{
  Text, String, Option, Bool, false, Bool-cases, inl, inr, List, [], ◌∷◌, ◌++◌, ◌≡◌, refl, map,
  append-nil, append_assoc, sym, ◌∙◌, ap, not, ◌||◌, subst, ◌==◌, string_eq,
}
use myblog.Base.Python.{is_empty}
use myblog.Base.{true, codes, if◌then◌else◌}
use myblog.Kernel.Errors.{Result, Result-cases, ok, err}
use myblog.Kernel.Events.{Envelope, Value, Payload, payload_or_empty}
use myblog.Kernel.Exec.{Exec, pure, ◌>>=◌}
use myblog.Kernel.Redis.{Redis}
use myblog.Kernel.UnitOfWork.{Store}
use myblog.Messaging.Consumer.{
  on_message, attempt, handle_new, already_processed, mark_processed, object, ack, Answer,
  event_id_of, idem_key, week,
}
use myblog.Activity.{Activity, Notification, labels_of, handle_activity, tell, or_unknown, shown}

abbrev or_false : Result Bool → Bool
or_false (ok b) = b
or_false (err e) = false

module _ (R : Redis) (show : Option Value → Text) where
  abbrev told_of : Text → Text → List Notification
  told_of subject body = record { subject = subject; body = body } ∷ []

  -- What an administrator is told of an event, by its type: of new comments, of posts that are
  -- published and of logins, and of nothing else.
  abbrev pub notices : String → Payload → List Notification
  notices t p =
      if t == "comment.created"
      then told_of (codes "Moderasyon bekleyen yeni yorum") (
          shown R show "author_name" p
          ++ (codes " bir yorum yazdı (post: " ++ (shown R show "post_id" p ++ codes ")")))
      else if t == "post.published"
      then told_of (codes "Yazı yayınlandı") (
          codes "'"
          ++ (shown R show "title" p ++ (codes "' yayında: /posts/" ++ shown R show "slug" p)))
      else if t == "user.logged_in"
      then told_of (codes "Yönetim paneline giriş") (
          shown R show "username" p
          ++ (codes " giriş yaptı (" ++ (shown R show "ip" p ++ codes ")")))
      else []

  abbrev pub notices_of : List Envelope → List Notification
  notices_of [] = []
  notices_of (e ∷ es) = notices (or_unknown e.event_type) (payload_or_empty e) ++ notices_of es

  -- The worker took one more event.
  record Heard (e : Envelope) (before after : Activity) : Type 0 where
    counted : after.events_consumed ≡ before.events_consumed ++ (labels_of e ∷ [])
    notified :
        after.notified ≡ before.notified ++ notices (or_unknown e.event_type) (payload_or_empty e)

  tell-lem :
      (t : String) (p : Payload) (st : Store Activity R.State)
      → let (r, st') = tell R show t p st in
        (r ≡ ok tt)
        × (st'.world ≡ st.world)
        × (st'.db.events_consumed ≡ st.db.events_consumed)
        × (st'.db.notified ≡ st.db.notified ++ notices t p)
  unfolding tell
  tell-lem t p st = elim (Bool-cases (t == "comment.created")) [
    | inl comment ↦ rw comment (refl, refl, refl, refl)
    | inr other ↦ elim (Bool-cases (t == "post.published")) [
      | inl post ↦ rw (other, post) (refl, refl, refl, refl)
      | inr other2 ↦ elim (Bool-cases (t == "user.logged_in")) [
        | inl user ↦ rw (other, other2, user) (refl, refl, refl, refl)
        | inr other3 ↦
            rw (other, other2, other3) (refl, refl, refl, sym (append-nil st.db.notified))
      ]
    ]
  ]

  handle-Heard :
      (e : Envelope) (st : Store Activity R.State)
      → ((handle_activity R show e st).0 ≡ ok tt) × Heard e st.db (handle_activity R show e st).1.db
  unfolding handle_activity
  handle-Heard e st =
      let (fine, same, counts, notified) =
        tell-lem (or_unknown e.event_type) (payload_or_empty e) (record st {
          db = record st.db { events_consumed = st.db.events_consumed ++ (labels_of e ∷ []) };
        }) in
      (fine, record { counted = counts; notified = notified })

  module _ (with_redis : Bool) (queue : Text) where
    -- Redis tells that the event was processed already.
    abbrev pub is_seen : Envelope → R.State → Bool
    is_seen e w =
        if not with_redis || is_empty (event_id_of e)
        then false
        else or_false (R.exists (idem_key queue (event_id_of e)) w).0

    already-ok :
        (e : Envelope) (st : Store Activity R.State)
        → let (r, st') =
            already_processed R with_redis queue (handle_activity R show) (event_id_of e) st in
          (r ≡ ok (is_seen e st.world)) × (st'.db ≡ st.db)
    unfolding already_processed
    already-ok e st = elim (Bool-cases (not with_redis || is_empty (event_id_of e))) [
      | inl skipped ↦ rw skipped (refl, refl)
      | inr asked ↦ elim (Result-cases (R.exists (idem_key queue (event_id_of e)) st.world).0) [
        | inl (b, told) ↦ rw (asked, told) (refl, refl)
        | inr (x, failed) ↦ rw (asked, failed) (refl, refl)
      ]
    ]

    mark-ok :
        (i : Text) (st : Store Activity R.State)
        → ((mark_processed R with_redis queue (handle_activity R show) i st).0 ≡ ok tt)
          × ((mark_processed R with_redis queue (handle_activity R show) i st).1.db ≡ st.db)
    unfolding mark_processed
    mark-ok i st = elim (Bool-cases (not with_redis || is_empty i)) [
      | inl skipped ↦ rw skipped (refl, refl)
      | inr asked ↦ elim (Result-cases (R.set_flag (idem_key queue i) week st.world).0) [
        | inl (b, told) ↦ rw (asked, told) (refl, refl)
        | inr (x, failed) ↦ rw (asked, failed) (refl, refl)
      ]
    ]

    -- The deliveries of some events, one after the other
    abbrev pub deliver : List Envelope → Exec (Store Activity R.State) (List Answer)
    deliver [] = pure []
    deliver (e ∷ es) = do
      a ← on_message R with_redis queue (handle_activity R show) (object e)
      rest ← deliver es
      pure (a ∷ rest)

    -- Those of the events that Redis does not tell of as processed when they come
    abbrev pub heard : List Envelope → Store Activity R.State → List Envelope
    heard [] st = []
    heard (e ∷ es) st =
        let rest =
          heard es (on_message R with_redis queue (handle_activity R show) (object e) st).1 in
        if is_seen e st.world then rest else e ∷ rest

    one-lem :
        (e : Envelope) (st : Store Activity R.State)
        → let (r, st') = on_message R with_redis queue (handle_activity R show) (object e) st in
          (r ≡ ok ack)
          × (is_seen e st.world ≡ true → st'.db ≡ st.db)
          × (is_seen e st.world ≡ false → Heard e st.db st'.db)
    unfolding on_message attempt handle_new
    one-lem e st =
        let (told, kept) = already-ok e st in
        let st1 =
          (already_processed R with_redis queue (handle_activity R show) (event_id_of e) st).1 in
        elim (Bool-cases (is_seen e st.world)) [
          | inl seen ↦ rw (told, seen) (refl, λ same. kept, λ impossible. cc)
          | inr new ↦
              let (fine, heard_it) = handle-Heard e st1 in
              let (marked, same) = mark-ok (event_id_of e) (handle_activity R show e st1).1 in
              let moved =
                subst (λ d. Heard e d (handle_activity R show e st1).1.db) kept heard_it in
              rw (told, new, fine, marked)
                (refl, λ impossible. cc, λ missing. subst (Heard e st.db) (sym same) moved)
        ]

    -- Events that are delivered to the activity worker one after the other, whatever Redis answers:
    -- each of them is acknowledged. Those that Redis does not tell of as processed when they come,
    -- which are all of them if it is not asked, are counted with their type and source, in their
    -- order, and the notifications are those for these events, in their order, and no others.
    pub activity_lem :
        (es : List Envelope) (st : Store Activity R.State)
        → let (r, st') = deliver es st in
          (r ≡ ok (map (λ e. ack) es))
          × (st'.db.events_consumed ≡ st.db.events_consumed ++ map labels_of (heard es st))
          × (st'.db.notified ≡ st.db.notified ++ notices_of (heard es st))
    activity_lem [] st =
        (refl, sym (append-nil st.db.events_consumed), sym (append-nil st.db.notified))
    activity_lem (e ∷ es) st =
        let (acked, same, more) = one-lem e st in
        let st1 = (on_message R with_redis queue (handle_activity R show) (object e) st).1 in
        let (fine, counted, notified) = activity_lem es st1 in
        elim (Bool-cases (is_seen e st.world)) [
          | inl seen ↦
              let kept = same seen in
              rw (acked, fine, seen) (refl, rw kept at counted, rw kept at notified)
          | inr new ↦
              let h = more new in
              rw (acked, fine, new)
                (
                  refl,
                  counted
                      ∙ ap (λ l. l ++ map labels_of (heard es st1)) h.counted
                      ∙ append_assoc st.db.events_consumed (labels_of e ∷ [])
                          (map labels_of (heard es st1)),
                  notified
                      ∙ ap (λ l. l ++ notices_of (heard es st1)) h.notified
                      ∙ append_assoc st.db.notified
                          (notices (or_unknown e.event_type) (payload_or_empty e))
                          (notices_of (heard es st1)),
                )
        ]
