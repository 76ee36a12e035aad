-- ===== src/Comments/Handlers/Limited.antt =====
-- How many comments one address can send within a window: `submit` of
-- app/application/handlers.py with app/infrastructure/rate_limiter.py.
use myblog.Base.{
  ℕ, Text, Option, Bool, Bool-cases, inl, inr, some, List, [], ◌∷◌, ◌++◌, ◌≡◌, ◌≤◌, ◌+◌, ◌-◌, refl,
  All, ap, ◌∙◌, length, length-append, is_some, leb, arith, list_eq, number_eq, if◌then◌else◌,
  row_at, ==_refl, ◌⊎◌,
}
use myblog.Base.Python.{or_none}
use myblog.Kernel.Errors.{Result-cases}
use myblog.Kernel.Events.{Stamp}
use myblog.Kernel.Exec.{Exec}
use myblog.Kernel.Redis.{Redis, Counts}
use myblog.Kernel.UnitOfWork.{with_uow}
use myblog.Comments.Domain
use myblog.Comments.Repository.{comment_schema, known_post_key, to_model}
use myblog.Comments.RateLimiter.{allow}
use myblog.Comments.Handlers.{
  CommentStore, SubmitCommentCommand, submit, submit_body, allowed, accepts_comments,
}

abbrev pub Submission : Type 0
Submission = Stamp × SubmitCommentCommand

module _ (R : Redis) (counts : Counts R) (prefix : Text) (limit window_seconds : ℕ)
    (limiter_prefix : Text) (hash_ip : Text → Text) where
  abbrev limiter : Text → Exec R.State Bool
  limiter = allow R limit window_seconds limiter_prefix

  -- The store after some submissions, one after the other
  abbrev pub submissions : List Submission → CommentStore R → CommentStore R
  submissions [] st = st
  submissions ((s, cmd) ∷ rest) st = submissions rest (submit R prefix hash_ip limiter s cmd st).1

  body-grows :
      (s : Stamp) (cmd : SubmitCommentCommand) (ip : Option Text) (st : CommentStore R)
      → let st' = (with_uow (submit_body R prefix hash_ip limiter s cmd ip) st).1 in
        (st'.world ≡ st.world) × (length st'.db.comments ≤ length st.db.comments + 1)
  unfolding submit_body
  body-grows s cmd ip st =
      let found = row_at known_post_key cmd.post_id st.db.known_posts in
      let made = Domain.submit s cmd.post_id cmd.author_name cmd.content cmd.author_email ip in
      elim (Bool-cases (accepts_comments found)) [
        | inr closed ↦ rw closed (refl, omega arith)
        | inl opened ↦ elim (Result-cases made) [
          | inr (e, bad) ↦ rw (opened, bad) (refl, omega arith)
          | inl (c, fine) ↦
              elim (Bool-cases (
                comment_schema.constraints
                  (record (st.db) { comments = st.db.comments ++ (to_model c ∷ []) }))) [
                    | inl sound ↦
                        rw (opened, fine, sound)
                          (refl, omega (arith, length-append st.db.comments (to_model c ∷ [])))
                    | inr clash ↦ rw (opened, fine, clash) (refl, omega arith)
                  ]
        ]
      ]

  -- What the limiter counts for an address with this hash
  abbrev pub used : Text → CommentStore R → ℕ
  used hash st = counts.counter (limiter_prefix ++ b':' ∷ hash) st.world

  Moves : Text → CommentStore R → CommentStore R → Type 0
  Moves hash st st' =
      ((used hash st' ≡ used hash st) × (length st'.db.comments ≤ length st.db.comments))
      ⊎ ((used hash st' ≡ used hash st + 1)
          × (length st'.db.comments
              ≤ length st.db.comments + (if leb (used hash st + 1) limit then 1 else 0)))

  module _ (c : ℕ) (ip : Text) (h : ℕ) (hs : Text) (hashed : hash_ip (c ∷ ip) ≡ h ∷ hs) where
    submit-Moves :
        (s : Stamp) (cmd : SubmitCommentCommand) (st : CommentStore R)
        → cmd.ip ≡ some (c ∷ ip)
        → Moves (h ∷ hs) st (submit R prefix hash_ip limiter s cmd st).1
    unfolding submit allow Moves allowed
    submit-Moves s cmd st from =
        let key = limiter_prefix ++ b':' ∷ h ∷ hs in
        let answer = counts.incr_expire_nx_ok key window_seconds st.world in
        let adds = counts.incr_expire_nx_adds key window_seconds st.world key in
        let one : counts.counter key (R.incr_expire_nx key window_seconds st.world).1
            ≡ counts.counter key st.world + 1 =
          rw (==_refl key) at adds in
        let w = (R.incr_expire_nx key window_seconds st.world).1 in
        elim (Bool-cases (is_some (or_none cmd.honeypot))) [
          | inl bot ↦ rw bot (inl (refl, omega arith))
          | inr human ↦ elim (Bool-cases (leb (counts.counter key st.world + 1) limit)) [
            | inr beyond ↦ rw (human, from, hashed, answer, beyond) (inr (one, omega arith))
            | inl within ↦
                let (same, grows) = body-grows s cmd (some (h ∷ hs)) (record st { world = w }) in
                rw (human, from, hashed, answer, within)
                  (inr (ap (counts.counter key) same ∙ one, grows))
          ]
        ]

    -- While Redis answers and no counter expires, and the hash of an address is not empty: of the
    -- comments that come from that address, whatever they say and however many they are, no more
    -- are stored than the limiter has left for it.
    pub submissions_limited :
        (all : List Submission) (st : CommentStore R)
        → All (λ x. x.1.ip ≡ some (c ∷ ip)) all
        → length (submissions all st).db.comments
          ≤ length st.db.comments + (limit - used (h ∷ hs) st)
    unfolding Moves
    submissions_limited [] st from = omega arith
    submissions_limited ((s, cmd) ∷ all) st (here, from) =
        let st' = (submit R prefix hash_ip limiter s cmd st).1 in
        let rest = submissions_limited all st' from in
        elim (submit-Moves s cmd st here) [
          | inl (same, kept) ↦ ground arith
          | inr (one, grows) ↦ ground arith
        ]
