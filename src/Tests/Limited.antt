-- ===== src/Tests/Limited.antt =====
-- The example of an address that sends comments until the limiter stops it.
use myblog.Base.{Text, List, codes, [], ◌∷◌, ◌+◌, ◌-◌, ◌≤◌, length, refl}
use myblog.Comments.Handlers.{CommentStore}
use myblog.Comments.Handlers.Limited.{submissions, submissions_limited, used, Submission}
use myblog.Comments.Api.{submit_command}
use myblog.Tests.Sample.{prefix, stamp, later}
use myblog.Tests.Submission.{db, body, host, hash_ip}
use myblog.Tests.Lockout.{tally, tally-Counts}

abbrev limiter_prefix : Text
limiter_prefix = codes "ratelimit:comments"

-- One comment was counted before.
abbrev store : CommentStore tally
store = record { db = db; outbox = []; world = λ k. 1; correlation_id = codes "r2" }

abbrev three : List Submission
three =
    (stamp, submit_command host body)
    ∷ (later, submit_command host body)
    ∷ (stamp, submit_command host body)
    ∷ []

submissions_limited_example :
    length
      (submissions tally tally-Counts prefix 2 600 limiter_prefix hash_ip three store).db.comments
    ≤ 1 + (2 - used tally tally-Counts prefix 2 600 limiter_prefix hash_ip (codes "h") store)
submissions_limited_example =
    submissions_limited tally tally-Counts prefix 2 600 limiter_prefix hash_ip b'1'
      (codes "0.0.0.7") b'h' [] refl three store (refl, (refl, (refl, tt)))
