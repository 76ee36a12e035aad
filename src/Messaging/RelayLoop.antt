-- ===== src/Messaging/RelayLoop.antt =====
-- libs/py-common/devblog_common/persistence/outbox.py: the loop of the relay's thread,
-- `OutboxRelay._run`.
use myblog.Messaging.Outbox.{Publisher, Commit, publish_pending}
use myblog.Base.{ℕ, List, [], if◌then◌else◌, suc, ◌∷◌, ltb, zero}
use myblog.Kernel.Exec.{Exec, ◌>>=◌, pure, ◌>>◌}
use myblog.Kernel.Events.{Instant}
use myblog.Kernel.UnitOfWork.{OutboxMessage}
use myblog.Messaging.Backoff.{next_delay, reset}
use myblog.Kernel.Errors.{Result, err, ok}

-- The attempts of the Backoff, and the table of events with the publisher.
pub record RelayState (P : Publisher) : Type 0 where
  pub attempt : ℕ
  pub outbox : List OutboxMessage × P.State

-- How long the thread waits after a pass, unless it is stopped: some nanoseconds before it tries again,
-- the interval, or not at all when there may be more to publish.
pub data Wait : Type 0 where
  retry_after : ℕ → Wait
  interval at_once : Wait

module _ (P : Publisher) (commit : Commit P) (heartbeat : Exec P.State (Unit {0}))
    (clock : ℕ → Instant) (batch_size : ℕ) where
  -- `self._publisher.heartbeat()`
  abbrev beat : Exec (List OutboxMessage × P.State) (Unit {0})
  beat (rows, s) = let (r, s') = heartbeat s in (r, (rows, s'))

  -- The `except` clause, with what `next_delay` makes of the attempts
  abbrev retried : Result ℕ × ℕ → Exec (RelayState P) Wait
  retried (ok d, a) st = (ok (retry_after d), record st { attempt = a })
  retried (err e, a) st = (err e, record st { attempt = a })

  -- `try` and what follows it
  abbrev after_try : ℕ → Result ℕ → Exec (RelayState P) Wait
  after_try factor (err e) st = retried (next_delay factor st.attempt) st
  after_try factor (ok n) st = (
    ok (if ltb n batch_size then interval else at_once),
    record st { attempt = reset st.attempt },
  )

  -- One pass of the loop, with the factor of its delay
  unfoldable pub relay_pass : ℕ → Exec (RelayState P) Wait
  relay_pass factor st =
      let (r, o) = (do n ← publish_pending P commit clock batch_size; beat; pure n) st.outbox in
      after_try factor r (record st { outbox = o })

  -- The loop, stopped after `n` passes. What `next_delay` raises ends the thread. `draw` gives the
  -- factor of a pass by the number of those after it.
  unfoldable pub run : (ℕ → ℕ) → ℕ → Exec (RelayState P) (List Wait)
  run draw zero = pure []
  run draw (suc n) = do w ← relay_pass (draw n); waits ← run draw n; pure (w ∷ waits)
