-- ===== src/Messaging/Outage.antt =====
-- The thread of the relay while the broker is away.
use myblog.Base.{
  ℕ, List, String, [], ◌≡◌, Bool, true, false, Text, ◌∷◌, ◌+◌, not, is_some, ◌≤◌, list_eq,
  number_eq, string_eq, option_eq, ◌||◌, ◌*◌,
}
use myblog.Messaging.Outbox.{Publisher}
use myblog.Kernel.Exec.{Exec}
use myblog.Kernel.UnitOfWork.{OutboxMessage}
use myblog.Messaging.RelayLoop.{Wait, retry_after, interval, at_once}
use myblog.Kernel.Events.{Envelope}
use myblog.Kernel.Errors.{Exc, err}
use myblog.Messaging.Backoff.{base_delay}

-- Some event waits.
abbrev pub has_pending : List OutboxMessage → Bool
has_pending [] = false
has_pending (m ∷ rows) = not (is_some m.published_at) || has_pending rows

-- The waits after failures in a row from attempt `a` on, in nanoseconds: twice as long each time, to
-- 30 seconds, and each of them within a fifth of that.
abbrev pub Doubling : ℕ → List Wait → Type 0
Doubling a [] = Unit
Doubling a (retry_after d ∷ ws) =
    (base_delay a * 800000000 ≤ d) × (d ≤ base_delay a * 1200000000) × Doubling (a + 1) ws
Doubling a (interval ∷ ws) = false ≡ true
Doubling a (at_once ∷ ws) = false ≡ true

-- Every call of `publish` raises.
abbrev pub IsDown : Publisher → Type 0
IsDown P =
    (t : String) (e : Envelope) (i : Text) (s : P.State)
    → (x : Exc) × ((P.publish t e i s).0 ≡ err x)
