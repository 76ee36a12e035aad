-- ===== src/Messaging/Outbox.antt =====
-- libs/py-common/devblog_common/persistence/outbox.py: `OutboxRelay.publish_pending`.
use myblog.Kernel.UnitOfWork.{OutboxMessage}
use myblog.Base.{
  ◌+◌, ℕ, String, List, some, ◌∷◌, if◌then◌else◌, Text, take, is_some, [], ◌≡◌, update_at, ◌++◌,
  length, list_eq, number_eq, string_eq, option_eq,
}
use myblog.Kernel.Events.{Instant, Envelope}
use myblog.Kernel.Exec.{Exec, ◌>>◌, pure}
use myblog.Kernel.Errors.{Result, ok, err, Exc}

-- `publisher.publish(event_type, payload, message_id)`. It raises when the broker does not confirm.
pub record Publisher : Type 1 where
  pub State : Type 0
  pub publish : String → Envelope → Text → Exec State (Unit {0})
  -- The identifiers of the messages that the broker confirmed, in their order.
  pub confirmed : State → List Text

-- Publisher confirms: a call that returns was confirmed, a call that raises was not.
pub record IsLawful (P : Publisher) : Type 0 where
  pub returns :
      (t : String) (e : Envelope) (i : Text) (s : P.State)
      → (P.publish t e i s).0 ≡ ok tt
      → P.confirmed (P.publish t e i s).1 ≡ P.confirmed s ++ i ∷ []
  pub raises :
      (t : String) (e : Envelope) (i : Text) (s : P.State) (x : Exc)
      → (P.publish t e i s).0 ≡ err x
      → P.confirmed (P.publish t e i s).1 ≡ P.confirmed s

abbrev pub message_key : OutboxMessage → ℕ
message_key m = m.id

-- `published_at IS NULL ORDER BY id`. The rows of an outbox stand in the order of their ids.
abbrev pub pending : List OutboxMessage → List OutboxMessage
pending [] = []
pending (m ∷ rows) = if is_some m.published_at then pending rows else m ∷ pending rows

abbrev pub attempted : OutboxMessage → OutboxMessage
attempted m = record m { attempts = m.attempts + 1 }

abbrev pub published : Instant → OutboxMessage → OutboxMessage
published now m = record m { published_at = some now }

-- The answer of the database to a commit of these rows, with the world as it is then. A commit that
-- raises is rolled back.
abbrev pub Commit : Publisher → Type 0
Commit P = List OutboxMessage → P.State → Result (Unit {0})

module _ (P : Publisher) (commit : Commit P) (clock : ℕ → Instant) where
  abbrev pub Relayed : Type 0 → Type 0
  Relayed A = Exec (List OutboxMessage × P.State) A

  -- `session.commit()`, which may raise; the rows are then as they were.
  abbrev pub after_commit :
      List OutboxMessage → Relayed (Unit {0}) → Result (Unit {0}) → Relayed (Unit {0})
  after_commit changed next (ok _) (rows, s) = next (changed, s)
  after_commit changed next (err e) (rows, s) = (err e, (rows, s))

  -- What follows a call of `publish` for the row `m`: the loop goes on, or the exception does.
  abbrev pub after_publish :
      OutboxMessage → Relayed (Unit {0}) → Result (Unit {0}) → Relayed (Unit {0})
  after_publish m rest (ok _) (rows, s) =
      let marked = update_at message_key m.id (published (clock m.id)) rows in
      after_commit marked rest (commit marked s) (rows, s)
  after_publish m rest (err e) (rows, s) =
      let counted = update_at message_key m.id attempted rows in
      after_commit counted (λ st. (err e, st)) (commit counted s) (rows, s)

  -- The loop over the rows of a batch. `clock` tells the time when a row is published.
  unfoldable pub publish_rows : List OutboxMessage → Relayed (Unit {0})
  publish_rows [] st = (ok tt, st)
  publish_rows (m ∷ batch) (rows, s) =
      let (r, s') = P.publish m.event_type m.payload m.event_id s in
      after_publish m (publish_rows batch) r (rows, s')

  unfoldable pub publish_pending : ℕ → Relayed ℕ
  unfolding publish_rows
  publish_pending batch_size (rows, s) =
      (do
        publish_rows (take batch_size (pending rows))
        pure (length (take batch_size (pending rows))))
        (rows, s)
