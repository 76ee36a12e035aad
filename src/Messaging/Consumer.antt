-- ===== src/Messaging/Consumer.antt =====
-- libs/py-common/devblog_common/messaging/consumer.py: `RabbitMqConsumer._on_message`. The handler
-- of the events acts on the store of a service. The counters of `on_processed` and the pause before
-- a requeue are left out.
use myblog.Kernel.Redis.{Redis, except_any}
use myblog.Kernel.UnitOfWork.{Store, on_world}
use myblog.Base.{
  ℕ, Text, Bool, codes, ◌++◌, if◌then◌else◌, not, ◌∷◌, true, ◌||◌, false, Option, [], some, none,
}
use myblog.Kernel.Events.{Envelope}
use myblog.Kernel.Exec.{Exec, ◌>>=◌, pure, ◌>>◌, throw}
use myblog.Kernel.Errors.{attribute_error}
use myblog.Base.Python.{is_empty}

-- What the body of a message is, to `json.loads`.
pub data Body : Type 0 where
  not_json : Body
  -- JSON, but no object
  other_json : Body
  object : Envelope → Body

-- `basic_ack`, `basic_nack` without and with `requeue`.
pub data Answer : Type 0 where
  ack dead_letter requeue : Answer

-- `envelope.get("event_id", "")`
abbrev pub or_empty : Option Text → Text
or_empty none = []
or_empty (some t) = t

abbrev pub event_id_of : Envelope → Text
event_id_of e = or_empty e.event_id

abbrev pub week : ℕ
week = 604800

-- `_idem_key`
abbrev pub idem_key : Text → Text → Text
idem_key queue event_id = codes "idem:" ++ queue ++ b':' ∷ event_id

module _ (R : Redis) (with_redis : Bool) (queue : Text) {D : Type 0}
    (handle : Envelope → Exec (Store D R.State) (Unit {0})) where
  -- `_already_processed`
  unfoldable pub already_processed : Text → Exec (Store D R.State) Bool
  already_processed event_id =
      if not with_redis || is_empty event_id
      then pure false
      else on_world (except_any (R.exists (idem_key queue event_id)) (pure false))

  -- `_mark_processed`
  unfoldable pub mark_processed : Text → Exec (Store D R.State) (Unit {0})
  mark_processed event_id =
      if not with_redis || is_empty event_id
      then pure tt
      else on_world (except_any (R.set_flag (idem_key queue event_id) week) (pure tt))

  -- The event is new unless it was seen.
  unfoldable pub handle_new : Envelope → Bool → Exec (Store D R.State) Answer
  handle_new e true = pure ack
  handle_new e false = do handle e; mark_processed (event_id_of e); pure ack

  -- The `try` block: any exception puts the message back into the queue.
  unfoldable pub attempt : Envelope → Exec (Store D R.State) Answer
  unfolding handle_new
  attempt e =
      except_any (do seen ← already_processed (event_id_of e); handle_new e seen) (pure requeue)

  -- `envelope.get` stands before the `try`, so a value that is no dict makes it raise.
  unfoldable pub on_message : Body → Exec (Store D R.State) Answer
  unfolding attempt
  on_message not_json = pure dead_letter
  on_message other_json = throw attribute_error
  on_message (object e) = attempt e
