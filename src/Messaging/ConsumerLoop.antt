-- ===== src/Messaging/ConsumerLoop.antt =====
-- libs/py-common/devblog_common/messaging/consumer.py: `RabbitMqConsumer.run_forever`, with the calls
-- that answer a message. The thread is stopped after some number of rounds.
pub mod Rounds
pub mod Acknowledged
pub mod AtLeastOnce
use myblog.Base.{
  ℕ, zero, suc, Text, Bool, true, false, Option, none, some, List, [], ◌∷◌, if◌then◌else◌, length,
}
use myblog.Kernel.Exec.{Exec, pure, modify, ◌>>=◌, ◌>>◌}
use myblog.Kernel.Errors.{Result, ok, err}
use myblog.Kernel.Events.{Envelope}
use myblog.Kernel.Redis.{Redis, except_any}
use myblog.Kernel.UnitOfWork.{Store}
use myblog.Messaging.Topology.{Call, declare_topology}
use myblog.Messaging.Publisher.{Pika}
use myblog.Messaging.Consumer.{Body, Answer, ack, dead_letter, requeue, on_message}
use myblog.Messaging.Backoff.{next_delay, reset}

-- What pika has for consumers: a delivery is a message with its tag. `next` waits for the next call
-- of `on_message_callback` within `start_consuming`, and raises when the connection breaks.
pub record Consuming (K : Pika) : Type 1 where
  pub Delivery : Type 0
  pub body : Delivery → Body
  pub basic_qos : K.Channel → ℕ → Exec K.World (Unit {0})
  pub basic_consume : K.Channel → Text → Exec K.World (Unit {0})
  pub next : K.Channel → Exec K.World Delivery
  pub basic_ack : K.Channel → Delivery → Exec K.World (Unit {0})
  -- with `requeue`
  pub basic_nack : K.Channel → Delivery → Bool → Exec K.World (Unit {0})

-- What a round of the loop ends with.
pub data Round : Type 0 where
  -- `start_consuming` returned
  consumed : Round
  -- `self._stopping.wait(delay)`, in nanoseconds
  waited : ℕ → Round

pub record ConsumerState (K : Pika) (S : Type 0) : Type 0 where
  pub attempt : ℕ
  pub connection : Option K.Connection
  pub channel : Option K.Channel
  pub world : K.World
  pub store : S

module _ (R : Redis) (with_redis : Bool) (queue : Text) (prefetch : ℕ) {D : Type 0}
    (handle : Envelope → Exec (Store D R.State) (Unit {0})) (K : Pika) (C : Consuming K) where
  abbrev pub Method : Type 0 → Type 0
  Method A = Exec (ConsumerState K (Store D R.State)) A

  abbrev pub pika : {A : Type 0} → Exec K.World A → Method A
  pika m s = let (r, w) = m s.world in (r, record s { world = w })

  abbrev pub on_store : {A : Type 0} → Exec (Store D R.State) A → Method A
  on_store m s = let (r, t) = m s.store in (r, record s { store = t })

  -- `basic_ack` stands in the `try` block, so the message is requeued when it raises.
  abbrev pub answer : K.Channel → C.Delivery → Answer → Method (Unit {0})
  answer c d ack = except_any (pika (C.basic_ack c d)) (pika (C.basic_nack c d true))
  answer c d dead_letter = pika (C.basic_nack c d false)
  answer c d requeue = pika (C.basic_nack c d true)

  -- `_on_message`, whole
  unfoldable pub on_delivery : K.Channel → C.Delivery → Method (Unit {0})
  on_delivery c d = do a ← on_store (on_message R with_redis queue handle (C.body d)); answer c d a

  -- `start_consuming`, which returns after `n` messages or raises.
  unfoldable pub start_consuming : K.Channel → ℕ → Method (Unit {0})
  start_consuming c zero = pure tt
  start_consuming c (suc n) = do d ← pika (C.next c); on_delivery c d; start_consuming c n

  -- `declare_topology(self._channel)`
  abbrev pub declare_calls : K.Channel → List Call → Exec K.World (Unit {0})
  declare_calls c [] = pure tt
  declare_calls c (call ∷ calls) = do K.declare c call; declare_calls c calls

  abbrev pub with_connection : K.Connection → Method (Unit {0})
  with_connection c = modify (λ s. record s { connection = some c })

  abbrev pub with_channel : K.Channel → Method (Unit {0})
  with_channel c = modify (λ s. record s { channel = some c })

  abbrev pub reset_backoff : Method (Unit {0})
  reset_backoff = modify (λ s. record s { attempt = reset s.attempt })

  -- The `try` block
  unfoldable pub consume : ℕ → Method (Unit {0})
  consume n = do
    connection ← pika K.connect
    with_connection connection
    c ← pika (K.channel connection)
    with_channel c
    pika (declare_calls c declare_topology)
    pika (C.basic_qos c prefetch)
    pika (C.basic_consume c queue)
    reset_backoff
    start_consuming c n

  -- The `except` clause
  abbrev pub waiting : Result ℕ × ℕ → Method Round
  waiting (ok d, a) s = (ok (waited d), record s { attempt = a })
  waiting (err e, a) s = (err e, record s { attempt = a })

  abbrev pub after_consume : ℕ → Result (Unit {0}) → Method Round
  after_consume factor (ok t) s = (ok consumed, s)
  after_consume factor (err e) s = waiting (next_delay factor s.attempt) s

  abbrev pub close_quietly : Option K.Connection → Method (Unit {0})
  close_quietly none s = (ok tt, s)
  close_quietly (some c) s =
      if K.connection_is_open c s.world
      then (ok tt, record s { world = (K.close c s.world).1 })
      else (ok tt, s)

  -- The `finally` clause; the exception of the `except` clause goes on after it.
  abbrev pub finally_close : Result Round → Method Round
  finally_close r s = (r, (close_quietly s.connection s).1)

  -- One round, with the factor of its delay
  unfoldable pub round : ℕ → ℕ → Method Round
  unfolding consume
  round factor n s =
      let (r, s1) = consume n s in let (r2, s2) = after_consume factor r s1 in finally_close r2 s2

  -- `run_forever`: how many messages each round gets, before the thread is stopped. `draw` gives the
  -- factor of a round by the number of those after it.
  unfoldable pub run_forever : (ℕ → ℕ) → List ℕ → Method (List Round)
  run_forever draw [] = pure []
  run_forever draw (n ∷ rounds) = do
    x ← round (draw (length rounds)) n
    rest ← run_forever draw rounds
    pure (x ∷ rest)
