-- ===== src/Messaging/Publisher.antt =====
-- libs/py-common/devblog_common/messaging/publisher.py: `RabbitMqPublisher`. Its lock is left out: the
-- calls come one after another.
pub mod Confirms
pub mod Interface
use myblog.Base.{
  Option, String, if◌then◌else◌, List, ◌&&◌, Bool, none, All, ◌∷◌, Text, some, false, [],
}
use myblog.Kernel.Exec.{◌>>=◌, Exec, pure, ◌>>◌, modify, gets, throw}
use myblog.Kernel.Errors.{Result, ok, err, attribute_error}
use myblog.Messaging.Topology.{Call, declare_topology, events_exchange}
use myblog.Kernel.Events.{Envelope}

-- The client library pika, as the publisher uses it. A call may raise.
pub record Pika : Type 1 where
  pub World : Type 0
  pub Connection : Type 0
  pub Channel : Type 0
  -- `pika.BlockingConnection(params)`
  pub connect : Exec World Connection
  pub channel : Connection → Exec World Channel
  pub confirm_delivery : Channel → Exec World (Unit {0})
  pub declare : Channel → Call → Exec World (Unit {0})
  -- The exchange, the routing key, the body and the message's identifier
  pub basic_publish : Channel → String → String → Envelope → Text → Exec World (Unit {0})
  pub process_data_events : Connection → Exec World (Unit {0})
  pub close : Connection → Exec World (Unit {0})
  pub connection_is_open : Connection → World → Bool
  pub channel_is_open : Channel → World → Bool

module _ (K : Pika) where
  pub record RabbitMqPublisher : Type 0 where
    pub connection : Option K.Connection
    pub channel : Option K.Channel
    pub world : K.World

  abbrev pub Method : Type 0 → Type 0
  Method A = Exec RabbitMqPublisher A

  abbrev pub pika : {A : Type 0} → Exec K.World A → Method A
  pika m s = let (r, w) = m s.world in (r, record s { world = w })

  -- `self._connection and self._connection.is_open`
  abbrev pub has_connection : Option K.Connection → K.World → Bool
  has_connection none w = false
  has_connection (some c) w = K.connection_is_open c w

  abbrev pub has_channel : Option K.Channel → K.World → Bool
  has_channel none w = false
  has_channel (some c) w = K.channel_is_open c w

  -- `declare_topology`
  abbrev pub declare_all : K.Channel → List Call → Method (Unit {0})
  declare_all c [] = pure tt
  declare_all c (call ∷ calls) = do pika (K.declare c call); declare_all c calls

  -- `_ensure`, where there is no open channel
  unfoldable pub open_channel : Method (Unit {0})
  open_channel = do
    connection ← pika K.connect
    modify (λ s. record s { connection = some connection })
    c ← pika (K.channel connection)
    modify (λ s. record s { channel = some c })
    pika (K.confirm_delivery c)
    declare_all c declare_topology

  unfoldable pub ensure : Method (Unit {0})
  ensure s =
      if has_connection s.connection s.world && has_channel s.channel s.world
      then (ok tt, s)
      else open_channel s

  abbrev pub close_open : Option K.Connection → Method (Unit {0})
  close_open none s = (ok tt, s)
  close_open (some c) s = if K.connection_is_open c s.world then pika (K.close c) s else (ok tt, s)

  -- `_reset`
  unfoldable pub reset : Method (Unit {0})
  reset s =
      let (r, s') = close_open s.connection s in
      (ok tt, record s' { connection = none; channel = none })

  -- A call on `self._channel`; `None` has no attributes.
  abbrev pub publish_on : Option K.Channel → String → Envelope → Text → Method (Unit {0})
  publish_on none t e i = throw attribute_error
  publish_on (some c) t e i = pika (K.basic_publish c events_exchange t e i)

  abbrev pub try_publish : String → Envelope → Text → Method (Unit {0})
  try_publish t e i = do ensure; c ← gets (λ s. s.channel); publish_on c t e i

  -- `except Exception: self._reset(); raise`
  abbrev pub or_reset : Result (Unit {0}) → Method (Unit {0})
  or_reset (ok x) s = (ok x, s)
  or_reset (err x) s = (err x, (reset s).1)

  unfoldable pub publish : String → Envelope → Text → Method (Unit {0})
  publish t e i s = let (r, s') = try_publish t e i s in or_reset r s'

  abbrev pub reset_if : Result (Unit {0}) → Method (Unit {0})
  reset_if (ok x) s = (ok tt, s)
  reset_if (err x) s = reset s

  abbrev pub process_events : Option K.Connection → Method (Unit {0})
  process_events none s = (ok tt, s)
  process_events (some c) s =
      if K.connection_is_open c s.world
      then (let (r, s') = pika (K.process_data_events c) s in reset_if r s')
      else (ok tt, s)

  unfoldable pub heartbeat : Method (Unit {0})
  heartbeat s = process_events s.connection s

  unfoldable pub close : Method (Unit {0})
  close = reset
