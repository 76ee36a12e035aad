-- ===== src/Tests/Publisher.antt =====
-- The examples of the publisher of RabbitMQ.
use myblog.Messaging.Publisher.{Pika}
use myblog.Messaging.Publisher.Confirms.{Confirms}
use myblog.Messaging.Publisher.Interface.{rabbit, beat, Valid, rabbit_lem}
use myblog.Messaging.Outbox
use myblog.Messaging.Drain.{IsSilent}
use myblog.Base.{
  String, Text, List, Bool, true, [], ◌∷◌, ◌++◌, ◌==◌, ◌≡◌, if◌then◌else◌, refl, string_eq, arith,
}
use myblog.Kernel.Events.{Envelope}
use myblog.Kernel.Exec.{Exec}
use myblog.Kernel.Errors.{ok, err, connection_error}

-- What the broker has confirmed, and whether the channel is in confirm mode.
abbrev World : Type 0
World = List Text × Bool

-- A message of the type "bad" breaks the call, and is not confirmed.
abbrev basic_publish : Unit {0} → String → String → Envelope → Text → Exec World (Unit {0})
basic_publish c x t e i (sent, confirming) =
    if t == "bad"
    then (err connection_error, (sent, confirming))
    else (ok tt, (sent ++ i ∷ [], true))

abbrev client : Pika
client = record {
  World = World;
  Connection = Unit {0};
  Channel = Unit {0};
  connect = λ w. (ok tt, w);
  channel = λ c w. (ok tt, w);
  confirm_delivery = λ c w. (ok tt, (w.0, true));
  declare = λ c call w. (ok tt, w);
  basic_publish = basic_publish;
  process_data_events = λ c w. (ok tt, w);
  close = λ c w. (ok tt, w);
  connection_is_open = λ c w. true;
  channel_is_open = λ c w. true;
}

client-Confirms : Confirms client
client-Confirms = record {
  confirmed = λ w. w.0;
  confirming = λ c w. w.1;
  confirm_sets = λ c w h. refl;
  publish_returns = λ c x t e i w on h. ground arith;
  publish_raises = λ c x t e i w error on h. ground arith;
  publish_keeps = λ c d x t e i w on. ground arith;
  connect_confirms = λ w. refl;
  channel_confirms = λ c w. refl;
  delivery_confirms = λ c w. refl;
  declare_confirms = λ c call w. refl;
  declare_keeps = λ c d call w on. on;
  process_confirms = λ c w. refl;
  process_keeps = λ c d w on. on;
  close_confirms = λ c w. refl;
}

rabbit_lem_example :
    Outbox.IsLawful (rabbit client client-Confirms)
    × IsSilent (rabbit client client-Confirms) (beat client client-Confirms)
    × ((s : Valid client client-Confirms) → (beat client client-Confirms s).0 ≡ ok tt)
rabbit_lem_example = rabbit_lem client client-Confirms
