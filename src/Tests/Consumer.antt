-- ===== src/Tests/Consumer.antt =====
-- The examples of a consumer's thread, over a queue that is a list.
use myblog.Messaging.Publisher.{Pika}
use myblog.Messaging.Consumer.{Body, not_json, object}
use myblog.Messaging.ConsumerLoop.{Consuming, ConsumerState, Round, run_forever}
use myblog.Messaging.ConsumerLoop.Acknowledged.{Acks, Reach, Settled}
use myblog.Messaging.ConsumerLoop.AtLeastOnce.{acknowledged_lem}
use myblog.Messaging.ConsumerLoop.Rounds.{run_forever_lem, IsShort}
use myblog.Base.{
  ℕ, List, true, [], ◌∷◌, ◌++◌, ◌==◌, ◌≡◌, if◌then◌else◌, refl, option_eq, string_eq, arith, none,
  some, codes, inl, length, All, ◌+◌,
}
use myblog.Kernel.Events.{Envelope}
use myblog.Kernel.Exec.{Exec}
use myblog.Kernel.Errors.{Result, ok, err, connection_error, key_error}
use myblog.Kernel.UnitOfWork.{Store}
use myblog.Tests.Sample.{counter}
use myblog.Tests.Messaging.{message}

-- What waits in the queue, and what is acknowledged.
abbrev World : Type 0
World = List Body × List Body

abbrev client : Pika
client = record {
  World = World;
  Connection = Unit {0};
  Channel = Unit {0};
  connect = λ w. (ok tt, w);
  channel = λ c w. (ok tt, w);
  confirm_delivery = λ c w. (ok tt, w);
  declare = λ c call w. (ok tt, w);
  basic_publish = λ c x t e i w. (ok tt, w);
  process_data_events = λ c w. (ok tt, w);
  close = λ c w. (ok tt, w);
  connection_is_open = λ c w. true;
  channel_is_open = λ c w. true;
}

-- The connection breaks when the queue is empty.
abbrev next : World → Result Body × World
next ([], done) = (err connection_error, ([], done))
next (b ∷ waiting, done) = (ok b, (waiting, done))

next-acks : (w : World) → (next w).1.1 ≡ w.1
next-acks ([], done) = refl
next-acks (b ∷ waiting, done) = refl

abbrev queue_client : Consuming client
queue_client = record {
  Delivery = Body;
  body = λ b. b;
  basic_qos = λ c n w. (ok tt, w);
  basic_consume = λ c q w. (ok tt, w);
  next = λ c. next;
  basic_ack = λ c b w. (ok tt, (w.0, w.1 ++ b ∷ []));
  basic_nack = λ c b again w. (ok tt, (if again then w.0 ++ b ∷ [] else w.0, w.1));
}

queue_client-Acks : Acks client queue_client
queue_client-Acks = record {
  acked = λ w. w.1;
  ack_acks = λ c d w. inl refl;
  nack_acks = λ c d again w. refl;
  next_acks = λ c w. next-acks w;
  qos_acks = λ c n w. refl;
  consume_acks = λ c q w. refl;
  connect_acks = λ w. refl;
  channel_acks = λ c w. refl;
  declare_acks = λ c call w. refl;
  close_acks = λ c w. refl;
}

-- The database is the number of events that were taken.
abbrev Service : Type 0
Service = Store ℕ ℕ

abbrev handle : Envelope → Exec Service (Unit {0})
handle e st =
    if e.event_type == some "bad"
    then (err key_error, st)
    else (ok tt, record st { db = st.db + 1 })

abbrev good : Envelope
good = (message 1 (codes "e1") "good").payload

abbrev bad : Envelope
bad = (message 2 (codes "e2") "bad").payload

abbrev begin : ConsumerState client Service
begin = record {
  attempt = 0;
  connection = none;
  channel = none;
  world = (object bad ∷ not_json ∷ object good ∷ [], []);
  store = record { db = 0; outbox = []; world = 0; correlation_id = [] };
}

-- The jitter of every delay
abbrev draw : ℕ → ℕ
draw n = 1000000000

abbrev final : ConsumerState client Service
final =
    (run_forever counter true (codes "q") 10 handle client queue_client draw (3 ∷ 2 ∷ []) begin).1

-- Two rounds, of three messages and of two. The first meets one of each kind.
acknowledged_lem_example :
    (newly : List Body) × (final.world.1 ≡ [] ++ newly)
    × All
        (Settled counter true
          (codes "q")
          10
          handle
          client
          queue_client
          queue_client-Acks
          begin.store)
        newly
    × Reach counter true
        (codes "q")
        10
        handle
        client
        queue_client
        queue_client-Acks
        begin.store
        final.store
unfolding queue_client-Acks
acknowledged_lem_example =
    acknowledged_lem counter true (codes "q") 10 handle client queue_client queue_client-Acks draw
      (3 ∷ 2 ∷ []) begin

run_forever_lem_example :
    (done : List Round) × ((run_forever counter true
        (codes "q")
        10
        handle
        client
        queue_client
        draw
        (3 ∷ 2 ∷ [])
        begin).0
      ≡ ok done)
    × (length done ≡ 2)
    × All IsShort done
run_forever_lem_example =
    run_forever_lem counter true (codes "q") 10 handle client queue_client draw (3 ∷ 2 ∷ []) begin
      (λ n. record { least = omega arith; most = omega arith }) (omega arith)

-- Only the good event is acknowledged; the bad one waits again.
final_world : final.world ≡ (object bad ∷ [], object good ∷ [])
unfolding run_forever option_eq string_eq myblog.Messaging.ConsumerLoop.round
    myblog.Messaging.ConsumerLoop.start_consuming myblog.Messaging.ConsumerLoop.on_delivery
    myblog.Messaging.Consumer.on_message myblog.Messaging.Consumer.handle_new
    myblog.Messaging.Consumer.already_processed myblog.Messaging.Consumer.mark_processed
final_world = refl
