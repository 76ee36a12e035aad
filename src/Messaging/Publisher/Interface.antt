-- ===== src/Messaging/Publisher/Interface.antt =====
-- The publisher, as the relay uses it.
use myblog.Messaging.Publisher.{publish, Pika, RabbitMqPublisher, heartbeat}
use myblog.Messaging.Publisher.Confirms.{IsValid, Confirms, publish-Tells, heartbeat_lem}
use myblog.Messaging.Outbox
use myblog.Base.{String, Text, ℕ, ◌≡◌, unique, true, list_eq, number_eq, string_eq, option_eq}
use myblog.Kernel.Exec.{Exec}
use myblog.Messaging.Drain.{IsSilent, run_keeps_lem}
use myblog.Kernel.Events.{Envelope, Instant}
use myblog.Kernel.Errors.{ok}
use myblog.Messaging.RelayLoop.{RelayState, run}
use myblog.Messaging.Outbox.{message_key, Commit}
use myblog.Messaging.Relay.{events, Repeats}

module _ (K : Pika) (L : Confirms K) where
  -- A state of the publisher that its methods can reach
  abbrev pub Valid : Type 0
  Valid = (s : RabbitMqPublisher K) × IsValid K L s

  abbrev publish_valid : String → Envelope → Text → Exec Valid (Unit {0})
  publish_valid t e i (s, v) =
      let (r, s') = publish K t e i s in (r, (s', (publish-Tells K L t e i s v).valid))

  abbrev pub rabbit : Outbox.Publisher
  rabbit = record {
    State = Valid;
    publish = publish_valid;
    confirmed = λ (s, v). L.confirmed s.world;
  }

  abbrev pub beat : Exec Valid (Unit {0})
  beat (s, v) = let (r, s') = heartbeat K s in (r, (s', (heartbeat_lem K L s v).2))

  rabbit-IsLawful : Outbox.IsLawful rabbit
  rabbit-IsLawful = record {
    returns = λ t e i s h. (publish-Tells K L t e i (s.0) (s.1)).answers h;
    raises = λ t e i s x h. (publish-Tells K L t e i (s.0) (s.1)).raises x h;
  }

  -- With what pika documents of confirm mode, the publisher is what the relay asks for, whatever
  -- connections break and are opened again: `publish` answers exactly when the broker has confirmed
  -- the message; and its heartbeat never raises and publishes nothing.
  pub rabbit_lem :
      Outbox.IsLawful rabbit × IsSilent rabbit beat × ((s : Valid) → (beat s).0 ≡ ok tt)
  rabbit_lem = (
    rabbit-IsLawful,
    λ s. (heartbeat_lem K L (s.0) (s.1)).1,
    λ s. (heartbeat_lem K L (s.0) (s.1)).0,
  )

  -- The thread of the relay over the publisher of RabbitMQ, with what pika documents and with unique
  -- identifiers: after any number of passes, whichever calls of pika and whichever commits fail and
  -- even if the thread ends, what the broker confirmed, followed by what is pending, is the same
  -- sequence of events, but that an event may follow itself directly, at most once for each pass.
  pub rabbit_run_lem :
      (commit : Commit rabbit) (clock : ℕ → Instant) (batch_size : ℕ) (draw : ℕ → ℕ) (passes : ℕ)
      (st : RelayState rabbit)
      → unique message_key (st.outbox.0) ≡ true
      → Repeats passes
          (events rabbit st.outbox)
          (events rabbit (run rabbit commit beat clock batch_size draw passes st).1.outbox)
  rabbit_run_lem commit clock batch_size draw passes st u =
      run_keeps_lem rabbit rabbit-IsLawful commit beat (rabbit_lem.1) clock batch_size draw passes
        st u
