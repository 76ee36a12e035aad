-- ===== src/Messaging/ConsumerLoop/AtLeastOnce.antt =====
-- A consumer acknowledges an event only after it was handled.
use myblog.Base.{length}
use myblog.Base.{
  ℕ, zero, suc, Text, Bool, Option, none, some, List, [], ◌∷◌, ◌++◌, ◌≡◌, inl, inr, All, refl, ◌∙◌,
  Bool-cases, ltb, ◌+◌,
}
use myblog.Kernel.Exec.{Exec}
use myblog.Kernel.Errors.{Result-cases}
use myblog.Kernel.Events.{Envelope}
use myblog.Kernel.Redis.{Redis}
use myblog.Kernel.Steps.{Keeps, Keeps-bind, Keeps-then}
use myblog.Kernel.UnitOfWork.{Store}
use myblog.Messaging.Topology.{Call, declare_topology}
use myblog.Messaging.Publisher.{Pika}
use myblog.Messaging.ConsumerLoop.{
  pika, declare_calls, with_connection, with_channel, reset_backoff, close_quietly, Consuming,
  ConsumerState, consume, round, run_forever, start_consuming,
}
use myblog.Messaging.ConsumerLoop.Acknowledged
use myblog.Messaging.ConsumerLoop.Acknowledged.{Acks, Reach, Settled, start}
use myblog.Messaging.Backoff.{float_exponents}

module _ (R : Redis) (with_redis : Bool) (queue : Text) (prefetch : ℕ) {D : Type 0}
    (handle : Envelope → Exec (Store D R.State) (Unit {0})) (K : Pika) (C : Consuming K)
    (L : Acks K C) where
  abbrev State : Type 0
  State = ConsumerState K (Store D R.State)

  abbrev Sound : State → State → Type 0
  Sound = Acknowledged.Sound R with_redis queue prefetch handle K C L

  Sound-trans : (s t u : State) → Sound s t → Sound t u → Sound s u
  Sound-trans = Acknowledged.Sound-trans R with_redis queue prefetch handle K C L

  quiet-Sound :
      (s t : State)
      → L.acked t.world ≡ L.acked s.world
      → Reach R with_redis queue prefetch handle K C L s.store t.store
      → Sound s t
  quiet-Sound = Acknowledged.quiet-Sound R with_redis queue prefetch handle K C L

  pika-Sound :
      {A : Type 0} (m : Exec K.World A)
      → ((w : K.World) → L.acked (m w).1 ≡ L.acked w)
      → Keeps Sound (pika R with_redis queue prefetch handle K C m)
  pika-Sound m same = Acknowledged.pika-Sound R with_redis queue prefetch handle K C L m same

  start_consuming-Sound :
      (c : K.Channel) (n : ℕ)
      → Keeps Sound (start_consuming R with_redis queue prefetch handle K C c n)
  unfolding start_consuming
  start_consuming-Sound c zero = record { kept = λ s. quiet-Sound s s refl start }
  start_consuming-Sound c (suc n) =
      Keeps-bind Sound Sound-trans (pika-Sound (C.next c) (L.next_acks c)) (λ d.
        Keeps-then Sound Sound-trans
          (Acknowledged.on_delivery-Sound R with_redis queue prefetch handle K C L c d)
          (start_consuming-Sound c n))

  declare_calls-acks :
      (c : K.Channel) (calls : List Call) (w : K.World)
      → L.acked (declare_calls R with_redis queue prefetch handle K C c calls w).1 ≡ L.acked w
  declare_calls-acks c [] w = refl
  declare_calls-acks c (call ∷ calls) w =
      let w1 = (K.declare c call w).1 in
      elim (Result-cases (K.declare c call w).0) [
        | inl (x, fine) ↦ rw fine (declare_calls-acks c calls w1 ∙ L.declare_acks c call w)
        | inr (x, raised) ↦ rw raised (L.declare_acks c call w)
      ]

  with_connection-Sound :
      (c : K.Connection) → Keeps Sound (with_connection R with_redis queue prefetch handle K C c)
  with_connection-Sound c = record {
    kept = λ s. quiet-Sound s (record s { connection = some c }) refl start;
  }

  with_channel-Sound :
      (c : K.Channel) → Keeps Sound (with_channel R with_redis queue prefetch handle K C c)
  with_channel-Sound c = record {
    kept = λ s. quiet-Sound s (record s { channel = some c }) refl start;
  }

  reset_backoff-Sound : Keeps Sound (reset_backoff R with_redis queue prefetch handle K C)
  reset_backoff-Sound = record { kept = λ s. quiet-Sound s (record s { attempt = 0 }) refl start }

  consume-Sound : (n : ℕ) → Keeps Sound (consume R with_redis queue prefetch handle K C n)
  unfolding consume
  consume-Sound n =
      Keeps-bind Sound Sound-trans (pika-Sound K.connect L.connect_acks) (λ connection.
        Keeps-then Sound Sound-trans (with_connection-Sound connection) (
          Keeps-bind Sound Sound-trans
            (pika-Sound (K.channel connection) (L.channel_acks connection))
            (λ c. Keeps-then Sound Sound-trans (with_channel-Sound c) (
              Keeps-then Sound Sound-trans
                (pika-Sound
                  (declare_calls R with_redis queue prefetch handle K C c declare_topology)
                  (declare_calls-acks c declare_topology))
                (Keeps-then Sound Sound-trans
                  (pika-Sound (C.basic_qos c prefetch) (L.qos_acks c prefetch))
                  (Keeps-then Sound Sound-trans
                    (pika-Sound (C.basic_consume c queue) (L.consume_acks c queue))
                    (Keeps-then Sound Sound-trans reset_backoff-Sound
                      (start_consuming-Sound c n))))))))

  -- Closing acknowledges nothing.
  close_quietly-Sound :
      (c : Option K.Connection) (s t : State)
      → Sound s t
      → Sound s (close_quietly R with_redis queue prefetch handle K C c t).1
  close_quietly-Sound none s t h = h
  close_quietly-Sound (some c) s t h = elim (Bool-cases (K.connection_is_open c t.world)) [
    | inr closed ↦ rw closed h
    | inl opened ↦
        let u : State = record t { world = (K.close c t.world).1 } in
        rw opened (Sound-trans s t u h (quiet-Sound t u (L.close_acks c t.world) start))
  ]

  round-Sound : (f n : ℕ) → Keeps Sound (round R with_redis queue prefetch handle K C f n)
  unfolding round
  round-Sound f n = record {
    kept = λ s.
        let t = (consume R with_redis queue prefetch handle K C n s).1 in
        let u : State = record t { attempt = t.attempt + 1 } in
        let before = (consume-Sound n).kept s in
        let later : Sound s u = Sound-trans s t u before (quiet-Sound t u refl start) in
        elim (Result-cases (consume R with_redis queue prefetch handle K C n s).0) [
          | inl (x, fine) ↦ rw fine (close_quietly-Sound t.connection s t before)
          | inr (x, raised) ↦ elim (Bool-cases (ltb t.attempt float_exponents)) [
            | inl few ↦ rw (raised, few) (close_quietly-Sound t.connection s u later)
            | inr many ↦ rw (raised, many) (close_quietly-Sound t.connection s t before)
          ]
        ];
  }

  run_forever-Sound :
      (draw : ℕ → ℕ) (rounds : List ℕ)
      → Keeps Sound (run_forever R with_redis queue prefetch handle K C draw rounds)
  unfolding run_forever
  run_forever-Sound draw [] = record { kept = λ s. quiet-Sound s s refl start }
  run_forever-Sound draw (n ∷ rounds) =
      Keeps-bind Sound Sound-trans (round-Sound (draw (length rounds)) n) (λ x.
        Keeps-bind Sound Sound-trans (run_forever-Sound draw rounds)
          (λ rest. record { kept = λ s. quiet-Sound s s refl start }))

  -- With what pika documents, whatever it, Redis and the handler do, and however many messages each
  -- of any number of rounds gets: every message that the thread has acknowledged was an event, and
  -- Redis told that it had been processed already, or the handler took it without an exception, in a
  -- store that earlier messages led to; and the store in the end is one that messages led to.
  pub acknowledged_lem :
      (draw : ℕ → ℕ) (rounds : List ℕ) (s : State)
      → let t = (run_forever R with_redis queue prefetch handle K C draw rounds s).1 in
        (newly : List C.Delivery) × (L.acked t.world ≡ L.acked s.world ++ newly)
        × All (Settled R with_redis queue prefetch handle K C L s.store) newly
        × Reach R with_redis queue prefetch handle K C L s.store t.store
  acknowledged_lem draw rounds s =
      let sound = (run_forever-Sound draw rounds).kept s in
      (sound.newly, sound.acks, sound.settled, sound.reach)
