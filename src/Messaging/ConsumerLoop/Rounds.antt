-- ===== src/Messaging/ConsumerLoop/Rounds.antt =====
-- The thread of a consumer goes on, whatever pika, Redis and the handler do.
use myblog.Base.{
  ℕ, zero, suc, Text, Bool, Option, none, some, List, [], ◌∷◌, ◌≡◌, ◌≤◌, ◌<◌, ◌+◌, inl, inr, true,
  if◌then◌else◌, length, All, ltb→lt, refl, arith, ◌*◌, ltb, Bool-cases,
}
use myblog.Kernel.Exec.{Exec}
use myblog.Kernel.Errors.{Result-cases, ok, err, Result, Exc, overflow_error}
use myblog.Kernel.Events.{Envelope}
use myblog.Kernel.Redis.{Redis}
use myblog.Kernel.UnitOfWork.{Store}
use myblog.Messaging.Topology.{declare_topology}
use myblog.Kernel.Steps.{Keeps, Keeps-bind, Keeps-then}
use myblog.Messaging.Publisher.{Pika}
use myblog.Messaging.ConsumerLoop.{
  pika, declare_calls, with_connection, with_channel, reset_backoff, close_quietly, consumed,
  waited, Consuming, Round, ConsumerState, consume, round, run_forever, start_consuming,
  on_delivery,
}
use myblog.Messaging.Backoff.{float_exponents, base_delay, IsJitter, jittered}

-- A round that waits, waits between 0.8 and 36 seconds.
abbrev pub IsShort : Round → Type 0
IsShort consumed = Unit
IsShort (waited d) = (800000000 ≤ d) × (d ≤ 36000000000)

module _ (R : Redis) (with_redis : Bool) (queue : Text) (prefetch : ℕ) {D : Type 0}
    (handle : Envelope → Exec (Store D R.State) (Unit {0})) (K : Pika) (C : Consuming K) where
  abbrev State : Type 0
  State = ConsumerState K (Store D R.State)

  -- The count of failures does not grow.
  abbrev Calmer : State → State → Type 0
  Calmer s t = t.attempt ≤ s.attempt

  Calmer-trans : (s t u : State) → Calmer s t → Calmer t u → Calmer s u
  Calmer-trans s t u h k = omega arith

  pika-attempt :
      {A : Type 0} (m : Exec K.World A)
      → Keeps Calmer (pika R with_redis queue prefetch handle K C m)
  pika-attempt m = record { kept = λ s. omega arith }

  with_connection-attempt :
      (c : K.Connection) → Keeps Calmer (with_connection R with_redis queue prefetch handle K C c)
  with_connection-attempt c = record { kept = λ s. omega arith }

  with_channel-attempt :
      (c : K.Channel) → Keeps Calmer (with_channel R with_redis queue prefetch handle K C c)
  with_channel-attempt c = record { kept = λ s. omega arith }

  reset_backoff-attempt : Keeps Calmer (reset_backoff R with_redis queue prefetch handle K C)
  reset_backoff-attempt = record { kept = λ s. omega arith }

  on_delivery-attempt :
      (c : K.Channel) (d : C.Delivery)
      → Keeps Calmer (on_delivery R with_redis queue prefetch handle K C c d)
  unfolding on_delivery
  on_delivery-attempt c d = record { kept = λ s. ground arith }

  start_consuming-attempt :
      (c : K.Channel) (n : ℕ)
      → Keeps Calmer (start_consuming R with_redis queue prefetch handle K C c n)
  unfolding start_consuming
  start_consuming-attempt c zero = record { kept = λ s. omega arith }
  start_consuming-attempt c (suc n) =
      Keeps-bind Calmer Calmer-trans (pika-attempt (C.next c)) (λ d.
        Keeps-then Calmer Calmer-trans (on_delivery-attempt c d) (start_consuming-attempt c n))

  consume-attempt : (n : ℕ) → Keeps Calmer (consume R with_redis queue prefetch handle K C n)
  unfolding consume
  consume-attempt n = Keeps-bind Calmer Calmer-trans (pika-attempt K.connect) (λ connection.
      Keeps-then Calmer Calmer-trans (with_connection-attempt connection) (
        Keeps-bind Calmer Calmer-trans (pika-attempt (K.channel connection)) (λ c.
          Keeps-then Calmer Calmer-trans (with_channel-attempt c) (
            Keeps-then Calmer Calmer-trans
              (pika-attempt
                (declare_calls R with_redis queue prefetch handle K C c declare_topology))
              (Keeps-then Calmer Calmer-trans (pika-attempt (C.basic_qos c prefetch)) (
                Keeps-then Calmer Calmer-trans (pika-attempt (C.basic_consume c queue)) (
                  Keeps-then Calmer Calmer-trans reset_backoff-attempt
                    (start_consuming-attempt c n))))))))

  close_quietly-attempt :
      (c : Option K.Connection) (s : State)
      → (close_quietly R with_redis queue prefetch handle K C c s).1.attempt ≡ s.attempt
  close_quietly-attempt none s = refl
  close_quietly-attempt (some c) s = ground arith

  abbrev run_round : ℕ → ℕ → State → Result Round × State
  run_round = round R with_redis queue prefetch handle K C

  -- A round is answered while the count of failures is below 1024, and adds at most one to it.
  round-attempt :
      (f n : ℕ) (s : State)
      → IsJitter f
      → s.attempt < float_exponents
      → ((x : Round) × ((run_round f n s).0 ≡ ok x) × IsShort x)
        × ((run_round f n s).1.attempt ≤ s.attempt + 1)
  unfolding round
  round-attempt f n s near few =
      let s1 = (consume R with_redis queue prefetch handle K C n s).1 in
      let calm = (consume-attempt n).kept s in
      let below : ltb s1.attempt float_exponents ≡ true = ground arith in
      let s2 : State = record s1 { attempt = s1.attempt + 1 } in
      elim (Result-cases (consume R with_redis queue prefetch handle K C n s).0) [
        | inl (t, fine) ↦
            rw fine ((consumed, refl, tt), omega (arith, close_quietly-attempt s1.connection s1))
        | inr (e, raised) ↦
            rw (raised, below)
              (
                (waited (base_delay s1.attempt * f), refl, jittered s1.attempt f near),
                omega (arith, close_quietly-attempt s1.connection s2),
              )
      ]

  -- No connection can be opened.
  abbrev pub IsAway : Type 0
  IsAway = (w : K.World) → (e : Exc) × ((K.connect w).0 ≡ err e)

  round-away :
      (f n : ℕ) (s : State)
      → IsAway
      → ((run_round f n s).0 ≡ (
          if ltb s.attempt float_exponents
          then ok (waited (base_delay s.attempt * f))
          else err overflow_error))
        × ((run_round f n s).1.attempt
            ≡ (if ltb s.attempt float_exponents then s.attempt + 1 else s.attempt))
  unfolding round consume
  round-away f n s away =
      let (e, refused) = away s.world in
      let s1 : State = record s { world = (K.connect s.world).1 } in
      elim (Bool-cases (ltb s.attempt float_exponents)) [
        | inl few ↦
            rw (refused, few)
              (refl, close_quietly-attempt s.connection (record s1 { attempt = s.attempt + 1 }))
        | inr many ↦ rw (refused, many) (refl, close_quietly-attempt s.connection s1)
      ]

  module _ (draw : ℕ → ℕ) where
    -- The thread goes on, whatever pika, Redis and the handler do and whatever the jitter draws, for
    -- as many rounds as the count of failures leaves below 1024: each of them is answered, and waits,
    -- if it waits, for 0.8 seconds at least and 36 at most.
    pub run_forever_lem :
        (rounds : List ℕ) (s : State)
        → ((n : ℕ) → IsJitter (draw n))
        → s.attempt + length rounds ≤ float_exponents
        → (done : List Round) × ((run_forever R with_redis queue prefetch handle K C draw rounds
              s).0
            ≡ ok done)
          × (length done ≡ length rounds)
          × All IsShort done
    unfolding run_forever
    run_forever_lem [] s near few = ([], refl, refl, tt)
    run_forever_lem (n ∷ rounds) s near few =
        let f = draw (length rounds) in
        let ((x, answered, short), counted) =
          round-attempt f n s (near (length rounds)) (omega arith) in
        let (done, rest, as_many, bounded) =
          run_forever_lem rounds (run_round f n s).1 near (omega (arith, counted)) in
        (x ∷ done, rw (answered, rest) refl, omega (arith, as_many), (short, bounded))

    -- If no connection can be opened, the round after the count of failures has come to 1024 raises
    -- OverflowError and ends the thread.
    pub run_forever-ends :
        (rounds : List ℕ) (s : State)
        → IsAway
        → s.attempt ≤ float_exponents
        → float_exponents < s.attempt + length rounds
        → (run_forever R with_redis queue prefetch handle K C draw rounds s).0 ≡ err overflow_error
    unfolding run_forever
    run_forever-ends [] s away few many = absurd (omega arith)
    run_forever-ends (n ∷ rounds) s away few many =
        let f = draw (length rounds) in
        let t = (run_round f n s).1 in
        let (answered, counted) = round-away f n s away in
        elim (Bool-cases (ltb s.attempt float_exponents)) [
          | inl more ↦
              let one : t.attempt ≡ s.attempt + 1 = rw more at counted in
              let below = ltb→lt s.attempt float_exponents more in
              rw
                (
                  answered,
                  more,
                  run_forever-ends rounds t away (omega (arith, one)) (omega (arith, one)),
                )
                refl
          | inr last ↦ rw (answered, last) refl
        ]
