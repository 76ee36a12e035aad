-- ===== src/Messaging/Publisher/Confirms.antt =====
-- Publisher confirms: what `publish` and the other methods tell of the broker.
use myblog.Messaging.Publisher.{publish, reset, heartbeat}
use myblog.Messaging.Publisher.{
  Pika, RabbitMqPublisher, declare_all, pika, open_channel, Method, ensure, has_connection,
  has_channel,
}
use myblog.Base.{
  none, List, Text, ◌≡◌, some, Bool, ◌∷◌, true, String, inl, ◌++◌, [], ◌∙◌, inr, refl, Option-cases,
  ◌&&◌, Bool-cases, Option, false, ap,
}
use myblog.Messaging.Topology.{Call, declare_topology, events_exchange}
use myblog.Kernel.Errors.{ok, Result-cases, Exc, err, Result}
use myblog.Kernel.Events.{Envelope}

-- What pika documents, for the messages that the broker has confirmed to this client, in their order,
-- and the channels in confirm mode.
pub record Confirms (K : Pika) : Type 0 where
  pub confirmed : K.World → List Text
  pub confirming : K.Channel → K.World → Bool
  pub confirm_sets :
      (c : K.Channel) (w : K.World)
      → (K.confirm_delivery c w).0 ≡ ok tt
      → confirming c (K.confirm_delivery c w).1 ≡ true
  -- A call on a channel in confirm mode returns when the broker has confirmed and raises otherwise.
  pub publish_returns :
      (c : K.Channel) (x t : String) (e : Envelope) (i : Text) (w : K.World)
      → confirming c w ≡ true
      → (K.basic_publish c x t e i w).0 ≡ ok tt
      → confirmed (K.basic_publish c x t e i w).1 ≡ confirmed w ++ i ∷ []
  pub publish_raises :
      (c : K.Channel) (x t : String) (e : Envelope) (i : Text) (w : K.World) (error : Exc)
      → confirming c w ≡ true
      → (K.basic_publish c x t e i w).0 ≡ err error
      → confirmed (K.basic_publish c x t e i w).1 ≡ confirmed w
  pub publish_keeps :
      (c d : K.Channel) (x t : String) (e : Envelope) (i : Text) (w : K.World)
      → confirming d w ≡ true
      → confirming d (K.basic_publish c x t e i w).1 ≡ true
  -- The other calls publish nothing.
  pub connect_confirms : (w : K.World) → confirmed (K.connect w).1 ≡ confirmed w
  pub channel_confirms :
      (c : K.Connection) (w : K.World) → confirmed (K.channel c w).1 ≡ confirmed w
  pub delivery_confirms :
      (c : K.Channel) (w : K.World) → confirmed (K.confirm_delivery c w).1 ≡ confirmed w
  pub declare_confirms :
      (c : K.Channel) (call : Call) (w : K.World) → confirmed (K.declare c call w).1 ≡ confirmed w
  pub declare_keeps :
      (c d : K.Channel) (call : Call) (w : K.World)
      → confirming d w ≡ true
      → confirming d (K.declare c call w).1 ≡ true
  pub process_confirms :
      (c : K.Connection) (w : K.World) → confirmed (K.process_data_events c w).1 ≡ confirmed w
  pub process_keeps :
      (c : K.Connection) (d : K.Channel) (w : K.World)
      → confirming d w ≡ true
      → confirming d (K.process_data_events c w).1 ≡ true
  pub close_confirms : (c : K.Connection) (w : K.World) → confirmed (K.close c w).1 ≡ confirmed w

module _ (K : Pika) (L : Confirms K) where
  -- The channel is there and in confirm mode.
  abbrev pub IsReady : RabbitMqPublisher K → Type 0
  IsReady s = (c : K.Channel) × (s.channel ≡ some c) × (L.confirming c s.world ≡ true)

  -- Whatever channel there is, is in confirm mode.
  abbrev pub IsValid : RabbitMqPublisher K → Type 0
  IsValid s = (c : K.Channel) → s.channel ≡ some c → L.confirming c s.world ≡ true

  abbrev pub sent : RabbitMqPublisher K → List Text
  sent s = L.confirmed s.world

  declare_all-sent :
      (c : K.Channel) (calls : List Call) (s : RabbitMqPublisher K)
      → sent (declare_all K c calls s).1 ≡ sent s
  declare_all-sent c [] s = refl
  declare_all-sent c (call ∷ calls) s =
      let s' = (pika K (K.declare c call) s).1 in
      let first = L.declare_confirms c call s.world in
      elim (Result-cases (K.declare c call s.world).0) [
        | inl (x, fine) ↦ rw fine (declare_all-sent c calls s' ∙ first)
        | inr (e, raised) ↦ rw raised first
      ]

  declare_all-IsReady :
      (c : K.Channel) (calls : List Call) (s : RabbitMqPublisher K)
      → s.channel ≡ some c
      → L.confirming c s.world ≡ true
      → IsReady (declare_all K c calls s).1
  declare_all-IsReady c [] s there h = (c, there, h)
  declare_all-IsReady c (call ∷ calls) s there h =
      let s' = (pika K (K.declare c call) s).1 in
      let keeps = L.declare_keeps c c call s.world h in
      elim (Result-cases (K.declare c call s.world).0) [
        | inl (x, fine) ↦ rw fine (declare_all-IsReady c calls s' there keeps)
        | inr (e, raised) ↦ rw raised (c, there, keeps)
      ]

  -- A method that publishes nothing, and that leaves a channel in confirm mode if it answers.
  abbrev Prepares : Method K (Unit {0}) → RabbitMqPublisher K → Type 0
  Prepares m s = (sent (m s).1 ≡ sent s) × ((m s).0 ≡ ok tt → IsReady (m s).1)

  open_channel-Prepares : (s : RabbitMqPublisher K) → Prepares (open_channel K) s
  unfolding open_channel
  open_channel-Prepares s =
      let w1 = (K.connect s.world).1 in
      let kept1 = L.connect_confirms s.world in
      elim (Result-cases (K.connect s.world).0) [
        | inr (e, raised) ↦ rw raised (kept1, λ impossible. cc)
        | inl (connection, connected) ↦
            let w2 = (K.channel connection w1).1 in
            let kept2 = L.channel_confirms connection w1 ∙ kept1 in
            elim (Result-cases (K.channel connection w1).0) [
              | inr (e, raised) ↦ rw (connected, raised) (kept2, λ impossible. cc)
              | inl (c, opened) ↦
                  let w3 = (K.confirm_delivery c w2).1 in
                  let kept3 = L.delivery_confirms c w2 ∙ kept2 in
                  let s3 : RabbitMqPublisher K = record {
                    connection = some connection;
                    channel = some c;
                    world = w3;
                  } in
                  elim (Result-cases (K.confirm_delivery c w2).0) [
                    | inr (e, raised) ↦ rw (connected, opened, raised) (kept3, λ impossible. cc)
                    | inl (x, confirms) ↦
                        rw (connected, opened, confirms)
                          (
                            declare_all-sent c declare_topology s3 ∙ kept3,
                            λ fine.
                                declare_all-IsReady c declare_topology s3 refl
                                  (L.confirm_sets c w2 confirms),
                          )
                  ]
            ]
      ]

  channel_there :
      (b : Bool) (o : Option K.Channel) (w : K.World)
      → (b && has_channel K o w) ≡ true
      → (c : K.Channel) × (o ≡ some c)
  channel_there true none w h = cc
  channel_there false none w h = cc
  channel_there b (some c) w h = (c, refl)

  ensure-Prepares : (s : RabbitMqPublisher K) → IsValid s → Prepares (ensure K) s
  unfolding ensure
  ensure-Prepares s v =
      let open_ready = has_connection K s.connection s.world && has_channel K s.channel s.world in
      elim (Bool-cases open_ready) [
        | inr closed ↦ rw closed (open_channel-Prepares s)
        | inl usable ↦
            let (c, there) =
              channel_there (has_connection K s.connection s.world) s.channel s.world usable in
            rw usable (refl, λ fine. (c, there, v c there))
      ]

  reset-sent : (s : RabbitMqPublisher K) → sent (reset K s).1 ≡ sent s
  unfolding reset
  reset-sent s = elim (Option-cases s.connection) [
    | inl missing ↦ rw missing refl
    | inr (c, there) ↦ elim (Bool-cases (K.connection_is_open c s.world)) [
      | inl is_open ↦ rw (there, is_open) (L.close_confirms c s.world)
      | inr is_closed ↦ rw (there, is_closed) refl
    ]
  ]

  reset-ok : (s : RabbitMqPublisher K) → (reset K s).0 ≡ ok tt
  unfolding reset
  reset-ok s = refl

  reset-IsValid : (s : RabbitMqPublisher K) → IsValid (reset K s).1
  unfolding reset
  reset-IsValid s c there = cc

  -- What `publish` tells: it answers when the message is confirmed, and raises when it is not.
  pub record Tells (i : Text) (s : RabbitMqPublisher K) (r : Result (Unit {0}))
      (s' : RabbitMqPublisher K) : Type 0 where
    pub answers : r ≡ ok tt → sent s' ≡ sent s ++ i ∷ []
    pub raises : (e : Exc) → r ≡ err e → sent s' ≡ sent s
    pub valid : IsValid s'

  failed-Tells :
      (i : Text) (s s' : RabbitMqPublisher K) (e : Exc)
      → sent s' ≡ sent s
      → Tells i s (err e) (reset K s').1
  failed-Tells i s s' e same = record {
    answers = λ impossible. cc;
    raises = λ x h. reset-sent s' ∙ same;
    valid = reset-IsValid s';
  }

  pub publish-Tells :
      (t : String) (e : Envelope) (i : Text) (s : RabbitMqPublisher K)
      → IsValid s
      → let (r, s') = publish K t e i s in Tells i s r s'
  unfolding publish
  publish-Tells t e i s v =
      let (kept, opens) = ensure-Prepares s v in
      let s1 = (ensure K s).1 in
      elim (Result-cases (ensure K s).0) [
        | inr (x, raised) ↦ rw raised (failed-Tells i s s1 x kept)
        | inl (x, fine) ↦
            let (c, there, confirming) = opens fine in
            elim (Result-cases (K.basic_publish c events_exchange t e i s1.world).0) [
              | inl (y, returned) ↦
                  rw (fine, there, returned)
                    (record {
                      answers = λ h.
                          L.publish_returns c events_exchange t e i s1.world confirming returned
                          ∙ ap (λ l. l ++ i ∷ []) kept;
                      raises = λ x h. cc;
                      valid = λ d same.
                          let keeps =
                            L.publish_keeps c c events_exchange t e i s1.world confirming in
                          cc;
                    })
              | inr (x, raised) ↦
                  rw (fine, there, raised)
                    (failed-Tells i s
                      (record s1 { world = (K.basic_publish c events_exchange t e i s1.world).1 }) x
                      (L.publish_raises c events_exchange t e i s1.world x confirming raised
                        ∙ kept))
            ]
      ]

  -- A heartbeat never raises and publishes nothing.
  pub heartbeat_lem :
      (s : RabbitMqPublisher K)
      → IsValid s
      → ((heartbeat K s).0 ≡ ok tt) × (sent (heartbeat K s).1 ≡ sent s) × IsValid (heartbeat K s).1
  unfolding heartbeat
  heartbeat_lem s v = elim (Option-cases s.connection) [
    | inl missing ↦ rw missing (refl, refl, v)
    | inr (c, there) ↦ elim (Bool-cases (K.connection_is_open c s.world)) [
      | inr is_closed ↦ rw (there, is_closed) (refl, refl, v)
      | inl is_open ↦
          let s1 : RabbitMqPublisher K = record s { world = (K.process_data_events c s.world).1 } in
          let s2 : RabbitMqPublisher K = record s1 { connection = some c } in
          let kept = L.process_confirms c s.world in
          elim (Result-cases (K.process_data_events c s.world).0) [
            | inl (x, fine) ↦
                rw (there, is_open, fine)
                  (refl, kept, λ d same. L.process_keeps c d s.world (v d same))
            | inr (e, raised) ↦
                rw (there, is_open, raised) (reset-ok s2, reset-sent s2 ∙ kept, reset-IsValid s2)
          ]
    ]
  ]
