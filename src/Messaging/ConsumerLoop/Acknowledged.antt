-- ===== src/Messaging/ConsumerLoop/Acknowledged.antt =====
-- What a consumer does with one message, and what it acknowledges.
use myblog.Base.{
  ℕ, Text, Bool, true, false, List, [], ◌∷◌, ◌++◌, ◌≡◌, ◌⊎◌, inl, inr, All, All-append, refl, arith,
  sym, ◌∙◌, append-nil, append_assoc, ap, subst,
}
use myblog.Kernel.Exec.{Exec}
use myblog.Kernel.Errors.{Result-cases, ok, err, Result, Exc}
use myblog.Kernel.Events.{Envelope}
use myblog.Kernel.Redis.{Redis}
use myblog.Kernel.Steps.{Keeps}
use myblog.Kernel.UnitOfWork.{Store}
use myblog.Messaging.Topology.{Call}
use myblog.Messaging.Publisher.{Pika}
use myblog.Messaging.Consumer.{
  Body, Answer, ack, dead_letter, requeue, on_message, attempt, handle_new, already_processed,
  event_id_of, not_json, other_json, object,
}
use myblog.Messaging.ConsumerLoop.{pika, Consuming, ConsumerState, on_delivery, answer}

-- What pika documents: the deliveries that this client has acknowledged, in their order. Only
-- `basic_ack` acknowledges; a call that raises may have been carried out.
pub record Acks (K : Pika) (C : Consuming K) : Type 0 where
  pub acked : K.World → List C.Delivery
  pub ack_acks :
      (c : K.Channel) (d : C.Delivery) (w : K.World)
      → (acked (C.basic_ack c d w).1 ≡ acked w ++ d ∷ []) ⊎ (acked (C.basic_ack c d w).1 ≡ acked w)
  pub nack_acks :
      (c : K.Channel) (d : C.Delivery) (again : Bool) (w : K.World)
      → acked (C.basic_nack c d again w).1 ≡ acked w
  pub next_acks : (c : K.Channel) (w : K.World) → acked (C.next c w).1 ≡ acked w
  pub qos_acks : (c : K.Channel) (n : ℕ) (w : K.World) → acked (C.basic_qos c n w).1 ≡ acked w
  pub consume_acks :
      (c : K.Channel) (q : Text) (w : K.World) → acked (C.basic_consume c q w).1 ≡ acked w
  pub connect_acks : (w : K.World) → acked (K.connect w).1 ≡ acked w
  pub channel_acks : (c : K.Connection) (w : K.World) → acked (K.channel c w).1 ≡ acked w
  pub declare_acks :
      (c : K.Channel) (call : Call) (w : K.World) → acked (K.declare c call w).1 ≡ acked w
  pub close_acks : (c : K.Connection) (w : K.World) → acked (K.close c w).1 ≡ acked w

module _ (R : Redis) (with_redis : Bool) (queue : Text) (prefetch : ℕ) {D : Type 0}
    (handle : Envelope → Exec (Store D R.State) (Unit {0})) (K : Pika) (C : Consuming K)
    (L : Acks K C) where
  abbrev pub State : Type 0
  State = ConsumerState K (Store D R.State)

  -- The stores that messages lead to, one after the other.
  pub data Reach (first : Store D R.State) : Store D R.State → Type 0 where
    start : Reach first first
    after :
        {t : Store D R.State}
        → Reach first t
        → (d : C.Delivery) → Reach first (on_message R with_redis queue handle (C.body d) t).1

  Reach-trans : {s t u : Store D R.State} → Reach s t → Reach t u → Reach s u
  Reach-trans p start = p
  Reach-trans p (after q d) = after (Reach-trans p q) d

  -- The message was an event that Redis told to be processed already, or that the handler took
  -- without an exception, in a store that messages led to.
  pub record Settled (first : Store D R.State) (d : C.Delivery) : Type 0 where
    pub event : Envelope
    pub is_event : C.body d ≡ object event
    pub store : Store D R.State
    pub reached : Reach first store
    pub reason :
        ((already_processed R with_redis queue handle (event_id_of event) store).0 ≡ ok true)
        ⊎ ((handle event
              (already_processed R with_redis queue handle (event_id_of event) store).1).0
            ≡ ok tt)

  -- What was acknowledged on the way is settled.
  pub record Sound (s t : State) : Type 0 where
    pub newly : List C.Delivery
    pub acks : L.acked t.world ≡ L.acked s.world ++ newly
    pub settled : All (Settled s.store) newly
    pub reach : Reach s.store t.store

  later-Settled :
      (s t : Store D R.State)
      → Reach s t
      → (ds : List C.Delivery) → All (Settled t) ds
      → All (Settled s) ds
  later-Settled s t p [] h = tt
  later-Settled s t p (d ∷ ds) (x, h) = (
    record {
      event = x.event;
      is_event = x.is_event;
      store = x.store;
      reached = Reach-trans p x.reached;
      reason = x.reason;
    },
    later-Settled s t p ds h,
  )

  pub Sound-trans : (s t u : State) → Sound s t → Sound t u → Sound s u
  Sound-trans s t u p q = record {
    newly = p.newly ++ q.newly;
    acks = q.acks ∙ ap (λ l. l ++ q.newly) p.acks ∙ append_assoc (L.acked s.world) p.newly q.newly;
    settled =
        All-append (Settled s.store) p.newly q.newly p.settled
          (later-Settled s.store t.store p.reach q.newly q.settled);
    reach = Reach-trans p.reach q.reach;
  }

  -- Nothing is acknowledged, and the store is the same.
  pub quiet-Sound :
      (s t : State) → L.acked t.world ≡ L.acked s.world → Reach s.store t.store → Sound s t
  quiet-Sound s t same p = record {
    newly = [];
    acks = same ∙ sym (append-nil (L.acked s.world));
    settled = tt;
    reach = p;
  }

  pub pika-Sound :
      {A : Type 0} (m : Exec K.World A)
      → ((w : K.World) → L.acked (m w).1 ≡ L.acked w)
      → Keeps Sound (pika R with_redis queue prefetch handle K C m)
  pika-Sound m same = record {
    kept =
        λ s. quiet-Sound s (pika R with_redis queue prefetch handle K C m s).1 (same s.world) start;
  }

  Settles : Body → Store D R.State → Type 0
  Settles b t =
      (e : Envelope) × (b ≡ object e)
      × (((already_processed R with_redis queue handle (event_id_of e) t).0 ≡ ok true)
          ⊎ ((handle e (already_processed R with_redis queue handle (event_id_of e) t).1).0
              ≡ ok tt))

  on_message-ack :
      (b : Body) (t : Store D R.State)
      → (on_message R with_redis queue handle b t).0 ≡ ok ack
      → Settles b t
  unfolding on_message attempt handle_new Settles
  on_message-ack not_json t h = cc
  on_message-ack other_json t h = cc
  on_message-ack (object e) t h =
      let t1 = (already_processed R with_redis queue handle (event_id_of e) t).1 in
      elim (Result-cases (already_processed R with_redis queue handle (event_id_of e) t).0) [
        | inr (x, raised) ↦ let bad = rw raised at h in cc
        | inl (true, seen) ↦ (e, refl, inl seen)
        | inl (false, new) ↦ elim (Result-cases (handle e t1).0) [
          | inl (u, fine) ↦ (e, refl, inr fine)
          | inr (x, raised) ↦ let bad = rw (new, raised) at h in cc
        ]
      ]

  abbrev told : C.Delivery → Store D R.State → Result Answer × Store D R.State
  told d t = on_message R with_redis queue handle (C.body d) t

  abbrev answered : K.Channel → C.Delivery → Answer → State → State
  answered c d a s = (answer R with_redis queue prefetch handle K C c d a s).1

  nacked-Sound :
      (c : K.Channel) (d : C.Delivery) (again : Bool) (s t : State)
      → L.acked t.world ≡ L.acked s.world
      → Reach s.store t.store
      → Sound s (record t { world = (C.basic_nack c d again t.world).1 })
  nacked-Sound c d again s t same p =
      quiet-Sound s (record t { world = (C.basic_nack c d again t.world).1 })
        (L.nack_acks c d again t.world ∙ same) p

  acked_state :
      (c : K.Channel) (d : C.Delivery) (t : State) (x : Unit {0})
      → (C.basic_ack c d t.world).0 ≡ ok x
      → answered c d ack t ≡ record t { world = (C.basic_ack c d t.world).1 }
  acked_state c d t x h = ground arith

  unacked_state :
      (c : K.Channel) (d : C.Delivery) (t : State) (x : Exc)
      → (C.basic_ack c d t.world).0 ≡ err x
      → answered c d ack t
        ≡ record t { world = (C.basic_nack c d true (C.basic_ack c d t.world).1).1 }
  unacked_state c d t x h = ground arith

  -- The store after a message, and what is acknowledged once the answer is `ack`.
  ack-Sound :
      (c : K.Channel) (d : C.Delivery) (s : State)
      → (told d s.store).0 ≡ ok ack
      → Sound s (answered c d ack (record s { store = (told d s.store).1 }))
  unfolding Settles
  ack-Sound c d s h =
      let t : State = record s { store = (told d s.store).1 } in
      let u : State = record t { world = (C.basic_ack c d t.world).1 } in
      let (e, is_e, why) = on_message-ack (C.body d) s.store h in
      let done : Settled s.store d = record {
        event = e;
        is_event = is_e;
        store = s.store;
        reached = start;
        reason = why;
      } in
      let p : Reach s.store t.store = after start d in
      let whole : Sound s u = elim (L.ack_acks c d t.world) [
        | inl carried ↦ record { newly = d ∷ []; acks = carried; settled = (done, tt); reach = p }
        | inr lost ↦ quiet-Sound s u lost p
      ] in
      let v : State = record u { world = (C.basic_nack c d true u.world).1 } in
      elim (Result-cases (C.basic_ack c d t.world).0) [
        | inl (x, fine) ↦ subst (Sound s) (sym (acked_state c d t x fine)) whole
        | inr (x, raised) ↦
            subst (Sound s) (sym (unacked_state c d t x raised))
              (Sound-trans s u v whole (nacked-Sound c d true u u refl start))
      ]

  pub on_delivery-Sound :
      (c : K.Channel) (d : C.Delivery)
      → Keeps Sound (on_delivery R with_redis queue prefetch handle K C c d)
  unfolding on_delivery
  on_delivery-Sound c d = record {
    kept = λ s.
        let t : State = record s { store = (told d s.store).1 } in
        let p : Reach s.store t.store = after start d in
        elim (Result-cases (told d s.store).0) [
          | inr (x, raised) ↦ rw raised (quiet-Sound s t refl p)
          | inl (ack, h) ↦ rw h (ack-Sound c d s h)
          | inl (dead_letter, h) ↦ rw h (nacked-Sound c d false s t refl p)
          | inl (requeue, h) ↦ rw h (nacked-Sound c d true s t refl p)
        ];
  }
