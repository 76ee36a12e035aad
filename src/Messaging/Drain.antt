-- ===== src/Messaging/Drain.antt =====
-- The thread of the relay while the broker answers: the outbox empties.
use myblog.Messaging.Outbox.{
  Publisher, Commit, IsLawful, publish_rows, message_key, publish_pending, pending, published,
  attempted,
}
use myblog.Kernel.Exec.{Exec}
use myblog.Base.{
  ◌≡◌, ℕ, String, Text, List, unique, ◌∷◌, [], true, refl, suc, list_eq, number_eq, string_eq,
  option_eq, take, inl, inr, update_at, ◌∙◌, unique-update_at, Bool-cases, ltb, zero, drop, length,
  if◌then◌else◌, ◌-◌, ◌*◌, ◌≤◌, arith, ◌+◌, ◌++◌, ap, length-zero, length-drop, sym, append-nil,
}
use myblog.Kernel.Events.{Envelope, Instant}
use myblog.Messaging.RelayLoop.{relay_pass, RelayState, Wait, run, interval, at_once}
use myblog.Kernel.Errors.{ok, Result-cases}
use myblog.Kernel.UnitOfWork.{OutboxMessage}
use myblog.Messaging.Relay.{events, relay_lem, event_ids, Repeats, Repeats-refl, Repeats-trans}
use myblog.Messaging.Backoff.{float_exponents}

-- Every call of `publish` and every heartbeat returns.
abbrev pub IsUp : (P : Publisher) → Exec P.State (Unit {0}) → Type 0
IsUp P heartbeat =
    ((t : String) (e : Envelope) (i : Text) (s : P.State) → (P.publish t e i s).0 ≡ ok tt)
    × ((s : P.State) → (heartbeat s).0 ≡ ok tt)

-- A heartbeat publishes nothing.
abbrev pub IsSilent : (P : Publisher) → Exec P.State (Unit {0}) → Type 0
IsSilent P heartbeat = (s : P.State) → P.confirmed (heartbeat s).1 ≡ P.confirmed s

Repeats-more : {a b : ℕ} {l m : List Text} → a ≤ b → Repeats a l m → Repeats b l m
Repeats-more few h = record {
  same_events = h.same_events;
  no_fewer = h.no_fewer;
  few_more = let most = h.few_more in omega (arith, most, few);
}

module _ (P : Publisher) (commit : Commit P) (clock : ℕ → Instant) where
  publish_rows-unique :
      (batch rows : List OutboxMessage) (s : P.State)
      → unique message_key (publish_rows P commit clock batch (rows, s)).1.0
        ≡ unique message_key rows
  unfolding publish_rows
  publish_rows-unique [] rows s = refl
  publish_rows-unique (m ∷ batch) rows s =
      let s' = (P.publish m.event_type m.payload m.event_id s).1 in
      let marked = update_at message_key m.id (published (clock m.id)) rows in
      let counted = update_at message_key m.id attempted rows in
      elim (Result-cases (P.publish m.event_type m.payload m.event_id s).0) [
        | inl (t, sent) ↦ elim (Result-cases (commit marked s')) [
          | inl (t', kept) ↦
              rw (sent, kept)
                (publish_rows-unique batch marked s'
                  ∙ unique-update_at message_key m.id (published (clock m.id)) (λ x. refl) rows)
          | inr (e, rolled_back) ↦ rw (sent, rolled_back) refl
        ]
        | inr (e, lost) ↦ elim (Result-cases (commit counted s')) [
          | inl (t', kept) ↦
              rw (lost, kept) (unique-update_at message_key m.id attempted (λ x. refl) rows)
          | inr (e', rolled_back) ↦ rw (lost, rolled_back) refl
        ]
      ]

  publish_pending-unique :
      (batch_size : ℕ) (rows : List OutboxMessage) (s : P.State)
      → unique message_key (publish_pending P commit clock batch_size (rows, s)).1.0
        ≡ unique message_key rows
  unfolding publish_pending
  publish_pending-unique n rows s =
      let same = publish_rows-unique (take n (pending rows)) rows s in
      elim (Result-cases (publish_rows P commit clock (take n (pending rows)) (rows, s)).0) [
        | inl (t, fine) ↦ rw fine same
        | inr (e, wrong) ↦ rw wrong same
      ]

module _ (P : Publisher) (lawful : IsLawful P) (commit : Commit P)
    (heartbeat : Exec P.State (Unit {0})) (silent : IsSilent P heartbeat) (clock : ℕ → Instant)
    (b : ℕ) (draw : ℕ → ℕ) where
  -- After a pass the table is what `publish_pending` makes of it, and as much is confirmed.
  pass_outbox :
      (f : ℕ) (st : RelayState P)
      → let o = (relay_pass P commit heartbeat clock b f st).1.outbox in
        let made = (publish_pending P commit clock b st.outbox).1 in
        (o.0 ≡ made.0) × (P.confirmed (o.1) ≡ P.confirmed (made.1))
  unfolding relay_pass
  pass_outbox f st =
      let made = (publish_pending P commit clock b st.outbox).1 in
      elim (Result-cases (publish_pending P commit clock b st.outbox).0) [
        | inr (e, wrong) ↦ elim (Bool-cases (ltb st.attempt float_exponents)) [
          | inl few ↦ rw (wrong, few) (refl, refl)
          | inr many ↦ rw (wrong, many) (refl, refl)
        ]
        | inl (n, fine) ↦ elim (Result-cases (heartbeat (made.1)).0) [
          | inl (t, beats) ↦ rw (fine, beats) (refl, silent (made.1))
          | inr (x, stops) ↦ elim (Bool-cases (ltb st.attempt float_exponents)) [
            | inl few ↦ rw (fine, stops, few) (refl, silent (made.1))
            | inr many ↦ rw (fine, stops, many) (refl, silent (made.1))
          ]
        ]
      ]

  -- A pass keeps the sequence of the events that are confirmed or pending, but for one repetition.
  pass_keeps :
      (f : ℕ) (st : RelayState P)
      → unique message_key (st.outbox.0) ≡ true
      → Repeats 1
          (events P st.outbox)
          (events P (relay_pass P commit heartbeat clock b f st).1.outbox)
        × (unique message_key ((relay_pass P commit heartbeat clock b f st).1.outbox.0) ≡ true)
  pass_keeps f st u =
      let (rows_same, confirmed_same) = pass_outbox f st in
      let (kept, k) = relay_lem P lawful commit clock b (st.outbox.0) (st.outbox.1) u in
      (
        rw (rows_same, confirmed_same) kept,
        rw rows_same (publish_pending-unique P commit clock b (st.outbox.0) (st.outbox.1) ∙ u),
      )

  -- The identifiers are unique, the publisher returns when the broker confirms and raises when it
  -- does not, and the heartbeat publishes nothing. However many passes the thread takes, whichever
  -- of them fail, by the publisher, the heartbeat or a commit, and even if it ends: the events that
  -- are confirmed or pending stay the same sequence, where an event that directly follows itself
  -- counts once, and they are as many as before or more by at most one for each pass.
  pub run_keeps_lem :
      (n : ℕ) (st : RelayState P)
      → unique message_key (st.outbox.0) ≡ true
      → Repeats n
          (events P st.outbox)
          (events P (run P commit heartbeat clock b draw n st).1.outbox)
  unfolding run
  run_keeps_lem zero st u = Repeats-refl 0 (events P st.outbox)
  run_keeps_lem (suc n) st u =
      let st' = (relay_pass P commit heartbeat clock b (draw n) st).1 in
      let (kept, u') = pass_keeps (draw n) st u in
      let later = Repeats-more (omega arith) (Repeats-trans kept (run_keeps_lem n st' u')) in
      elim (Result-cases (relay_pass P commit heartbeat clock b (draw n) st).0) [
        | inr (e, ends) ↦ rw ends (Repeats-more (omega arith) kept)
        | inl (w, goes_on) ↦ elim (Result-cases (run P commit heartbeat clock b draw n st').0) [
          | inl (ws, fine) ↦ rw (goes_on, fine) later
          | inr (e, ends) ↦ rw (goes_on, ends) later
        ]
      ]

  module _ (up : IsUp P heartbeat)
      (commits : (rows : List OutboxMessage) (s : P.State) → commit rows s ≡ ok tt) where
    publish_rows-up :
        (batch rows : List OutboxMessage) (s : P.State)
        → (publish_rows P commit clock batch (rows, s)).0 ≡ ok tt
    unfolding publish_rows
    publish_rows-up [] rows s = refl
    publish_rows-up (m ∷ batch) rows s =
        let s' = (P.publish m.event_type m.payload m.event_id s).1 in
        let marked = update_at message_key m.id (published (clock m.id)) rows in
        rw (up.0 m.event_type m.payload m.event_id s, commits marked s')
          (publish_rows-up batch marked s')

    publish_pending-up :
        (rows : List OutboxMessage) (s : P.State)
        → (publish_pending P commit clock b (rows, s)).0 ≡ ok (length (take b (pending rows)))
    unfolding publish_pending
    publish_pending-up rows s = rw (publish_rows-up (take b (pending rows)) rows s) refl

    pass_ok :
        (f : ℕ) (st : RelayState P)
        → (w : Wait) × ((relay_pass P commit heartbeat clock b f st).0 ≡ ok w)
    unfolding relay_pass
    pass_ok f st =
        let n = length (take b (pending (st.outbox.0))) in
        (
          if ltb n b then interval else at_once,
          rw
              (
                publish_pending-up (st.outbox.0) (st.outbox.1),
                up.1 ((publish_pending P commit clock b st.outbox).1.1),
              )
              refl,
        )

    -- A pass publishes the first rows of a batch, and repeats none.
    pass_drains :
        (f : ℕ) (st : RelayState P)
        → unique message_key (st.outbox.0) ≡ true
        → let o = (relay_pass P commit heartbeat clock b f st).1.outbox in
          (events P o ≡ events P st.outbox) × (pending (o.0) ≡ drop b (pending (st.outbox.0)))
    pass_drains f st u =
        let (same, drained) =
          (relay_lem P lawful commit clock b (st.outbox.0) (st.outbox.1) u).1
            (length (take b (pending (st.outbox.0))))
            (publish_pending-up (st.outbox.0) (st.outbox.1)) in
        let (rows_same, confirmed_same) = pass_outbox f st in
        (rw (rows_same, confirmed_same) same, rw rows_same drained)

    run_drains :
        (n : ℕ) (st : RelayState P)
        → unique message_key (st.outbox.0) ≡ true
        → let (r, st') = run P commit heartbeat clock b draw n st in
          ((ws : List Wait) × (r ≡ ok ws))
          × (length (pending (st'.outbox.0)) ≡ length (pending (st.outbox.0)) - n * b)
          × (events P st'.outbox ≡ events P st.outbox)
    unfolding run
    run_drains zero st u = (([], refl), omega arith, refl)
    run_drains (suc n) st u =
        let (w, fine) = pass_ok (draw n) st in
        let (same, drained) = pass_drains (draw n) st u in
        let ((ws, rest), less, all) =
          run_drains n (relay_pass P commit heartbeat clock b (draw n) st).1
            (pass_keeps (draw n) st u).1 in
        let more : suc n * b ≡ n * b + b = omega arith in
        let first =
          ap (λ (l : List OutboxMessage). length l) drained
          ∙ length-drop b (pending (st.outbox.0)) in
        (
          (w ∷ ws, rw (fine, rest) refl),
          rw (fine, rest) (omega (arith, less, first, more)),
          rw (fine, rest) (all ∙ same),
        )

    -- The identifiers are unique, the publisher returns when the broker confirms, and the heartbeat
    -- publishes nothing. Where both always return and no commit fails, a relay whose batches are not empty publishes
    -- every event: after `n` passes with `n * batch_size` not less than the number of pending rows,
    -- the thread runs on, nothing is pending and what the broker confirmed is what it had confirmed
    -- before, followed by the pending events in their order.
    pub drain_lem :
        (n : ℕ) (st : RelayState P)
        → unique message_key (st.outbox.0) ≡ true
        → length (pending (st.outbox.0)) ≤ n * b
        → let (r, st') = run P commit heartbeat clock b draw n st in
          ((ws : List Wait) × (r ≡ ok ws))
          × (pending (st'.outbox.0) ≡ [])
          × (P.confirmed (st'.outbox.1)
              ≡ P.confirmed (st.outbox.1) ++ event_ids (pending (st.outbox.0)))
    drain_lem n st u enough =
        let st' = (run P commit heartbeat clock b draw n st).1 in
        let (fine, left, kept) = run_drains n st u in
        let empty = length-zero (pending (st'.outbox.0)) (omega (arith, left, enough)) in
        (
          fine,
          empty,
          sym (append-nil (P.confirmed (st'.outbox.1)))
              ∙ ap (λ l. P.confirmed (st'.outbox.1) ++ event_ids l) (sym empty)
              ∙ kept,
        )
