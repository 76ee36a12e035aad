-- ===== src/Tests/Messaging.antt =====
-- The examples of the relay.
use myblog.Base.{
  ℕ, String, List, arith, Text, [], codes, some, if◌then◌else◌, ◌∷◌, ◌≡◌, ◌==◌, none, drop, ◌++◌,
  list_eq, number_eq, string_eq, option_eq, refl,
}
use myblog.Messaging.Outbox.{publish_pending, publish_rows, Publisher, IsLawful, pending}
use myblog.Kernel.UnitOfWork.{OutboxMessage}
use myblog.Kernel.Events.{Envelope, null}
use myblog.Messaging.Relay.{events, relay_lem, Repeats}
use myblog.Kernel.Exec.{Exec}
use myblog.Kernel.Errors.{ok, err, connection_error, database_error, Result}

-- A broker that confirms every message but those of one type.
abbrev log_publish : String → Envelope → Text → Exec (List Text) (Unit {0})
log_publish t e i s = if t == "bad" then (err connection_error, s) else (ok tt, s ++ i ∷ [])

abbrev log_broker : Publisher
log_broker = record { State = List Text; publish = log_publish; confirmed = λ s. s }

log_broker-IsLawful : IsLawful log_broker
log_broker-IsLawful = record {
  returns = λ t e i s h. ground arith;
  raises = λ t e i s x h. ground arith;
}

abbrev pub message : ℕ → Text → String → OutboxMessage
message n i t = record {
  id = n;
  event_id = i;
  event_type = t;
  payload = record {
    event_id = some i;
    event_type = some t;
    version = some 1;
    occurred_at = null;
    source = none;
    correlation_id = none;
    payload = none;
  };
  occurred_at = 0;
  published_at = none;
  attempts = 0;
}

abbrev waiting : List OutboxMessage
waiting = message 1 (codes "e1") "good" ∷ message 2 (codes "e2") "bad" ∷ []

-- A database that takes no commit once a message is confirmed.
abbrev pub fails_later : List OutboxMessage → List Text → Result (Unit {0})
fails_later rows [] = ok tt
fails_later rows (i ∷ s) = err database_error

relay_lem_example :
    let (r, st) = publish_pending log_broker fails_later (λ n. n) 100 (waiting, []) in
    Repeats 1 (events log_broker (waiting, [])) (events log_broker st)
    × ((k : ℕ)
        → r ≡ ok k
        → (events log_broker st ≡ events log_broker (waiting, []))
          × (pending (st.0) ≡ drop 100 (pending waiting)))
unfolding number_eq
relay_lem_example =
    relay_lem log_broker log_broker-IsLawful fails_later (λ n. n) 100 waiting [] refl

-- The first event is confirmed and still pending.
repeated :
    events log_broker (publish_pending log_broker fails_later (λ n. n) 100 (waiting, [])).1
    ≡ codes "e1" ∷ codes "e1" ∷ codes "e2" ∷ []
unfolding publish_pending publish_rows number_eq string_eq
repeated = refl
