-- ===== src/Tests/RelayLoop.antt =====
-- The examples of the relay's thread and of the topology.
use myblog.Messaging.RelayLoop.{run, Wait}
use myblog.Base.{
  List, number_eq, [], ◌==◌, Text, ◌||◌, ◌≡◌, codes, ℕ, ◌++◌, list_eq, string_eq, option_eq, ◌∷◌,
  refl, some, arith, true, String, false, subst,
}
use myblog.Messaging.Outbox.{Publisher}
use myblog.Messaging.Topology.{reaches, Topic, declare_topology, events_exchange, is_plain}
use myblog.Kernel.UnitOfWork.{OutboxMessage}
use myblog.Messaging.Outbox.{pending, IsLawful}
use myblog.Messaging.Relay.{events, event_ids, Repeats}
use myblog.Tests.Messaging.{message, fails_later}
use myblog.Kernel.Errors.{ok, err, Result, connection_error}
use myblog.Messaging.Drain.{run_keeps_lem, drain_lem}
use myblog.Posts.Handlers.{is_count_event}
use myblog.Comments.Handlers.{is_post_change}
use myblog.Messaging.Routing.{routing_lem}

-- A broker that confirms every message, and one that is away.
abbrev open_broker : Publisher
open_broker = record {
  State = List Text;
  publish = λ t e i s. (ok tt, s ++ i ∷ []);
  confirmed = λ s. s;
}

abbrev no_broker : Publisher
no_broker = record {
  State = List Text;
  publish = λ t e i s. (err connection_error, s);
  confirmed = λ s. s;
}

open_broker-IsLawful : IsLawful open_broker
open_broker-IsLawful = record { returns = λ t e i s h. refl; raises = λ t e i s x h. cc }

abbrev silence : List Text → Result (Unit {0}) × List Text
silence s = (ok tt, s)

abbrev two_waiting : List OutboxMessage
two_waiting = message 1 (codes "e1") "good" ∷ message 2 (codes "e2") "bad" ∷ []

abbrev commits : List OutboxMessage → List Text → Result (Unit {0})
commits rows s = ok tt

-- The jitter of every delay
abbrev draw : ℕ → ℕ
draw n = 1100000000

-- In batches of one, two passes publish two events.
drain_lem_example :
    let (r, st') =
      run open_broker commits silence
        (λ n. n)
        1
        draw
        2
        (record { attempt = 3; outbox = (two_waiting, []) }) in
    ((ws : List Wait) × (r ≡ ok ws))
    × (pending (st'.outbox.0) ≡ [])
    × (st'.outbox.1 ≡ [] ++ event_ids (pending two_waiting))
unfolding number_eq
drain_lem_example =
    drain_lem open_broker open_broker-IsLawful commits silence (λ s. refl) (λ n. n) 1 draw
      ((λ t e i s. refl), (λ s. refl)) (λ rows s. refl) 2
      (record { attempt = 3; outbox = (two_waiting, []) }) refl (omega arith)

-- A database that takes no commit once a message is confirmed: the first event is repeated.
run_keeps_lem_example : Repeats 5 (events open_broker (two_waiting, [])) (
    events open_broker
      (run open_broker fails_later silence
        (λ n. n)
        100
        draw
        5
        (record { attempt = 0; outbox = (two_waiting, []) })).1.outbox)
unfolding number_eq
run_keeps_lem_example =
    run_keeps_lem open_broker open_broker-IsLawful fails_later silence (λ s. refl) (λ n. n) 100 draw
      5 (record { attempt = 0; outbox = (two_waiting, []) }) refl

abbrev hash : String
hash = "#"

topic_hash : (key : String) → (hash == hash || key == hash) ≡ true
unfolding string_eq
topic_hash key = refl

topic_plain :
    (pattern key : String)
    → is_plain (codes pattern) ≡ true
    → (pattern == hash || key == pattern) ≡ (key == pattern)
unfolding number_eq
topic_plain pattern key h = elim (string_eq.dec pattern hash) [
  | yes same ↦ let bad : false ≡ true = subst (λ t. is_plain (codes t) ≡ true) same h in cc
  | no other ↦ ground arith
]

-- Patterns without wildcards, and the one for all keys.
abbrev topic : Topic
topic = record {
  matches = λ pattern key. pattern == hash || key == pattern;
  hash = topic_hash;
  plain = topic_plain;
}

abbrev updated : String
updated = "post.updated"

routing_lem_example :
    (reaches topic declare_topology events_exchange updated (codes "post-service.comment-events")
      ≡ is_count_event (some updated))
    × (reaches topic declare_topology events_exchange updated (codes "comment-service.post-events")
        ≡ (is_post_change (some updated) || updated == "post.deleted"))
    × (reaches topic declare_topology events_exchange updated (codes "activity-worker.all-events")
        ≡ true)
routing_lem_example = routing_lem topic updated
