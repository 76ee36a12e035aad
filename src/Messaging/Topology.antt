-- ===== src/Messaging/Topology.antt =====
-- libs/py-common/devblog_common/messaging/topology.py: the exchanges and queues, and what the
-- services that consume from them want.
use myblog.Base.{
  List, String, ℕ, Text, Option, ◌∷◌, codes, Bool, [], ◌++◌, true, ◌≡◌, false, none, some, not,
  ◌==◌, ◌&&◌, list_eq, number_eq, string_eq, option_eq, ◌||◌,
}

-- The calls on a channel. A queue is declared with the exchange and the key of its dead letters, if
-- it has any. Every exchange is a durable topic exchange, every queue a durable quorum queue.
pub data Call : Type 0 where
  exchange_declare : String → Call
  queue_declare : Text → Option (String × String × ℕ) → Call
  queue_bind : Text → String → String → Call

abbrev pub events_exchange : String
events_exchange = "devblog.events"

abbrev pub dead_letter_exchange : String
dead_letter_exchange = "devblog.events.dlx"

abbrev pub delivery_limit : ℕ
delivery_limit = 5

-- `QUEUES`
abbrev pub queues : List (String × List String)
queues =
    (
      "post-service.comment-events",
      "comment.approved" ∷ "comment.rejected" ∷ "comment.deleted" ∷ [],
    )
    ∷ (
      "comment-service.post-events",
      "post.published" ∷ "post.updated" ∷ "post.unpublished" ∷ "post.deleted" ∷ [],
    )
    ∷ ("activity-worker.all-events", "#" ∷ [])
    ∷ []

abbrev pub dlq_of : String → Text
dlq_of queue = codes queue ++ codes ".dlq"

abbrev pub bindings : Text → List String → List Call
bindings queue [] = []
bindings queue (key ∷ keys) = queue_bind queue events_exchange key ∷ bindings queue keys

abbrev pub declare_queues : List (String × List String) → List Call
declare_queues [] = []
declare_queues ((queue, keys) ∷ rest) =
    queue_declare (dlq_of queue) none
    ∷ queue_bind (dlq_of queue) dead_letter_exchange queue
    ∷ queue_declare (codes queue) (some (dead_letter_exchange, queue, delivery_limit))
    ∷ (bindings (codes queue) keys ++ declare_queues rest)

abbrev pub declare_topology : List Call
declare_topology =
    exchange_declare events_exchange ∷ exchange_declare dead_letter_exchange ∷ declare_queues queues

-- A pattern of one or more words, without wildcards.
abbrev pub is_plain : Text → Bool
is_plain [] = true
is_plain (c ∷ t) = not (c == b'#') && (not (c == b'*') && is_plain t)

-- How a topic exchange compares the key of a binding with the routing key of a message.
pub record Topic : Type 0 where
  pub matches : String → String → Bool
  pub hash : (key : String) → matches "#" key ≡ true
  pub plain :
      (pattern key : String)
      → is_plain (codes pattern) ≡ true
      → matches pattern key ≡ (key == pattern)

-- A message to the exchange with the key reaches the queue.
abbrev pub reaches : Topic → List Call → String → String → Text → Bool
reaches T [] exchange key queue = false
reaches T (queue_bind q x pattern ∷ calls) exchange key queue =
    (q == queue && (x == exchange && T.matches pattern key)) || reaches T calls exchange key queue
reaches T (exchange_declare x ∷ calls) exchange key queue = reaches T calls exchange key queue
reaches T (queue_declare q d ∷ calls) exchange key queue = reaches T calls exchange key queue
