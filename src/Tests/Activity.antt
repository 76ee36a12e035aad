-- ===== src/Tests/Activity.antt =====
-- The example of the activity worker: a user logs in, and a post is updated.
use myblog.Base.{ℕ, true, Text, Option, some, none, codes, [], ◌∷◌, ◌≡◌, map}
use myblog.Kernel.Errors.{ok}
use myblog.Kernel.Events.{Envelope, Value, str, null}
use myblog.Kernel.UnitOfWork.{Store}
use myblog.Messaging.Consumer.{ack}
use myblog.Activity.{Activity, labels_of}
use myblog.Activity.Every.{activity_lem, deliver, heard, notices_of}
use myblog.Tests.Sample.{counter}
use myblog.Tests.Comments.{post_updated}

abbrev show : Option Value → Text
show (some (str t)) = t
show v = codes "None"

abbrev logged_in : Envelope
logged_in = record {
  event_id = some (codes "e1");
  event_type = some "user.logged_in";
  version = some 1;
  occurred_at = null;
  source = none;
  correlation_id = none;
  payload = some (("username", str (codes "ada")) ∷ []);
}

abbrev queue : Text
queue = codes "activity-worker.all-events"

abbrev idle : Store Activity ℕ
idle = record {
  db = record { events_consumed = []; notified = [] };
  outbox = [];
  world = 0;
  correlation_id = codes "-";
}

activity_lem_example :
    let es = logged_in ∷ post_updated ∷ [] in
    let (r, st') = deliver counter show true queue es idle in
    (r ≡ ok (ack ∷ ack ∷ []))
    × (st'.db.events_consumed ≡ map labels_of (heard counter show true queue es idle))
    × (st'.db.notified ≡ notices_of counter show (heard counter show true queue es idle))
activity_lem_example = activity_lem counter show true queue (logged_in ∷ post_updated ∷ []) idle
