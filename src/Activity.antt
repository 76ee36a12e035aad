-- ===== src/Activity.antt =====
-- services/activity-worker/app/handlers.py: what the worker does with each event that any service
-- publishes. The counter of prometheus_client is the list of the labels it was incremented with, and
-- `LogNotifier` the list of what it was told. How Python shows a value of a payload within a text is
-- an argument.
pub mod Every
use myblog.Base.{
  Text, String, Option, none, some, codes, List, [], ◌∷◌, ◌++◌, ◌==◌, string_eq, if◌then◌else◌,
}
use myblog.Kernel.Events
use myblog.Kernel.Events.{Envelope, Payload, Value, payload_or_empty}
use myblog.Kernel.Exec.{Exec, pure, ◌>>◌, modify}
use myblog.Kernel.Redis.{Redis}
use myblog.Kernel.UnitOfWork.{Store}

pub record Labels : Type 0 where
  pub event_type : String
  pub source : String

-- The arguments of `notify`
pub record Notification : Type 0 where
  pub subject : Text
  pub body : Text

pub record Activity : Type 0 where
  pub events_consumed : List Labels
  pub notified : List Notification

-- `envelope.get(key, "unknown")`
abbrev pub or_unknown : Option String → String
or_unknown none = "unknown"
or_unknown (some t) = t

abbrev pub labels_of : Envelope → Labels
labels_of e = record { event_type = or_unknown e.event_type; source = or_unknown e.source }

module _ (R : Redis) (show : Option Value → Text) where
  abbrev pub Method : Type 0 → Type 0
  Method A = Exec (Store Activity R.State) A

  abbrev pub on_activity : (Activity → Activity) → Method (Unit {0})
  on_activity f = modify (λ st. record st { db = f st.db })

  -- `EVENTS_CONSUMED.labels(…).inc()`
  abbrev pub inc : Labels → Method (Unit {0})
  inc l = on_activity (λ a. record a { events_consumed = a.events_consumed ++ (l ∷ []) })

  -- `LogNotifier.notify`
  abbrev pub notify : Text → Text → Method (Unit {0})
  notify subject body =
      on_activity (λ a. record a {
        notified = a.notified ++ (record { subject = subject; body = body } ∷ []);
      })

  abbrev pub shown : String → Payload → Text
  shown key payload = show (Events.get key payload)

  -- The branches on the type of the event
  unfoldable pub tell : String → Payload → Method (Unit {0})
  tell event_type payload =
      if event_type == "comment.created"
      then notify (codes "Moderasyon bekleyen yeni yorum") (
          shown "author_name" payload
          ++ (codes " bir yorum yazdı (post: " ++ (shown "post_id" payload ++ codes ")")))
      else if event_type == "post.published"
      then notify (codes "Yazı yayınlandı") (
          codes "'"
          ++ (shown "title" payload ++ (codes "' yayında: /posts/" ++ shown "slug" payload)))
      else if event_type == "user.logged_in"
      then notify (codes "Yönetim paneline giriş") (
          shown "username" payload ++ (codes " giriş yaptı (" ++ (shown "ip" payload ++ codes ")")))
      else pure tt

  -- `ActivityHandler.__call__`
  unfoldable pub handle_activity : Envelope → Method (Unit {0})
  unfolding tell
  handle_activity e = do inc (labels_of e); tell (or_unknown e.event_type) (payload_or_empty e)
