-- ===== src/Kernel/Events.antt =====
-- libs/py-common/devblog_common/domain.py (`DomainEvent`, `AggregateRoot`), clock.py (`to_iso_z`)
-- and messaging/envelope.py. An instant is a number of microseconds in UTC.
use myblog.Base.{ℕ, ◌/◌, Text, String, ◌==◌, string_eq, if◌then◌else◌}
use myblog.Base.{Option, none, some, List, [], ◌∷◌, ◌++◌}
use myblog.Base.Int.{ℤ}
use myblog.Kernel.Errors.{Result, ok, err, value_error, key_error}

abbrev pub Instant : Type 0
Instant = ℕ

-- The JSON values that events carry. `iso` is an instant cut to seconds and written in ISO 8601.
pub data Value : Type 0 where
  null : Value
  str : Text → Value
  num : ℤ → Value
  iso : ℕ → Value
  strs : List Text → Value

-- `to_iso_z`: the text has whole seconds.
abbrev pub to_iso_z : Option Instant → Value
to_iso_z none = null
to_iso_z (some t) = iso (t / 1000000)

abbrev pub Payload : Type 0
Payload = List (String × Value)

-- `payload.get(key)`
unfoldable pub get : String → Payload → Option Value
get k [] = none
get k ((j, v) ∷ p) = if j == k then some v else get k p

pub record DomainEvent : Type 0 where
  pub name : String
  pub payload : Payload
  pub event_id : Text
  pub occurred_at : Instant
  pub version : ℕ

-- What the default factories of one call give: the clock, and fresh identifiers.
pub record Stamp : Type 0 where
  pub now : Instant
  pub new_id : Text
  pub event_id : Text

-- `AggregateRoot.record_event`, on the list of pending events.
abbrev pub record_event : Stamp → String → Payload → List DomainEvent → List DomainEvent
record_event s name payload pending =
    pending
    ++ record {
      name = name;
      payload = payload;
      event_id = s.event_id;
      occurred_at = s.now;
      version = 1;
    }
      ∷ []

-- The envelope is a dict, which a consumer reads by `get`; so each entry may be missing.
pub record Envelope : Type 0 where
  pub event_id : Option Text
  pub event_type : Option String
  pub version : Option ℕ
  pub occurred_at : Value
  pub source : Option String
  pub correlation_id : Option Text
  pub payload : Option Payload

-- `build_envelope`; the context variable with the correlation id is an argument.
abbrev pub build_envelope : Text → String → DomainEvent → Envelope
build_envelope correlation_id source e = record {
  event_id = some e.event_id;
  event_type = some e.name;
  version = some e.version;
  occurred_at = to_iso_z (some e.occurred_at);
  source = some source;
  correlation_id = some correlation_id;
  payload = some e.payload;
}

-- `envelope.get("payload") or {}`
abbrev pub payload_or_empty : Envelope → Payload
payload_or_empty e = elim e.payload [ none ↦ [] | some p ↦ p ]

-- `payload[key]` where a text is wanted. The database driver refuses a value of another type.
text_of : Option Value → Result Text
text_of none = err key_error
text_of (some (str t)) = ok t
text_of (some v) = err value_error

unfoldable pub text_at : String → Payload → Result Text
unfolding get text_of
text_at k p = text_of (get k p)

-- `payload.get(key, "")`
text_or_empty_of : Option Value → Result Text
text_or_empty_of none = ok []
text_or_empty_of (some (str t)) = ok t
text_or_empty_of (some v) = err value_error

unfoldable pub text_or_empty : String → Payload → Result Text
unfolding get text_or_empty_of
text_or_empty k p = text_or_empty_of (get k p)
