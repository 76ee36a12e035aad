-- ===== src/Web/Middleware.antt =====
-- libs/py-common/devblog_common/web/middleware.py: what every request to a service passes through.
-- The application behind it is a sequence of messages to the server; it is told how the server
-- answers each of them. A message or a header is a text of bytes.
pub mod Echo
use myblog.Base.{
  ℕ, Text, Bool, Option, some, none, List, [], ◌∷◌, ◌++◌, ◌==◌, codes, list_eq, number_eq,
  if◌then◌else◌, ◌||◌, nat_eq, ◌&&◌, true, false,
}
use myblog.Base.Python.{or_text, starts_with}
use myblog.Kernel.Errors.{Result, Exc, ok, err}
use myblog.Kernel.Exec.{Exec}
use myblog.Web.Correlation.{chosen}
use myblog.Web.Security.{or_default}

abbrev pub Headers : Type 0
Headers = List (Text × Text)

-- `http.response.start`, and messages of any other type
pub data Message : Type 0 where
  response_start : ℕ → Headers → Message
  other_message : Text → Message

pub data App : Type 0 where
  returns : App
  raises : Exc → App
  sends : Message → (Result (Unit {0}) → App) → App

pub record Request : Type 0 where
  pub headers : Headers
  pub path : Text

-- The type of the scope
pub data Scope : Type 0 where
  http : Request → Scope
  not_http : Scope

-- What the access log says of a request
pub record Entry : Type 0 where
  pub path : Text
  pub status : ℕ

-- The context variable, the messages that the server was handed, and the access log
pub record Serving : Type 0 where
  pub correlation_id : Text
  pub handed : List Message
  pub log : List Entry

-- While a request is handled: the status in `status_holder`
pub record Handling : Type 0 where
  pub serving : Serving
  pub status : ℕ

-- `dict(headers).get(key)`: the last value of a name counts.
abbrev pub header : Text → Headers → Option Text
header key [] = none
header key ((name, value) ∷ headers) = elim (header key headers) [
  | some later ↦ some later
  | none ↦ if name == key then some value else none
]

abbrev pub request_id : Text
request_id = codes "x-request-id"

abbrev pub incoming : Headers → Text
incoming headers =
    or_text (or_default (header request_id headers) [])
      (or_default (header (codes "x-correlation-id") headers) [])

-- `path.startswith(_SKIP)`
abbrev pub is_skipped : Text → Bool
is_skipped path = starts_with (codes "/health") path || starts_with (codes "/metrics") path

abbrev pub tagged : Text → Message → Message
tagged cid (response_start status headers) =
    response_start status (headers ++ ((request_id, cid) ∷ []))
tagged cid (other_message t) = other_message t

abbrev pub status_after : Message → ℕ → ℕ
status_after (response_start status headers) before = status
status_after (other_message t) before = before

-- The application, with what it sends by
abbrev pub run_app : {S : Type 0} → (Message → Exec S (Unit {0})) → App → Exec S (Unit {0})
run_app send returns s = (ok tt, s)
run_app send (raises e) s = (err e, s)
run_app send (sends m next) s = let (r, s') = send m s in run_app send (next r) s'

abbrev pub logged : Text → ℕ → List Entry
logged path status = if is_skipped path then [] else record { path = path; status = status } ∷ []

-- The server answers a message by what it has been handed.
module _ (server : List Message → Result (Unit {0})) where
  abbrev pub hand : Message → Exec Serving (Unit {0})
  hand m s = let all = s.handed ++ (m ∷ []) in (server all, record s { handed = all })

  -- `send_wrapper`
  unfoldable pub send_wrapper : Text → Message → Exec Handling (Unit {0})
  send_wrapper cid m h =
      let (r, s) = hand (tagged cid m) h.serving in
      (r, record { serving = s; status = status_after m h.status })

  -- `__call__`; the lines under `finally` run whether the application raises or not. The
  -- application reads the context variable.
  unfoldable pub call : Text → (Text → App) → Scope → Exec Serving (Unit {0})
  unfolding send_wrapper
  call fresh app not_http s = run_app hand (app s.correlation_id) s
  call fresh app (http q) s =
      let cid = chosen fresh (incoming q.headers) in
      let (r, h) =
        run_app (send_wrapper cid) (app cid)
          (record { serving = record s { correlation_id = cid }; status = 500 }) in
      (
        r,
        record h.serving {
          correlation_id = s.correlation_id;
          log = h.serving.log ++ logged q.path h.status;
        },
      )
