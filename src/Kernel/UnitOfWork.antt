-- ===== src/Kernel/UnitOfWork.antt =====
-- libs/py-common/devblog_common/persistence/unit_of_work.py. The session's view of the database is
-- `session`; what is committed is `store`. A store has the tables of one service, its outbox, and
-- the world outside the database that the callbacks after a commit act on.
use myblog.Base.{ℕ, ◌+◌, Text, String, length, nat_eq, number_eq, if◌then◌else◌}
use myblog.Base.{Bool, true, false, Option, none, List, [], ◌∷◌, ◌++◌}
use myblog.Kernel.Errors.{Result, ok, err, integrity_error}
use myblog.Kernel.Events.{Instant, DomainEvent, Envelope, build_envelope}
use myblog.Kernel.Exec.{Exec}

-- persistence/outbox.py, `OutboxMessage`. The JSON text of the payload stands for its envelope.
pub record OutboxMessage : Type 0 where
  pub id : ℕ
  pub event_id : Text
  pub event_type : String
  pub payload : Envelope
  pub occurred_at : Instant
  pub published_at : Option Instant
  pub attempts : ℕ

pub record Store (D W : Type 0) : Type 0 where
  pub db : D
  pub outbox : List OutboxMessage
  pub world : W
  pub correlation_id : Text

-- An aggregate is a mutable object: the first field is its identity, the second its state.
abbrev pub Tracked : Type 0 → Type 0
Tracked A = ℕ × A

-- A callback may raise; the state of the world comes back either way.
abbrev pub Callback : Type 0 → Type 0
Callback W = Exec W (Unit {0})

pub record UnitOfWork (D A W : Type 0) : Type 0 where
  pub store : Store D W
  pub session : D
  pub seen : List (Tracked A)
  pub next_ref : ℕ
  pub after_commit : List (Callback W)

-- The events that an aggregate has recorded, and the aggregate after `pull_events`.
pub record Aggregate (A : Type 0) : Type 0 where
  pub pending : A → List DomainEvent
  pub cleared : A → A

-- What a service gives: its source name, and the constraints that the database checks.
pub record Schema (D : Type 0) : Type 0 where
  pub source : String
  pub constraints : D → Bool

-- `__enter__`
abbrev pub enter : {D A W : Type 0} → Store D W → UnitOfWork D A W
enter s = record { store = s; session = s.db; seen = []; next_ref = 0; after_commit = [] }

abbrev pub is_seen : {A : Type 0} → ℕ → List (Tracked A) → Bool
is_seen r [] = false
is_seen r ((q, _) ∷ seen) = if nat_eq q r then true else is_seen r seen

abbrev pub replace_object : {A : Type 0} → Tracked A → List (Tracked A) → List (Tracked A)
replace_object (r, a) [] = []
replace_object (r, a) ((q, b) ∷ seen) =
    (if nat_eq q r then (r, a) else (q, b)) ∷ replace_object (r, a) seen

module _ {D A W : Type 0} where
  -- A constructor call: a new object.
  abbrev pub new_object : A → Exec (UnitOfWork D A W) (Tracked A)
  new_object a u = (ok (u.next_ref, a), record u { next_ref = u.next_ref + 1 })

  -- `track`: an object that is seen already is not listed twice.
  abbrev pub track : Tracked A → Exec (UnitOfWork D A W) (Unit {0})
  track (r, a) u =
      (ok tt, record u { seen = if is_seen r u.seen then u.seen else u.seen ++ (r, a) ∷ [] })

  -- A method call that changes the object `r`: the list of seen objects holds references, so it
  -- shows the new state.
  abbrev pub mutate : Tracked A → Result A → Exec (UnitOfWork D A W) (Tracked A)
  mutate (r, _) (ok a) u = (ok (r, a), record u { seen = replace_object (r, a) u.seen })
  mutate _ (err e) u = (err e, u)

  -- `on_commit`
  abbrev pub on_commit : Callback W → Exec (UnitOfWork D A W) (Unit {0})
  on_commit cb u = (ok tt, record u { after_commit = u.after_commit ++ cb ∷ [] })

-- The rows for a list of events; the first has the identifier after `last`.
abbrev pub outbox_rows : ℕ → Text → String → List DomainEvent → List OutboxMessage
outbox_rows last correlation_id source [] = []
outbox_rows last correlation_id source (e ∷ events) =
    record {
      id = last + 1;
      event_id = e.event_id;
      event_type = e.name;
      payload = build_envelope correlation_id source e;
      occurred_at = e.occurred_at;
      published_at = none;
      attempts = 0;
    }
    ∷ outbox_rows (last + 1) correlation_id source events

-- The exception of a callback is logged, and the next callback is called.
abbrev pub run_callbacks : {W : Type 0} → List (Callback W) → W → W
run_callbacks [] w = w
run_callbacks (cb ∷ callbacks) w = run_callbacks callbacks (cb w).1

module _ {A : Type 0} ⦃a : Aggregate A⦄ where
  abbrev pub pulled : List (Tracked A) → List DomainEvent
  pulled [] = []
  pulled ((_, x) ∷ seen) = a.pending x ++ pulled seen

  abbrev pub clear_all : List (Tracked A) → List (Tracked A)
  clear_all [] = []
  clear_all ((r, x) ∷ seen) = (r, a.cleared x) ∷ clear_all seen

module _ {D A W : Type 0} ⦃s : Schema D⦄ ⦃a : Aggregate A⦄ where
  -- `commit`: the outbox rows go into the transaction of the session. A violated constraint fails
  -- it, and then nothing is committed and no callback is called. Rows of the outbox are never
  -- deleted, so the last identifier given is their number.
  abbrev pub commit : Exec (UnitOfWork D A W) (Unit {0})
  commit u =
      if s.constraints u.session
      then (
        ok tt,
        record u {
          store = record (u.store) {
            db = u.session;
            outbox =
                u.store.outbox
                ++ outbox_rows (length u.store.outbox) u.store.correlation_id s.source
                    (pulled u.seen);
            world = run_callbacks u.after_commit u.store.world;
          };
          seen = clear_all u.seen;
          after_commit = [];
        },
      )
      else (err integrity_error, record u { seen = clear_all u.seen })

-- `with self._uow() as uow: body`. Leaving the block closes the session: what is not committed is
-- rolled back, and an exception goes on.
abbrev pub with_uow {κ} :
    {D A W : Type 0} {B : Type κ} → Exec (UnitOfWork D A W) B → Exec (Store D W) B
with_uow body s = let (r, u) = body (enter s) in (r, u.store)

-- An action on the world outside the database: it is not part of the transaction.
abbrev pub on_world {κ} : {D W : Type 0} {B : Type κ} → Exec W B → Exec (Store D W) B
on_world m s = let (r, w) = m s.world in (r, record s { world = w })

abbrev pub in_world {κ} : {D A W : Type 0} {B : Type κ} → Exec W B → Exec (UnitOfWork D A W) B
in_world m u =
    let (r, w) = m u.store.world in (r, record u { store = record (u.store) { world = w } })
