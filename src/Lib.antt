-- ===== src/Lib.antt =====
-- The back end of a blog: three services over a common library, written in Python.
-- identity-service keeps users and refresh tokens, post-service keeps posts and categories,
-- comment-service keeps comments and what it knows of the posts. Each service handles a command
-- in a transaction; the events that its aggregates record are put into an outbox table in the
-- same transaction, a relay hands them to a message broker, and the consumers of other services
-- act on them.
--
-- - Base: what Python and SQL give the code: texts as lists of code points, tables as lists of
--   rows, integers, regular expressions of one line.
-- - Kernel: libs/py-common/devblog_common. Errors (domain.py), Events (domain.py, clock.py,
--   messaging/envelope.py), UnitOfWork (persistence/unit_of_work.py, persistence/outbox.py),
--   Exec (methods that change a state and may raise), Steps (what methods one after the other
--   keep), Redis (the client library, a parameter), Database (persistence/database.py,
--   `ensure_database`).
-- - Web: libs/py-common/devblog_common/web, security.py, errors.py (Errors has the status codes,
--   Problems the answers) and middleware.py, and Correlation (correlation.py); Guards is
--   app/api/dependencies.py of post-service and comment-service.
-- - Cache: libs/py-common/devblog_common/cache.py. Keys and Calls are lemmas on its keys and
--   calls; Fresh has the steps of readers and writers of one cached value, in any interleaving.
-- - Messaging: libs/py-common/devblog_common/persistence/outbox.py, as Outbox
--   (`publish_pending`) and RelayLoop (`_run`); backoff.py; messaging/topology.py;
--   messaging/publisher.py; messaging/consumer.py, as Consumer (`_on_message`) and ConsumerLoop
--   (`run_forever`).
-- - Posts: services/post-service/app. Slug (domain/value_objects.py), Domain (domain/post.py),
--   Repository (infrastructure/persistence), Handlers (application), UniqueSlug (the loop of `_unique_slug`), ReadModel
--   (infrastructure/persistence/read_model.py), Queries (application/queries/handlers.py and
--   infrastructure/view_counter.py), Schemas (api/schemas.py), Api (api/routers), Columns (the
--   lengths in infrastructure/persistence/models.py).
-- - Comments: services/comment-service/app. Domain, Repository and Handlers as in Posts;
--   RateLimiter (infrastructure/rate_limiter.py), ReadModel
--   (infrastructure/persistence/repositories.py), Queries (application/handlers.py), Api
--   (api/routers/comments.py).
-- - Identity: services/identity-service/app. Domain, Repository and Handlers as in Posts;
--   Commands (application/commands.py, dtos.py and interfaces.py), Throttle
--   (infrastructure/cache/redis_stores.py), Tokens (infrastructure/security/tokens.py), Api
--   (api/routers and api/dependencies.py).
-- - Activity: services/activity-worker/app/handlers.py.
-- - Services: a message or a token of one service, delivered to another.
-- - Tests: runs on concrete values.
--
-- A method becomes a function on a state that answers with a value or an exception, and with
-- the state after it. A unit of work has the committed store, the session's view of the tables,
-- the aggregates it has seen and the callbacks for after a commit; leaving it keeps only what
-- was committed. An aggregate is a mutable object: the model gives it an identity, and a method
-- call changes what the unit of work sees of it. The world outside the database, which is
-- Redis, is passed along and is not rolled back.
--
-- The clock and fresh identifiers are a `Stamp`, an argument of each command; one command reads
-- them once per object. An instant is a number of microseconds, an enum is a data type, a JSON
-- payload is a list of keys with values. The constraints of the database are the primary and
-- unique keys, and are checked at the commit; foreign keys are not modelled, and no commit of a
-- command fails because a row is too long for its columns. That a row is not is a predicate on the
-- rows of post-service, which counts UTF-16 units as SQL Server does (Posts.Columns.Units), while
-- the checks of the code count code points. A session does not see the tags that it has added and
-- not flushed; no handler gets a post after it has saved one.
-- The messages of exceptions, which are arguments in Web.Problems, and the log are left out, and
-- so is the number of rows that a statement changed, which is only logged.
--
-- The loop of `_unique_slug` runs on fuel, one round more than there are posts; each round but
-- the last meets another taken slug, so this is enough. The thread of the relay is stopped
-- after some number of passes, which is an argument, and that of a consumer after some number
-- of rounds, with a number of messages in each. The jitter of each delay is drawn by an argument,
-- between 0.8 and 1.2 in billionths, and a delay is a number of nanoseconds. A commit of the relay
-- may fail at any time, by an argument that answers it, and is then rolled back. All other loops
-- are structural recursion.
--
-- A query of a read model is a function of the tables. Filters compare texts exactly, but for
-- ILIKE and the order of texts, which are the `Collation` of the database; rows come in the
-- order of the sort keys. Pages are counted from 1, with as many pages as the ceiling of the
-- quotient, which the source takes of a floating-point number.
--
-- Parameters are the code that is not in the repository: Redis, the JSON values and the hash of
-- the cache keys (`Codec`), the hashing and JWT libraries (`Security`, `Decoded`, `Jwt`), pika
-- (`Pika`, `Consuming`), pymssql, the ASGI application and server around the middleware, the
-- encoding and the messages of Starlette's responses, Python's Unicode tables, the collation, the
-- broker behind `Publisher`, the matching of topic exchanges (`Topic`), and the SHA-256 of an
-- address. What they are said to do is a record of laws:
-- `View` and `RaisesRedisError` for Redis, where cached values may be lost at any time but no
-- counter is, `Expiring` for the time that a key is kept, `Counts` for a Redis that answers and whose counters do not expire, `IsDocumented`
-- for the JWT library, and `Acks` for the acknowledgements of pika.
--
-- Not modelled are the application factory with its health checks, the options that are passed to
-- SQLAlchemy, settings, logging, the wiring in container.py and main.py, the seed scripts and the
-- front end.
pub mod Activity
pub mod Base
pub mod Kernel
pub mod Cache
pub mod Comments
pub mod Posts
pub mod Services
pub mod Identity
pub mod Messaging
pub mod Web
pub mod Tests
