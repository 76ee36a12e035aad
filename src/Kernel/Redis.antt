-- ===== src/Kernel/Redis.antt =====
-- The Redis server and its client library, as the services use them: a parameter of the model.
-- A call may raise `redis.RedisError`, here `connection_error`, at any time.
use myblog.Base.{
  ℕ, Text, list_eq, number_eq, ◌≡◌, true, some, ◌⊎◌, ◌+◌, ◌≤◌, ◌<◌, ◌*◌, if◌then◌else◌, ◌==◌,
}
use myblog.Base.{Bool, Option}
use myblog.Kernel.Errors.{ok, err, connection_error, Result, Exc}
use myblog.Kernel.Exec.{Exec}

pub record Redis : Type 1 where
  pub State : Type 0
  pub Json : Type 0
  -- INCR
  pub incr : Text → Exec State ℕ
  -- int(GET or 0)
  pub get_count : Text → Exec State ℕ
  -- GET and SET … EX of a JSON text
  pub get_json : Text → Exec State (Option Json)
  pub set_json : Text → Json → ℕ → Exec State (Unit {0})
  -- EXISTS, SET "1" EX
  pub exists : Text → Exec State Bool
  pub set_flag : Text → ℕ → Exec State (Unit {0})
  -- DEL
  pub delete : Text → Exec State (Unit {0})
  -- a pipeline of INCR and EXPIRE, and of INCR and EXPIRE NX
  pub incr_expire : Text → ℕ → Exec State ℕ
  pub incr_expire_nx : Text → ℕ → Exec State ℕ

-- What the documentation promises of `SET … EX`: the key is there until its time is over. `later` is
-- the server some microseconds later, if nobody deletes the key.
pub record Expiring (R : Redis) : Type 0 where
  pub later : ℕ → R.State → R.State
  pub set_exists :
      (k : Text) (ttl t : ℕ) (s : R.State)
      → (R.set_flag k ttl s).0 ≡ ok tt
      → t < ttl * 1000000
      → (R.exists k (later t (R.set_flag k ttl s).1)).0 ≡ ok true

abbrev handled {ℓ κ} : {S : Type ℓ} {A : Type κ} → Exec S A → Result A → Exec S A
handled handler (ok a) s = (ok a, s)
handled handler (err connection_error) s = handler s
handled handler (err e) s = (err e, s)

-- `try: m except redis.RedisError: handler`
abbrev pub except_redis {ℓ κ} : {S : Type ℓ} {A : Type κ} → Exec S A → Exec S A → Exec S A
except_redis m handler s = let (r, s') = m s in handled handler r s'

abbrev recovered {ℓ κ} : {S : Type ℓ} {A : Type κ} → Exec S A → Result A → Exec S A
recovered handler (ok a) s = (ok a, s)
recovered handler (err e) s = handler s

-- `try: m except Exception: handler`
abbrev pub except_any {ℓ κ} : {S : Type ℓ} {A : Type κ} → Exec S A → Exec S A → Exec S A
except_any m handler s = let (r, s') = m s in recovered handler r s'

-- What a client observes of a server that may lose cached values at any time, by expiry or eviction,
-- but no counter: the counters, the cached values, and how each call changes them. A call that
-- raises may have been carried out.
pub record View (R : Redis) : Type 0 where
  pub count_of : Text → R.State → ℕ
  pub json_of : Text → R.State → Option R.Json
  pub get_count_keeps :
      (k : Text) (s : R.State)
      → ((j : Text) → count_of j (R.get_count k s).1 ≡ count_of j s)
        × ((j : Text) (x : R.Json) → json_of j (R.get_count k s).1 ≡ some x → json_of j s ≡ some x)
  pub get_count_reads :
      (k : Text) (s : R.State) (n : ℕ) → (R.get_count k s).0 ≡ ok n → n ≡ count_of k s
  pub get_json_keeps :
      (k : Text) (s : R.State)
      → ((j : Text) → count_of j (R.get_json k s).1 ≡ count_of j s)
        × ((j : Text) (x : R.Json) → json_of j (R.get_json k s).1 ≡ some x → json_of j s ≡ some x)
  pub get_json_reads :
      (k : Text) (s : R.State) (x : R.Json)
      → (R.get_json k s).0 ≡ ok (some x)
      → json_of k s ≡ some x
  pub set_json_counts :
      (k : Text) (v : R.Json) (ttl : ℕ) (s : R.State) (j : Text)
      → count_of j (R.set_json k v ttl s).1 ≡ count_of j s
  pub set_json_writes :
      (k : Text) (v : R.Json) (ttl : ℕ) (s : R.State) (j : Text) (x : R.Json)
      → json_of j (R.set_json k v ttl s).1 ≡ some x
      → (json_of j s ≡ some x) ⊎ ((j ≡ k) × (x ≡ v))
  pub incr_counts :
      (k : Text) (s : R.State) (n : ℕ)
      → (R.incr k s).0 ≡ ok n
      → (n ≡ count_of k s + 1) × (count_of k (R.incr k s).1 ≡ n)
  pub incr_grows : (k : Text) (s : R.State) → count_of k s ≤ count_of k (R.incr k s).1
  pub incr_keeps :
      (k : Text) (s : R.State) (j : Text) (x : R.Json)
      → json_of j (R.incr k s).1 ≡ some x
      → json_of j s ≡ some x

-- The exceptions of the client library are `redis.RedisError`, here for the calls of the cache.
pub record RaisesRedisError (R : Redis) : Type 0 where
  pub get_count_raises :
      (k : Text) (s : R.State) (e : Exc) → (R.get_count k s).0 ≡ err e → e ≡ connection_error
  pub get_json_raises :
      (k : Text) (s : R.State) (e : Exc) → (R.get_json k s).0 ≡ err e → e ≡ connection_error
  pub set_json_raises :
      (k : Text) (v : R.Json) (ttl : ℕ) (s : R.State) (e : Exc)
      → (R.set_json k v ttl s).0 ≡ err e
      → e ≡ connection_error
  pub incr_raises :
      (k : Text) (s : R.State) (e : Exc) → (R.incr k s).0 ≡ err e → e ≡ connection_error

-- A server that answers, in a window in which no counter expires: a counter is read as it is, and an
-- increment adds one to it, whatever its time to live. Other counters are left as they are.
pub record Counts (R : Redis) : Type 0 where
  pub counter : Text → R.State → ℕ
  pub get_count_ok : (k : Text) (s : R.State) → (R.get_count k s).0 ≡ ok (counter k s)
  pub get_count_kept : (k j : Text) (s : R.State) → counter j (R.get_count k s).1 ≡ counter j s
  pub incr_expire_ok :
      (k : Text) (ttl : ℕ) (s : R.State) → (R.incr_expire k ttl s).0 ≡ ok (counter k s + 1)
  pub incr_expire_adds :
      (k : Text) (ttl : ℕ) (s : R.State) (j : Text)
      → counter j (R.incr_expire k ttl s).1 ≡ counter j s + (if j == k then 1 else 0)
  pub incr_expire_nx_ok :
      (k : Text) (ttl : ℕ) (s : R.State) → (R.incr_expire_nx k ttl s).0 ≡ ok (counter k s + 1)
  pub incr_expire_nx_adds :
      (k : Text) (ttl : ℕ) (s : R.State) (j : Text)
      → counter j (R.incr_expire_nx k ttl s).1 ≡ counter j s + (if j == k then 1 else 0)
