-- ===== src/Cache.antt =====
-- libs/py-common/devblog_common/cache.py: the cache with a version for each namespace. Redis errors
-- are swallowed, so a service without Redis works from its database.
pub mod Keys
pub mod Calls
pub mod Fresh
pub mod Coherent
pub mod Reads
use myblog.Base.{Text, codes, ◌++◌, Option, ℕ, ◌∷◌, some, none}
use myblog.Base.Decimal.{decimal}
use myblog.Kernel.Redis.{Redis, except_redis}
use myblog.Kernel.Exec.{Exec, pure, lift, ◌>>◌, ◌>>=◌}
use myblog.Kernel.Errors.{Result}

-- `f"{prefix}:ns:{namespace}"`
abbrev pub version_key : Text → Text → Text
version_key prefix namespace = prefix ++ (codes ":ns:" ++ namespace)

-- `f"{prefix}:{namespace}:v{version}:{key}"`
abbrev pub full_key : Text → Text → ℕ → Text → Text
full_key prefix namespace version key =
    prefix ++ b':' ∷ (namespace ++ (codes ":v" ++ (decimal version ++ b':' ∷ key)))

module _ (R : Redis) (prefix : Text) where
  -- `bump`: the write in the database stands, so an error is only logged.
  abbrev pub bump : Text → Exec R.State (Unit {0})
  bump namespace = except_redis (do R.incr (version_key prefix namespace); pure tt) (pure tt)

  -- `_version`; `none` stands for the -1 of a Redis error.
  abbrev pub version : Text → Exec R.State (Option ℕ)
  version namespace =
      except_redis (do n ← R.get_count (version_key prefix namespace); pure (some n)) (pure none)

  -- The write of a loaded value, whose errors are suppressed.
  abbrev pub remember : Text → ℕ → R.Json → Exec R.State (Unit {0})
  remember full ttl value = except_redis (R.set_json full value ttl) (pure tt)

  -- What follows the look at the cache.
  cached_or_load : Text → ℕ → Result R.Json → Option R.Json → Exec R.State R.Json
  cached_or_load full ttl loader (some x) = pure x
  cached_or_load full ttl loader none = do value ← lift loader; remember full ttl value; pure value

  -- `try: cached = get(full_key)`; a Redis error leads to the loader. The loader reads the database
  -- and leaves Redis alone.
  unfoldable pub look_up : Text → Exec R.State (Option (Option R.Json))
  look_up full = except_redis (do o ← R.get_json full; pure (some o)) (pure none)

  found_or_load : Text → ℕ → Result R.Json → Option (Option R.Json) → Exec R.State R.Json
  unfolding cached_or_load
  found_or_load full ttl loader none = lift loader
  found_or_load full ttl loader (some o) = cached_or_load full ttl loader o

  versioned : Text → Text → ℕ → Result R.Json → Option ℕ → Exec R.State R.Json
  unfolding found_or_load look_up
  versioned namespace key ttl loader none = lift loader
  versioned namespace key ttl loader (some v) = do
    o ← look_up (full_key prefix namespace v key)
    found_or_load (full_key prefix namespace v key) ttl loader o

  unfoldable pub get_or_load : Text → Text → ℕ → Result R.Json → Exec R.State R.Json
  unfolding versioned
  get_or_load namespace key ttl loader = do
    v ← version namespace
    versioned namespace key ttl loader v
