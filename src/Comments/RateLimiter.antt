-- ===== src/Comments/RateLimiter.antt =====
-- services/comment-service/app/infrastructure/rate_limiter.py: a window of fixed length. Without
-- Redis everything is allowed.
use myblog.Kernel.Redis.{Redis, except_redis}
use myblog.Base.{ℕ, Text, Bool, ◌++◌, ◌∷◌, leb, true}
use myblog.Kernel.Exec.{Exec, ◌>>=◌, pure}

-- `prefix` is "ratelimit:comments" unless the caller gives another.
unfoldable pub allow : (R : Redis) → ℕ → ℕ → Text → Text → Exec R.State Bool
allow R limit window_seconds prefix key =
    except_redis
      (do count ← R.incr_expire_nx (prefix ++ b':' ∷ key) window_seconds; pure (leb count limit))
      (pure true)
