-- ===== src/Identity/Throttle.antt =====
-- services/identity-service/app/infrastructure/cache/redis_stores.py. Without Redis nobody is locked
-- out, and nothing is counted.
use myblog.Base.{ℕ, Text, codes, Bool, ◌*◌, ◌++◌, leb, false}
use myblog.Kernel.Redis.{Redis, except_redis}
use myblog.Kernel.Exec.{Exec, pure, ◌>>=◌, ◌>>◌}

-- `_key`
abbrev pub failure_key : Text → Text
failure_key key = codes "auth:login_fail:" ++ key

-- `REVOKED_JTI_KEY.format(jti=jti)` of web/security.py
abbrev pub revoked_key : Text → Text
revoked_key jti = codes "auth:revoked:" ++ jti

module _ (R : Redis) where
  -- `RedisTokenRevocationStore.revoke_access_token`
  unfoldable pub revoke_access_token : Text → ℕ → Exec R.State (Unit {0})
  revoke_access_token jti ttl_seconds =
      except_redis (R.set_flag (revoked_key jti) ttl_seconds) (pure tt)

  module _ (max_attempts window_minutes : ℕ) where
    unfoldable pub is_locked : Text → Exec R.State Bool
    is_locked key =
        except_redis (do n ← R.get_count (failure_key key); pure (leb max_attempts n)) (pure false)

    unfoldable pub register_failure : Text → Exec R.State (Unit {0})
    register_failure key =
        except_redis (do R.incr_expire (failure_key key) (window_minutes * 60); pure tt) (pure tt)

    unfoldable pub reset : Text → Exec R.State (Unit {0})
    reset key = except_redis (R.delete (failure_key key)) (pure tt)
