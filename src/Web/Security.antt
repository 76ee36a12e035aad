-- ===== src/Web/Security.antt =====
-- libs/py-common/devblog_common/web/security.py
use myblog.Kernel.Errors.{Result, ok, err, Exc, raised, domain, forbidden, unauthorized}
use myblog.Base.{
  if◌then◌else◌, [], Bool, Option, String, Text, codes, ◌==◌, ℕ, some, none, list_eq, number_eq,
  string_eq, option_eq, not, false,
}
use myblog.Kernel.Redis.{Redis, except_any}
use myblog.Kernel.Exec.{Exec, ◌>>◌, throw, throw_if, pure, ◌>>=◌}
use myblog.Identity.Throttle.{revoked_key}

pub record Principal : Type 0 where
  pub user_id : Text
  pub username : Text
  pub display_name : Text
  pub role : Text
  pub jti : Text
  pub exp : ℕ

-- The claims of a token. The JWT library requires `sub`, `jti` and `exp`.
pub record Claims : Type 0 where
  pub typ : Option Text
  pub sub : Text
  pub username : Option Text
  pub name : Option Text
  pub role : Option Text
  pub jti : Text
  pub exp : ℕ

-- What `jwt.decode` answers, or which error it raises.
pub data Decoded : Type 0 where
  claims : Claims → Decoded
  expired_signature : Decoded
  invalid : Decoded

abbrev pub is_admin : Principal → Bool
is_admin p = p.role == codes "admin"

-- `claims.get(key, default)`
abbrev pub or_default : Option Text → Text → Text
or_default none t = t
or_default (some s) t = s

abbrev pub principal_of : Claims → Principal
principal_of c = record {
  user_id = c.sub;
  username = or_default c.username [];
  display_name = or_default c.name [];
  role = or_default c.role (codes "reader");
  jti = c.jti;
  exp = c.exp;
}

abbrev pub unauthorized_for : String → Exc
unauthorized_for code = domain unauthorized code

module _ (R : Redis) (with_redis : Bool) (decode : Text → Decoded) where
  -- The revocation list; it is skipped when Redis does not answer.
  abbrev pub is_on_list : Text → Exec R.State Bool
  is_on_list jti =
      if with_redis then except_any (R.exists (revoked_key jti)) (pure false) else pure false

  unfoldable pub verify_claims : Claims → Exec R.State Principal
  verify_claims c = do
    throw_if (not (c.typ == some (codes "access"))) (unauthorized_for "invalid_token")
    listed ← is_on_list c.jti
    throw_if listed (unauthorized_for "token_revoked")
    pure (principal_of c)

  unfoldable pub verify_decoded : Decoded → Exec R.State Principal
  unfolding verify_claims
  verify_decoded expired_signature = throw (unauthorized_for "token_expired")
  verify_decoded invalid = throw (unauthorized_for "invalid_token")
  verify_decoded (claims c) = verify_claims c

  unfoldable pub verify : Text → Exec R.State Principal
  unfolding verify_decoded
  verify token = verify_decoded (decode token)

unfoldable pub ensure_admin : Principal → Result Principal
ensure_admin p = if is_admin p then ok p else err (raised forbidden)
