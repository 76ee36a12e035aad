-- ===== src/Identity/Handlers.antt =====
-- services/identity-service/app/application/handlers.py.
pub mod Reuse
pub mod Rotation
pub mod Logout
pub mod Lockout
pub mod Seed
pub mod Logins
pub mod Password
use myblog.Base.{
  list_eq, number_eq, ℕ, Text, codes, Bool, Option, ◌++◌, String, ◌∷◌, if◌then◌else◌, some, none,
  false, not, ltb, suc, length, max, ◌-◌, ◌/◌, true, ◌*◌,
}
use myblog.Base.Unicode.{Unicode}
use myblog.Kernel.Redis.{Redis}
use myblog.Kernel.Exec.{◌>>=◌, ◌>>◌, required, Exec, throw_if, pure, lift, throw}
use myblog.Kernel.UnitOfWork.{
  in_world, on_world, Store, with_uow, Tracked, mutate, commit, new_object,
}
use myblog.Identity.Repository
use myblog.Identity.Repository.{
  user_aggregate, identity_schema, Db, get_by_hash, revoke_family, update_token, update_user,
  add_token, add_user,
}
use myblog.Identity.Throttle
use myblog.Kernel.Errors.{
  Exc, err, domain, raised, unauthorized, ok, rate_limited, business_rule_violation,
}
use myblog.Kernel.Events.{Instant, Stamp}
use myblog.Identity.Domain.{
  RefreshToken, User, role_value, issue, ensure_can_login, is_revoked, is_expired,
  change_password_hash, register, record_login, admin, revoke,
}
use myblog.Base.Python.{or_none, or_text}
use myblog.Identity.Throttle.{is_locked, register_failure, revoke_access_token}
use myblog.Identity.Commands.{
  Security, UserDto, LoginCommand, Draw, SeedAdminCommand, LogoutCommand, ChangePasswordCommand,
  from_domain, RefreshCommand, AuthResult,
}

abbrev pub IdentityStore : Redis → Type 0
IdentityStore R = Store Db R.State

abbrev pub Body : Redis → Type 0 → Type 0
Body R B = Repository.Repo R.State B

abbrev pub unauthorized_as : String → Exc
unauthorized_as code = domain unauthorized code

-- `cmd.ip or '-'`
abbrev pub ip_or_dash : Option Text → Text
ip_or_dash none = codes "-"
ip_or_dash (some t) = or_text t (codes "-")

-- `None`, or raise
abbrev pub required_as {ℓ κ} : {S : Type ℓ} {A : Type κ} → Exc → Option A → Exec S A
required_as e none s = (err e, s)
required_as e (some a) s = (ok a, s)

module _ (R : Redis) (max_attempts window_minutes : ℕ) (u : Unicode) (sec : Security)
    (refresh_ttl : ℕ) where
  abbrev pub throttle_key : LoginCommand → Text
  throttle_key cmd = u.lower cmd.username ++ b':' ∷ ip_or_dash cmd.ip

  -- `_new_refresh_token`
  abbrev pub new_refresh_token :
      Draw → Text → Option Text → Option Text → Option Text → RefreshToken
  new_refresh_token d user_id family_id ip ua =
      issue d.stamp d.family user_id (sec.digest d.raw_token) refresh_ttl family_id ip ua

  abbrev pub auth_result : Draw → User → RefreshToken → AuthResult
  auth_result d x token =
      let (access, expires_in) = sec.access d.stamp x in
      record {
        access_token = access;
        expires_in = expires_in;
        refresh_token = d.raw_token;
        refresh_expires_at = token.expires_at;
        user = from_domain x;
      }

  -- `user is None or not self._hasher.verify(…)`: then the failure is counted.
  pub checked_password : LoginCommand → Option (Tracked User) → Body R (Tracked User)
  checked_password cmd none = do
    in_world (register_failure R max_attempts window_minutes (throttle_key cmd))
    throw (unauthorized_as "invalid_credentials")
  checked_password cmd (some x) = if sec.verify x.1.password_hash cmd.password then pure x else (do
    in_world (register_failure R max_attempts window_minutes (throttle_key cmd))
    throw (unauthorized_as "invalid_credentials"))

  abbrev pub rehashed : Draw → Text → User → User
  rehashed d password x =
      if sec.needs_rehash x.password_hash
      then change_password_hash (sec.hash d.salt password) x
      else x

  pub login_body : Draw → LoginCommand → Body R (User × RefreshToken)
  unfolding checked_password
  login_body d cmd = do
    found ← Repository.get_by_username (u.lower cmd.username)
    x ← checked_password cmd found
    lift (ensure_can_login (x.1))
    x ← mutate x (ok (rehashed d cmd.password (x.1)))
    x ← mutate x (ok (record_login d.stamp cmd.ip (x.1)))
    update_user x
    add_token (new_refresh_token d x.1.id none cmd.ip cmd.user_agent)
    commit
    pure (x.1, new_refresh_token d x.1.id none cmd.ip cmd.user_agent)

  unfoldable pub login : Draw → LoginCommand → Exec (IdentityStore R) AuthResult
  unfolding login_body
  login d cmd = do
    locked ← on_world (is_locked R max_attempts window_minutes (throttle_key cmd))
    throw_if locked (raised rate_limited)
    r ← with_uow (login_body d cmd)
    on_world (Throttle.reset R max_attempts window_minutes (throttle_key cmd))
    pure (auth_result d (r.0) (r.1))

  -- A revoked token is used again: its family is revoked, and that is committed before the raise.
  pub reject_reused : Draw → RefreshToken → Body R (Unit {0})
  reject_reused d current =
      if is_revoked current
      then (do
        revoke_family d.stamp.now current.family_id
        commit
        throw (unauthorized_as "refresh_token_reused"))
      else pure tt

  pub refresh_body : Draw → RefreshCommand → Body R (User × RefreshToken)
  unfolding reject_reused
  refresh_body d cmd = do
    found ← get_by_hash (sec.digest cmd.refresh_token)
    current ← required_as (unauthorized_as "invalid_refresh_token") found
    reject_reused d current
    throw_if (is_expired d.stamp.now current) (unauthorized_as "refresh_token_expired")
    found_user ← Repository.get_by_id current.user_id
    x ← required_as (unauthorized_as "invalid_refresh_token") found_user
    lift (ensure_can_login (x.1))
    let token = new_refresh_token d x.1.id (some current.family_id) cmd.ip cmd.user_agent
    update_token (revoke d.stamp.now (some token.id) current)
    add_token token
    commit
    pure (x.1, token)

  unfoldable pub refresh : Draw → RefreshCommand → Exec (IdentityStore R) AuthResult
  unfolding refresh_body
  refresh d cmd = do r ← with_uow (refresh_body d cmd); pure (auth_result d (r.0) (r.1))

  -- The part of `logout` that ends a session.
  end_session : Draw → Option RefreshToken → Body R (Unit {0})
  end_session d none = pure tt
  end_session d (some token) = do revoke_family d.stamp.now token.family_id; commit

  revoke_session : Draw → Option Text → Exec (IdentityStore R) (Unit {0})
  unfolding end_session
  revoke_session d none = pure tt
  revoke_session d (some raw) =
      with_uow (do found ← get_by_hash (sec.digest raw); end_session d found)

  -- `max(int(cmd.access_exp - time.time()), 1)`, with times in seconds. An absent or zero `exp`, and
  -- an absent or empty `jti`, are skipped.
  revoke_access : Draw → Option Text → Option ℕ → Exec (IdentityStore R) (Unit {0})
  revoke_access d (some (c ∷ jti)) (some (suc exp)) =
      on_world
        (revoke_access_token R (c ∷ jti) (max ((suc exp * 1000000 - d.stamp.now) / 1000000) 1))
  revoke_access d _ _ = pure tt

  unfoldable pub logout : Draw → LogoutCommand → Exec (IdentityStore R) (Unit {0})
  unfolding revoke_session revoke_access
  logout d cmd = do
    revoke_session d (or_none cmd.refresh_token)
    revoke_access d cmd.access_jti cmd.access_exp

  change_password_body : Draw → ChangePasswordCommand → Body R (Unit {0})
  change_password_body d cmd = do
    found ← Repository.get_by_id cmd.user_id
    x ← required found
    throw_if (not (sec.verify x.1.password_hash cmd.current_password))
        (unauthorized_as "invalid_credentials")
    x ← mutate x (ok (change_password_hash (sec.hash d.salt cmd.new_password) (x.1)))
    update_user x
    commit

  unfoldable pub change_password : Draw → ChangePasswordCommand → Exec (IdentityStore R) (Unit {0})
  unfolding change_password_body
  change_password d cmd = do
    throw_if (ltb (length cmd.new_password) 10) (raised business_rule_violation)
    with_uow (change_password_body d cmd)

  seed_new : Draw → SeedAdminCommand → Bool → Body R Bool
  seed_new d cmd true = pure false
  seed_new d cmd false = do
    made ← lift (
        register u d.stamp cmd.username cmd.email cmd.display_name (sec.hash d.salt cmd.password)
          admin)
    x ← new_object made
    add_user x
    commit
    pure true

  unfoldable pub seed_admin : Draw → SeedAdminCommand → Exec (IdentityStore R) Bool
  unfolding seed_new
  seed_admin d cmd = with_uow (do
    taken ← Repository.exists (u.lower cmd.username) (u.lower cmd.email)
    seed_new d cmd taken)

  -- `UserQueryHandler.get_user`
  unfoldable pub get_user : Text → Exec (IdentityStore R) UserDto
  get_user user_id =
      with_uow
        (do found ← Repository.get_by_id user_id; x ← required found; pure (from_domain (x.1)))
