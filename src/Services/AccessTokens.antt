-- ===== src/Services/AccessTokens.antt =====
-- An access token of identity-service, before any service that shares its settings.
use myblog.Identity.Tokens.{
  TokenSettings, Jwt, IsDocumented, seconds, issue_access, decode_at, leeway, claims_for,
  read_claims,
}
use myblog.Kernel.Redis.{Redis}
use myblog.Base.{
  some, codes, option_eq, Bool, ◌+◌, ◌*◌, ℕ, ◌≡◌, ◌≤◌, if◌then◌else◌, true, list_eq, false, arith,
  number_eq, ◌==◌, refl, codes, Text, ltb, Bool-cases, inl, inr,
}
use myblog.Kernel.Events.{Stamp}
use myblog.Identity.Domain.{User, role_value, Role, admin, reader}
use myblog.Web.Security.{
  Claims, Decoded, principal_of, Principal, verify_decoded, verify_claims, is_on_list,
  unauthorized_for, is_admin, verify,
}
use myblog.Kernel.Errors.{ok, err}

-- Who a user is to the other services
abbrev pub principal_for : TokenSettings → Stamp → User → Principal
principal_for c s x = record {
  user_id = x.id;
  username = x.username;
  display_name = x.display_name;
  role = role_value x.role;
  jti = s.new_id;
  exp = seconds s.now + c.access_token_ttl_minutes * 60;
}

-- `user.role == UserRole.ADMIN`
abbrev pub is_role_admin : Role → Bool
is_role_admin admin = true
is_role_admin reader = false

-- Only the value of the role ADMIN counts as an administrator's.
is_admin-role_value :
    (c : TokenSettings) (s : Stamp) (x : User)
    → is_admin (principal_for c s x) ≡ is_role_admin x.role
unfolding list_eq number_eq
is_admin-role_value c s x = by_role x.role
  where
    by_role : (r : Role) → (role_value r == codes "admin") ≡ is_role_admin r
    by_role admin = refl
    by_role reader = refl

module _ (R : Redis) (with_redis : Bool) (J : Jwt) (documented : IsDocumented J)
    (c : TokenSettings) where
  listed_lem :
      (k : Claims) (s : R.State) (decode : Text → Decoded) (listed : Bool)
      → (is_on_list R with_redis decode k.jti s).0 ≡ ok listed
      → k.typ ≡ some (codes "access")
      → (verify_claims R with_redis decode k s).0
        ≡ (if listed then err (unauthorized_for "token_revoked") else ok (principal_of k))
  unfolding verify_claims list_eq number_eq option_eq
  listed_lem k s decode true told typed = rw (typed, told) refl
  listed_lem k s decode false told typed = rw (typed, told) refl

  -- With what the JWT library documents, a token that was issued to a user is answered, by a service
  -- with the same settings and from the time of issue on, as follows: until its lifetime and the
  -- leeway are over it names that user with its role, unless it is on the revocation list; from then
  -- on it is refused as expired. That user counts as an administrator exactly if the role is ADMIN.
  pub issued_lem :
      (stamp : Stamp) (x : User) (now : ℕ) (s : R.State) (listed : Bool)
      → (is_on_list R with_redis (decode_at J c now) stamp.new_id s).0 ≡ ok listed
      → seconds stamp.now ≤ now
      → ((verify R with_redis (decode_at J c now) ((issue_access J c stamp x).0) s).0 ≡ (
          if ltb now (seconds stamp.now + (c.access_token_ttl_minutes * 60 + leeway))
          then (if listed
              then err (unauthorized_for "token_revoked")
              else ok (principal_for c stamp x))
          else err (unauthorized_for "token_expired")))
        × (is_admin (principal_for c stamp x) ≡ is_role_admin x.role)
  unfolding verify verify_decoded issue_access
  issued_lem stamp x now s listed told after = (
    elim (Bool-cases (ltb now (seconds stamp.now + (c.access_token_ttl_minutes * 60 + leeway)))) [
      | inl early ↦
          rw
            (
              early,
              documented.accepts (claims_for c stamp x) c.jwt_secret leeway now (omega arith)
                  (omega arith) (ground arith),
            )
            (listed_lem (read_claims (claims_for c stamp x)) s (decode_at J c now) listed told refl)
      | inr late ↦
          rw
            (
              late,
              documented.expires (claims_for c stamp x) c.jwt_secret leeway now (omega arith)
                  (omega arith) (ground arith),
            )
            refl
    ],
    is_admin-role_value c stamp x,
  )
