-- ===== src/Identity/Tokens.antt =====
-- services/identity-service/app/infrastructure/security/tokens.py: `JwtAccessTokenIssuer`, and the
-- call of `jwt.decode` in libs/py-common/devblog_common/web/security.py, with the settings that both
-- sides share. Times in a token are whole seconds.
use myblog.Base.{Text, ℕ, some, ◌/◌, ◌≤◌, ◌*◌, ◌+◌, codes, ◌<◌, ◌≡◌}
use myblog.Kernel.Events.{Instant, Stamp}
use myblog.Web.Security.{Claims, Decoded, claims, expired_signature}
use myblog.Identity.Domain.{User, role_value}

-- What the settings say of tokens
pub record TokenSettings : Type 0 where
  pub jwt_secret : Text
  pub jwt_issuer : Text
  pub jwt_audience : Text
  pub access_token_ttl_minutes : ℕ

-- The dict that is encoded
pub record TokenClaims : Type 0 where
  pub sub : Text
  pub username : Text
  pub name : Text
  pub role : Text
  pub typ : Text
  pub jti : Text
  pub iss : Text
  pub aud : Text
  pub iat : ℕ
  pub nbf : ℕ
  pub exp : ℕ

-- The JWT library: `jwt.encode` with a secret, and `jwt.decode` with the secret, the audience, the
-- issuer, the leeway and the time.
pub record Jwt : Type 0 where
  pub encode : TokenClaims → Text → Text
  pub decode : Text → Text → Text → Text → ℕ → ℕ → Decoded

abbrev pub leeway : ℕ
leeway = 10

abbrev pub seconds : Instant → ℕ
seconds now = now / 1000000

abbrev pub claims_for : TokenSettings → Stamp → User → TokenClaims
claims_for c s x = record {
  sub = x.id;
  username = x.username;
  name = x.display_name;
  role = role_value x.role;
  typ = codes "access";
  jti = s.new_id;
  iss = c.jwt_issuer;
  aud = c.jwt_audience;
  iat = seconds s.now;
  nbf = seconds s.now;
  exp = seconds s.now + c.access_token_ttl_minutes * 60;
}

-- `issue`: the token, and `int(ttl.total_seconds())`
unfoldable pub issue_access : Jwt → TokenSettings → Stamp → User → Text × ℕ
issue_access J c s x = (J.encode (claims_for c s x) c.jwt_secret, c.access_token_ttl_minutes * 60)

-- The call of `jwt.decode` by a verifier at a time
abbrev pub decode_at : Jwt → TokenSettings → ℕ → Text → Decoded
decode_at J c now token = J.decode token c.jwt_secret c.jwt_audience c.jwt_issuer leeway now

-- What a verifier reads of the claims
abbrev pub read_claims : TokenClaims → Claims
read_claims p = record {
  typ = some p.typ;
  sub = p.sub;
  username = some p.username;
  name = some p.name;
  role = some p.role;
  jti = p.jti;
  exp = p.exp;
}

-- What the library documents of a token that is decoded with the secret it was encoded with, for the
-- audience and the issuer that it names, when it was issued and is valid already.
pub record IsDocumented (J : Jwt) : Type 0 where
  pub accepts :
      (p : TokenClaims) (secret : Text) (margin now : ℕ)
      → p.iat ≤ now + margin
      → p.nbf ≤ now + margin
      → now < p.exp + margin
      → J.decode (J.encode p secret) secret p.aud p.iss margin now ≡ claims (read_claims p)
  pub expires :
      (p : TokenClaims) (secret : Text) (margin now : ℕ)
      → p.iat ≤ now + margin
      → p.nbf ≤ now + margin
      → p.exp + margin ≤ now
      → J.decode (J.encode p secret) secret p.aud p.iss margin now ≡ expired_signature
