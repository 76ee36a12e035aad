-- ===== src/Tests/AccessTokens.antt =====
-- The example of an access token, with a library that writes the claims one after the other.
use myblog.Base.{
  ℕ, Text, true, false, some, [], ◌∷◌, ◌+◌, ◌*◌, ◌≡◌, ◌++◌, refl, codes, ltb, if◌then◌else◌,
  list_eq, number_eq, option_eq, arith, length, take, drop,
}
use myblog.Identity.Tokens.{
  TokenSettings, TokenClaims, Jwt, IsDocumented, issue_access, decode_at, leeway, seconds,
  read_claims,
}
use myblog.Services.AccessTokens.{issued_lem, principal_for, is_role_admin}
use myblog.Web.Security.{Decoded, claims, expired_signature, verify, is_admin, unauthorized_for}
use myblog.Kernel.Errors.{ok, err}
use myblog.Tests.Sample.{counter, stamp}
use myblog.Tests.Identity.{ada}
use myblog.Identity.Repository.{to_user}

-- A text is written with its length before it.
abbrev field : Text → Text → Text
field t rest = length t ∷ (t ++ rest)

abbrev first : Text → Text
first [] = []
first (n ∷ t) = take n t

abbrev others : Text → Text
others [] = []
others (n ∷ t) = drop n t

take-length : (t rest : Text) → take (length t) (t ++ rest) ≡ t
take-length [] rest = refl
take-length (c ∷ t) rest = rw (take-length t rest)

drop-length : (t rest : Text) → drop (length t) (t ++ rest) ≡ rest
drop-length [] rest = refl
drop-length (c ∷ t) rest = drop-length t rest

abbrev written : TokenClaims → Text
written p =
    p.exp
    ∷ field p.sub (field p.username (field p.name (field p.role (field p.typ (field p.jti [])))))

abbrev decode : Text → Text → Text → Text → ℕ → ℕ → Decoded
decode [] secret aud iss margin now = expired_signature
decode (exp ∷ t) secret aud iss margin now =
    if ltb now (exp + margin)
    then claims (record {
      typ = some (first (others (others (others (others t)))));
      sub = first t;
      username = some (first (others t));
      name = some (first (others (others t)));
      role = some (first (others (others (others t))));
      jti = first (others (others (others (others (others t)))));
      exp = exp;
    })
    else expired_signature

abbrev library : Jwt
library = record { encode = λ p secret. written p; decode = decode }

decode-claims :
    (p : TokenClaims) (secret aud iss : Text) (margin now : ℕ)
    → decode (written p) secret aud iss margin now
      ≡ (if ltb now (p.exp + margin) then claims (read_claims p) else expired_signature)
decode-claims p secret aud iss margin now = simp (take-length, drop-length)

library-IsDocumented : IsDocumented library
library-IsDocumented = record {
  accepts = λ p secret margin now issued begun early.
      rw (decode-claims p secret p.aud p.iss margin now) (ground arith);
  expires = λ p secret margin now issued begun late.
      rw (decode-claims p secret p.aud p.iss margin now) (ground arith);
}

abbrev settings : TokenSettings
settings = record {
  jwt_secret = codes "secret";
  jwt_issuer = codes "blog";
  jwt_audience = codes "readers";
  access_token_ttl_minutes = 15;
}

-- The clock of the issuer shows 5 seconds, that of the verifier 60.
issued_lem_example :
    ((verify counter true
        (decode_at library settings 60)
        ((issue_access library settings stamp (to_user ada)).0)
        0).0
      ≡ (if ltb 60 (seconds stamp.now + (settings.access_token_ttl_minutes * 60 + leeway))
          then (if false
              then err (unauthorized_for "token_revoked")
              else ok (principal_for settings stamp (to_user ada)))
          else err (unauthorized_for "token_expired")))
    × (is_admin (principal_for settings stamp (to_user ada)) ≡ is_role_admin ada.role)
issued_lem_example =
    issued_lem counter true library library-IsDocumented settings stamp (to_user ada) 60 0 false
      refl (omega arith)
