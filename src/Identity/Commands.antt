-- ===== src/Identity/Commands.antt =====
-- services/identity-service/app/application/commands.py, dtos.py and interfaces.py.
use myblog.Base.{Text, Option, ℕ, Bool}
use myblog.Kernel.Events.{Stamp, Instant}
use myblog.Identity.Domain.{User, role_value}

-- The ports of interfaces.py that security libraries implement: Argon2, SHA-256 and the JWT issuer.
-- `hash` takes the salt that the library draws.
pub record Security : Type 0 where
  pub verify : Text → Text → Bool
  pub needs_rehash : Text → Bool
  pub hash : Text → Text → Text
  pub digest : Text → Text
  pub access : Stamp → User → Text × ℕ

-- What one request draws at random, with the clock: the stamp names the new token or user.
pub record Draw : Type 0 where
  pub stamp : Stamp
  pub family : Text
  pub raw_token : Text
  pub salt : Text

pub record LoginCommand : Type 0 where
  pub username : Text
  pub password : Text
  pub ip : Option Text
  pub user_agent : Option Text

pub record RefreshCommand : Type 0 where
  pub refresh_token : Text
  pub ip : Option Text
  pub user_agent : Option Text

pub record LogoutCommand : Type 0 where
  pub refresh_token : Option Text
  pub access_jti : Option Text
  pub access_exp : Option ℕ

pub record SeedAdminCommand : Type 0 where
  pub username : Text
  pub email : Text
  pub display_name : Text
  pub password : Text

pub record ChangePasswordCommand : Type 0 where
  pub user_id : Text
  pub current_password : Text
  pub new_password : Text

-- dtos.py
pub record UserDto : Type 0 where
  pub id : Text
  pub username : Text
  pub email : Text
  pub display_name : Text
  pub role : Text
  pub last_login_at : Option Instant

abbrev pub from_domain : User → UserDto
from_domain x = record {
  id = x.id;
  username = x.username;
  email = x.email;
  display_name = x.display_name;
  role = role_value x.role;
  last_login_at = x.last_login_at;
}

pub record AuthResult : Type 0 where
  pub access_token : Text
  pub expires_in : ℕ
  pub refresh_token : Text
  pub refresh_expires_at : Instant
  pub user : UserDto
