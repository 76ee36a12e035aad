-- ===== src/Identity/Repository.antt =====
-- services/identity-service/app/infrastructure/persistence: the tables of models.py and
-- repositories.py. `refresh_tokens` has the columns of `RefreshToken`.
use myblog.Base.{
  list_eq, number_eq, Text, [], Option, ◌++◌, Bool, update_at, List, unique, ◌&&◌, has_key, ◌∷◌,
  row_at, some, ◌||◌, if◌then◌else◌, ◌==◌, none, not,
}
use myblog.Kernel.Events.{Instant}
use myblog.Kernel.Exec.{Exec, pure, gets, modify, ◌>>=◌, ◌>>◌}
use myblog.Kernel.UnitOfWork.{Aggregate, Schema, Tracked, UnitOfWork, new_object, track}
use myblog.Identity.Domain.{Role, User, RefreshToken, is_revoked}
use myblog.Kernel.Errors.{ok}

pub record UserModel : Type 0 where
  pub id : Text
  pub username : Text
  pub email : Text
  pub display_name : Text
  pub password_hash : Text
  pub role : Role
  pub is_active : Bool
  pub created_at : Instant
  pub last_login_at : Option Instant

pub record Db : Type 0 where
  pub users : List UserModel
  pub refresh_tokens : List RefreshToken

abbrev pub user_key : UserModel → Text
user_key m = m.id

abbrev pub user_name : UserModel → Text
user_name m = m.username

abbrev pub user_email : UserModel → Text
user_email m = m.email

abbrev pub token_key : RefreshToken → Text
token_key t = t.id

abbrev pub token_digest : RefreshToken → Text
token_digest t = t.token_hash

instance abbrev pub user_aggregate : Aggregate User
user_aggregate = record { pending = λ x. x.events; cleared = λ x. record x { events = [] } }

-- The primary and unique keys.
instance abbrev pub identity_schema : Schema Db
identity_schema = record {
  source = "identity-service";
  constraints = λ db.
      (unique user_key db.users && (unique user_name db.users && unique user_email db.users))
      && (unique token_key db.refresh_tokens && unique token_digest db.refresh_tokens);
}

abbrev pub to_user : UserModel → User
to_user m = record {
  id = m.id;
  username = m.username;
  email = m.email;
  display_name = m.display_name;
  password_hash = m.password_hash;
  role = m.role;
  is_active = m.is_active;
  created_at = m.created_at;
  last_login_at = m.last_login_at;
  events = [];
}

abbrev pub to_model : User → UserModel
to_model x = record {
  id = x.id;
  username = x.username;
  email = x.email;
  display_name = x.display_name;
  password_hash = x.password_hash;
  role = x.role;
  is_active = x.is_active;
  created_at = x.created_at;
  last_login_at = x.last_login_at;
}

-- The columns that `update` writes.
abbrev pub write_user : User → UserModel → UserModel
write_user x m = record m {
  email = x.email;
  display_name = x.display_name;
  password_hash = x.password_hash;
  role = x.role;
  is_active = x.is_active;
  last_login_at = x.last_login_at;
}

abbrev pub write_token : RefreshToken → RefreshToken → RefreshToken
write_token t m = record m { revoked_at = t.revoked_at; replaced_by_id = t.replaced_by_id }

-- `UPDATE … SET revoked_at = now WHERE family_id = family AND revoked_at IS NULL`
abbrev pub revoke_rows : Instant → Text → List RefreshToken → List RefreshToken
revoke_rows now family [] = []
revoke_rows now family (t ∷ rows) =
    (if t.family_id == family && not (is_revoked t) then record t { revoked_at = some now } else t)
    ∷ revoke_rows now family rows

abbrev pub Repo : Type 0 → Type 0 → Type 0
Repo W B = Exec (UnitOfWork Db User W) B

module _ {W : Type 0} where
  abbrev tracked_user : Option UserModel → Repo W (Option (Tracked User))
  tracked_user none u = (ok none, u)
  tracked_user (some m) u = (do x ← new_object (to_user m); track x; pure (some x)) u

  abbrev pub get_by_id : Text → Repo W (Option (Tracked User))
  get_by_id user_id u = tracked_user (row_at user_key user_id u.session.users) u

  abbrev pub get_by_username : Text → Repo W (Option (Tracked User))
  get_by_username username u = tracked_user (row_at user_name username u.session.users) u

  abbrev pub exists : Text → Text → Repo W Bool
  exists username email =
      gets (λ u.
        has_key user_name username u.session.users || has_key user_email email u.session.users)

  abbrev set_users : List UserModel → Repo W (Unit {0})
  set_users rows = modify (λ u. record u { session = record (u.session) { users = rows } })

  abbrev set_tokens : List RefreshToken → Repo W (Unit {0})
  set_tokens rows =
      modify (λ u. record u { session = record (u.session) { refresh_tokens = rows } })

  abbrev pub add_user : Tracked User → Repo W (Unit {0})
  add_user x u = (do set_users (u.session.users ++ to_model (x.1) ∷ []); track x) u

  abbrev pub update_user : Tracked User → Repo W (Unit {0})
  update_user x u =
      (do set_users (update_at user_key x.1.id (write_user (x.1)) u.session.users); track x) u

  abbrev pub get_by_hash : Text → Repo W (Option RefreshToken)
  get_by_hash digest = gets (λ u. row_at token_digest digest u.session.refresh_tokens)

  abbrev pub add_token : RefreshToken → Repo W (Unit {0})
  add_token t u = set_tokens (u.session.refresh_tokens ++ t ∷ []) u

  abbrev pub update_token : RefreshToken → Repo W (Unit {0})
  update_token t u =
      set_tokens (update_at token_key t.id (write_token t) u.session.refresh_tokens) u

  -- The number of rows, which the callers only log, is not modelled.
  abbrev pub revoke_family : Instant → Text → Repo W (Unit {0})
  revoke_family now family u = set_tokens (revoke_rows now family u.session.refresh_tokens) u
