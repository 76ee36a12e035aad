-- ===== src/Identity/Domain.antt =====
-- services/identity-service/app/domain: user.py and refresh_token.py.
use myblog.Base.{
  ℕ, Text, codes, length, leb, take, Bool, Option, if◌then◌else◌, not, some, List, ◌&&◌, ◌+◌, true,
  is_some, ◌∷◌, ◌||◌, none, nat_eq, [],
}
use myblog.Base.Email.{email_matches}
use myblog.Base.Unicode.{Unicode}
use myblog.Kernel.Errors.{Result, ok, err, raised, business_rule_violation, forbidden, domain}
use myblog.Kernel.Events.{Instant, Value, str, null, DomainEvent, Stamp, record_event}
use myblog.Base.Python.{strip, match_line, or_none, or_text}

pub data Role : Type 0 where
  admin reader : Role

abbrev pub role_value : Role → Text
role_value admin = codes "admin"
role_value reader = codes "reader"

-- `events` is the list that `record_event` appends to.
pub record User : Type 0 where
  pub id : Text
  pub username : Text
  pub email : Text
  pub display_name : Text
  pub password_hash : Text
  pub role : Role
  pub is_active : Bool
  pub created_at : Instant
  pub last_login_at : Option Instant
  pub events : List DomainEvent

-- `[a-zA-Z0-9_.\-]`
abbrev pub is_username_char : ℕ → Bool
is_username_char c =
    (leb b'a' c && leb c b'z')
    || (leb b'A' c && leb c b'Z')
    || (leb b'0' c && leb c b'9')
    || nat_eq c b'_'
    || nat_eq c b'.'
    || nat_eq c b'-'

abbrev all_username : Text → Bool
all_username [] = true
all_username (c ∷ t) = is_username_char c && all_username t

abbrev pub username_body : Text → Bool
username_body t = all_username t && (leb 3 (length t) && leb (length t) 50)

-- `_USERNAME.match`
unfoldable pub username_matches : Text → Bool
username_matches = match_line username_body

unfoldable pub register : Unicode → Stamp → Text → Text → Text → Text → Role → Result User
unfolding strip
register u s username email display_name password_hash role =
    if not (username_matches username)
    then err (raised business_rule_violation)
    else if not (email_matches email)
    then err (raised business_rule_violation)
    else ok (record {
      id = s.new_id;
      username = u.lower username;
      email = u.lower email;
      display_name = or_text (strip display_name) username;
      password_hash = password_hash;
      role = role;
      is_active = true;
      created_at = s.now;
      last_login_at = none;
      events =
          record_event s "user.registered"
            (("user_id", str s.new_id)
              ∷ ("username", str (u.lower username))
              ∷ ("role", str (role_value role))
              ∷ [])
            [];
    })

-- `ensure_can_login`
abbrev pub ensure_can_login : User → Result (Unit {0})
ensure_can_login x = if x.is_active then ok tt else err (domain forbidden "account_disabled")

abbrev text_or_null : Option Text → Value
text_or_null none = null
text_or_null (some t) = str t

abbrev pub record_login : Stamp → Option Text → User → User
record_login s ip x = record x {
  last_login_at = some s.now;
  events =
      record_event s "user.logged_in"
        (("user_id", str x.id) ∷ ("username", str x.username) ∷ ("ip", text_or_null ip) ∷ [])
        x.events;
}

abbrev pub change_password_hash : Text → User → User
change_password_hash new_hash x = record x { password_hash = new_hash }

pub record RefreshToken : Type 0 where
  pub id : Text
  pub user_id : Text
  pub token_hash : Text
  pub family_id : Text
  pub expires_at : Instant
  pub created_at : Instant
  pub revoked_at : Option Instant
  pub replaced_by_id : Option Text
  pub created_by_ip : Option Text
  pub user_agent : Option Text

-- `(user_agent or "")[:256] or None`
abbrev pub short_agent : Option Text → Option Text
short_agent none = none
short_agent (some t) = or_none (some (take 256 t))

-- `family_id or new_id()`
abbrev pub family_or : Option Text → Text → Text
family_or none fresh = fresh
family_or (some f) fresh = or_text f fresh

-- `issue`: `s.new_id` names the token and `new_family` a new family.
abbrev pub issue :
    Stamp → Text → Text → Text → ℕ → Option Text → Option Text → Option Text → RefreshToken
issue s new_family user_id token_hash ttl family_id ip user_agent = record {
  id = s.new_id;
  user_id = user_id;
  token_hash = token_hash;
  family_id = family_or family_id new_family;
  expires_at = s.now + ttl;
  created_at = s.now;
  revoked_at = none;
  replaced_by_id = none;
  created_by_ip = ip;
  user_agent = short_agent user_agent;
}

-- At the instant `now`.
abbrev pub is_expired : Instant → RefreshToken → Bool
is_expired now t = leb t.expires_at now

abbrev pub is_revoked : RefreshToken → Bool
is_revoked t = is_some t.revoked_at

abbrev pub is_active : Instant → RefreshToken → Bool
is_active now t = not (is_expired now t) && not (is_revoked t)

abbrev pub revoke : Instant → Option Text → RefreshToken → RefreshToken
revoke now replaced_by_id t =
    if is_revoked t then t else record t { revoked_at = some now; replaced_by_id = replaced_by_id }
