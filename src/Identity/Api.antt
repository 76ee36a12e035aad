-- ===== src/Identity/Api.antt =====
-- services/identity-service/app/api/dependencies.py and app/api/routers/auth.py, with the
-- checks of app/api/schemas.py on the bodies; a dependency of a route runs before them.
use myblog.Base.{
  Option, Text, ℕ, Bool, not, ◌==◌, some, codes, list_eq, number_eq, string_eq, option_eq, none,
  if◌then◌else◌, ◌&&◌,
}
use myblog.Identity.Handlers.{
  IdentityStore, unauthorized_as, login, logout, refresh, change_password, get_user,
}
use myblog.Identity.Commands.{AuthResult, UserDto, Security, Draw}
use myblog.Web.Security.{verify}
use myblog.Kernel.Errors.{unauthorized}
use myblog.Kernel.Errors.{Result, Exc, ok, domain, err, forbidden, request_validation_error}
use myblog.Web.Security.{Principal, Decoded}
use myblog.Kernel.Redis.{Redis}
use myblog.Base.Unicode.{Unicode}
use myblog.Kernel.Exec.{Exec, ◌>>=◌, ◌>>◌, throw_if}
use myblog.Kernel.UnitOfWork.{on_world}
use myblog.Base.Python.{or_none}
use myblog.Web.Fields.{between}
use myblog.Web.Guards.{get_principal}

-- The refresh cookie of the response: untouched, set to a token, or deleted. Its age, path and flags
-- are settings.
pub data CookieChange : Type 0 where
  kept deleted : CookieChange
  set : Text → CookieChange

-- `TokenResponse`
pub record TokenResponse : Type 0 where
  pub access_token : Text
  pub expires_in : ℕ
  pub user : UserDto

-- An answer or an exception, with what the route does to the cookie of its `response` parameter.
-- FastAPI sends that with an answer; an exception is answered by its handler, with a response of its
-- own.
abbrev pub Response : Type 0 → Type 0
Response A = Result A × CookieChange

abbrev pub token_response : AuthResult → TokenResponse
token_response r = record {
  access_token = r.access_token;
  expires_in = r.expires_in;
  user = r.user;
}

-- `_csrf_guard`
abbrev pub csrf_missing : Option Text → Bool
csrf_missing header = not (header == some (codes "1"))

abbrev pub csrf_error : Exc
csrf_error = domain forbidden "csrf_header_missing"

-- `_set_refresh_cookie` and the body of the answer
abbrev pub signed_in : Result AuthResult → Response TokenResponse
signed_in (ok r) = (ok (token_response r), set r.refresh_token)
signed_in (err e) = (err e, kept)

-- `except UnauthorizedError`: the cookie is deleted and the exception goes on.
abbrev pub refreshed : Result AuthResult → Response TokenResponse
refreshed (err (domain unauthorized code)) = (err (unauthorized_as code), deleted)
refreshed r = signed_in r

-- What a route reads of a request
pub record Request : Type 0 where
  pub host : Option Text
  pub user_agent : Option Text
  pub refresh_cookie : Option Text
  pub csrf_header : Option Text
  -- The token of the `Authorization` header, where its scheme is Bearer
  pub bearer : Option Text

-- `except UnauthorizedError: return None`
abbrev pub or_nobody : Result Principal → Result (Option Principal)
or_nobody (ok p) = ok (some p)
or_nobody (err (domain unauthorized code)) = ok none
or_nobody (err e) = err e

abbrev pub jti_of : Option Principal → Option Text
jti_of none = none
jti_of (some p) = some p.jti

abbrev pub exp_of : Option Principal → Option ℕ
exp_of none = none
exp_of (some p) = some p.exp

-- The fields of `LoginRequest`
abbrev pub accepts_login : Text → Text → Bool
accepts_login username password = between 3 50 username && between 1 128 password

-- The fields of `ChangePasswordRequest`
abbrev pub accepts_passwords : Text → Text → Bool
accepts_passwords current_password new_password =
    between 1 128 current_password && between 10 128 new_password

module _ (R : Redis) (with_redis : Bool) (decode : Text → Decoded) where
  unfoldable pub get_optional_principal : Option Text → Exec R.State (Option Principal)
  get_optional_principal none s = (ok none, s)
  get_optional_principal (some token) s =
      let (r, s') = verify R with_redis decode token s in (or_nobody r, s')

module _ (R : Redis) (max_attempts window_minutes : ℕ) (u : Unicode) (sec : Security)
    (refresh_ttl : ℕ) (d : Draw) where
  unfoldable pub login_route :
      Text → Text → Request → IdentityStore R → Response TokenResponse × IdentityStore R
  login_route username password req st =
      if not (accepts_login username password)
      then ((err request_validation_error, kept), st)
      else let (r, st') =
          login R max_attempts window_minutes u sec refresh_ttl d
            (record {
              username = username;
              password = password;
              ip = req.host;
              user_agent = req.user_agent;
            })
            st in
        (signed_in r, st')

  -- From behind the guard: `if not raw: raise`
  abbrev pub refresh_with :
      Option Text → Request → IdentityStore R → Response TokenResponse × IdentityStore R
  refresh_with none req st = ((err (unauthorized_as "missing_refresh_token"), kept), st)
  refresh_with (some raw) req st =
      let (r, st') =
        refresh R max_attempts window_minutes u sec refresh_ttl d
          (record { refresh_token = raw; ip = req.host; user_agent = req.user_agent }) st in
      (refreshed r, st')

  unfoldable pub refresh_route :
      Request → IdentityStore R → Response TokenResponse × IdentityStore R
  refresh_route req st =
      if csrf_missing req.csrf_header
      then ((err csrf_error, kept), st)
      else refresh_with (or_none req.refresh_cookie) req st

  abbrev pub signed_out : Result (Unit {0}) → Response (Unit {0})
  signed_out (ok t) = (ok t, deleted)
  signed_out (err e) = (err e, kept)

  -- The body of the route, for the principal of the dependency.
  abbrev pub logout_as :
      Request → Result (Option Principal) → IdentityStore R → Response (Unit {0}) × IdentityStore R
  logout_as req (err e) st = ((err e, kept), st)
  logout_as req (ok principal) st =
      if csrf_missing req.csrf_header
      then ((err csrf_error, kept), st)
      else let (r, st') =
          logout R max_attempts window_minutes u sec refresh_ttl d
            (record {
              refresh_token = req.refresh_cookie;
              access_jti = jti_of principal;
              access_exp = exp_of principal;
            })
            st in
        (signed_out r, st')

  unfoldable pub logout_route :
      Bool → (Text → Decoded) → Request → IdentityStore R → Response (Unit {0}) × IdentityStore R
  logout_route with_redis decode req st =
      let (r, w) = get_optional_principal R with_redis decode req.bearer st.world in
      logout_as req r (record st { world = w })

  unfoldable pub change_password_route :
      Bool → (Text → Decoded) → Text → Text → Request → Exec (IdentityStore R) (Unit {0})
  change_password_route with_redis decode current_password new_password req = do
    principal ← on_world (get_principal R with_redis decode req.bearer)
    throw_if (not (accepts_passwords current_password new_password)) request_validation_error
    change_password R max_attempts window_minutes u sec refresh_ttl d (record {
      user_id = principal.user_id;
      current_password = current_password;
      new_password = new_password;
    })

  -- app/api/routers/users.py, `me`
  unfoldable pub me_route : Bool → (Text → Decoded) → Request → Exec (IdentityStore R) UserDto
  me_route with_redis decode req = do
    principal ← on_world (get_principal R with_redis decode req.bearer)
    get_user R max_attempts window_minutes u sec refresh_ttl principal.user_id
