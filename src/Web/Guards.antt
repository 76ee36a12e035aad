-- ===== src/Web/Guards.antt =====
-- The dependencies of the routes that ask who sends a request: app/api/dependencies.py of
-- services/post-service and services/comment-service, which are the same.
use myblog.Kernel.Redis.{Redis}
use myblog.Base.{Bool, Text, Option, some, none}
use myblog.Web.Security.{Decoded, Principal, unauthorized_for, ensure_admin, verify}
use myblog.Kernel.Exec.{Exec, throw, ◌>>=◌, lift}
use myblog.Kernel.UnitOfWork.{Store, on_world}

module _ (R : Redis) (with_redis : Bool) (decode : Text → Decoded) where
  -- `get_principal`, with the credentials of the `Authorization` header
  unfoldable pub get_principal : Option Text → Exec R.State Principal
  get_principal none = throw (unauthorized_for "missing_token")
  get_principal (some token) = verify R with_redis decode token

  unfoldable pub require_admin : Option Text → Exec R.State Principal
  require_admin creds = do principal ← get_principal creds; lift (ensure_admin principal)

  -- A route whose router has the dependency `require_admin`.
  unfoldable pub for_admin {κ} :
      {D : Type 0} {B : Type κ}
      → Option Text
      → (Principal → Exec (Store D R.State) B)
      → Exec (Store D R.State) B
  for_admin creds route = do principal ← on_world (require_admin creds); route principal
