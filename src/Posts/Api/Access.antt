-- ===== src/Posts/Api/Access.antt =====
-- Who may use the administrators' routes.
use myblog.Kernel.Redis.{Redis}
use myblog.Base.{Text, Bool, Option, ◌≡◌, true, ◌⊎◌}
use myblog.Base.Unicode.{Unicode}
use myblog.Posts.ReadModel.{Collation}
use myblog.Kernel.Events.{Stamp}
use myblog.Web.Security.{Decoded, Principal, is_admin}
use myblog.Posts.Api.{admin, AdminRequest, route}
use myblog.Posts.Handlers.{PostStore}
use myblog.Web.Guards.{get_principal}
use myblog.Kernel.Errors.{ok, Exc, err}
use myblog.Web.Refusals.{IsRefusal, for_admin_lem}

module _ (R : Redis) (prefix : Text) (u : Unicode) (col : Collation) (s s' : Stamp)
    (with_redis : Bool) (decode : Text → Decoded) where
  -- Any request to the administrators' router: either the bearer of its token is an administrator
  -- and the request has the answer and the effect of its route for that principal, on the database
  -- and the outbox as they were; or the answer is 401 or 403 and the database and the outbox have not
  -- changed.
  pub admin_lem :
      (creds : Option Text) (request : AdminRequest) (st : PostStore R)
      → let (r, st') = admin R prefix u col s s' with_redis decode creds request st in
        ((p : Principal) × ((get_principal R with_redis decode creds st.world).0 ≡ ok p)
          × (is_admin p ≡ true)
          × ((w : R.State) × ((r, st')
                ≡ route R prefix u col s s' request p (record st { world = w }))))
        ⊎ ((e : Exc) × (r ≡ err e) × IsRefusal e × (st'.db ≡ st.db) × (st'.outbox ≡ st.outbox))
  unfolding admin
  admin_lem creds request st =
      for_admin_lem R with_redis decode creds (route R prefix u col s s' request) st
