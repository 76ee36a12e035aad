-- ===== src/Tests/Access.antt =====
-- The examples of requests to the services.
use myblog.Posts.Api as PostApi
use myblog.Tests.Sample.{counter, prefix, ascii, stamp, code_points, later, post_store, post_db}
use myblog.Posts.Api.{delete_post}
use myblog.Identity.Api.{Request}
use myblog.Base.{Text, option_eq, none, codes, some, true, ◌≡◌, ℕ, ◌⊎◌, []}
use myblog.Web.Security.{Decoded, claims, Principal, is_admin}
use myblog.Web.Guards.{get_principal}
use myblog.Kernel.Errors.{ok, err, Exc}
use myblog.Web.Refusals.{IsRefusal}
use myblog.Posts.Api.Access.{admin_lem}

-- A token that is no administrator's.
abbrev reader_claims : Text → Decoded
reader_claims t = claims (record {
  typ = some (codes "access");
  sub = codes "u2";
  username = none;
  name = none;
  role = none;
  jti = codes "j2";
  exp = 100;
})

abbrev removal : PostApi.AdminRequest
removal = delete_post (codes "p1")

admin_lem_example :
    let (r, st') =
      PostApi.admin counter prefix ascii code_points stamp later true reader_claims
        (some (codes "t"))
        removal
        post_store in
    ((p : Principal) × ((get_principal counter true reader_claims (some (codes "t")) 0).0 ≡ ok p)
      × (is_admin p ≡ true)
      × ((w : ℕ) × ((r, st')
            ≡ PostApi.route counter prefix ascii code_points stamp later removal p
                (record post_store { world = w }))))
    ⊎ ((e : Exc) × (r ≡ err e) × IsRefusal e × (st'.db ≡ post_db) × (st'.outbox ≡ []))
admin_lem_example =
    admin_lem counter prefix ascii code_points stamp later true reader_claims (some (codes "t"))
      removal post_store

abbrev bare_request : Request
bare_request = record {
  host = none;
  user_agent = none;
  refresh_cookie = some (codes "raw1");
  csrf_header = none;
  bearer = none;
}
