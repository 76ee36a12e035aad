-- ===== src/Tests/Problems.antt =====
-- The example of an exception that is answered behind the middleware.
use myblog.Base.{Text, codes, [], ◌∷◌, ◌≡◌, refl, true, some, list_eq, number_eq}
use myblog.Kernel.Errors.{ok, unauthorized}
use myblog.Web.Correlation.{is_safe}
use myblog.Web.Middleware.{Headers, response_start, other_message, header, request_id, logged}
use myblog.Web.Problems.{Body, Handled, domain_error, served, sent_by, problem_lem}
use myblog.Tests.Middleware.{server, fresh, ask, idle, fresh-is_safe}

-- A body is encoded as its code, and no header is added for it.
abbrev encode : Body → Text
encode b = b.code

abbrev rendered : Headers → Text → Headers
rendered hs t = hs

abbrev refused : Handled
refused = domain_error unauthorized (codes "invalid_token") (codes "no")

problem_lem_example :
    let (r, s') =
      served encode rendered server
        (λ ms. refl)
        (sent_by encode rendered)
        (λ p. refl)
        fresh
        refused
        ask
        idle in
    (cid : Text) × (hs : Headers) × (b : Body) × (is_safe cid ≡ true)
    × (header request_id hs ≡ some cid)
    × (hs ≡ (codes "WWW-Authenticate", codes "Bearer") ∷ (request_id, cid) ∷ [])
    × (b.correlation_id ≡ cid)
    × (b.status ≡ 401)
    × (r ≡ ok tt)
    × (s'.handed ≡ response_start 401 hs ∷ other_message b.code ∷ [])
    × (s'.log ≡ logged ask.path 401)
problem_lem_example =
    problem_lem encode rendered server (λ ms. refl) (sent_by encode rendered) (λ p. refl) fresh
      refused ask idle fresh-is_safe
