-- ===== src/Tests/Middleware.antt =====
-- The example of a request that passes through the middleware.
use myblog.Base.{
  Text, codes, [], ◌∷◌, List, All, ◌≡◌, refl, true, false, ◌⊎◌, ◌++◌, list_eq, number_eq,
}
use myblog.Kernel.Errors.{Result, ok}
use myblog.Web.Correlation.{is_safe, chosen}
use myblog.Web.Middleware.{
  Message, response_start, other_message, App, returns, sends, Request, http, Serving, call,
  incoming, logged,
}
use myblog.Web.Middleware.Echo.{echo_lem, Carries, last_status}

abbrev pub server : List Message → Result (Unit {0})
server messages = ok tt

abbrev page : Text → App
page cid =
    sends (response_start 404 []) (λ r. sends (other_message (codes "Not Found")) (λ r. returns))

abbrev pub fresh : Text
fresh = codes "0b5f"

abbrev pub ask : Request
ask = record { headers = (codes "x-correlation-id", codes "r-7") ∷ []; path = codes "/api/posts" }

abbrev pub idle : Serving
idle = record { correlation_id = codes "-"; handed = []; log = [] }

ask_run : call server fresh page (http ask) idle ≡ (
  ok tt,
  record {
    correlation_id = codes "-";
    handed =
        response_start 404 ((codes "x-request-id", codes "r-7") ∷ [])
        ∷ other_message (codes "Not Found")
        ∷ [];
    log = record { path = codes "/api/posts"; status = 404 } ∷ [];
  },
)
unfolding call chosen is_safe list_eq number_eq
ask_run = refl

pub fresh-is_safe : is_safe fresh ≡ true
unfolding is_safe
fresh-is_safe = refl

echo_lem_example :
    let s' = (call server fresh page (http ask) idle).1 in
    (cid : Text) × (sent : List Message) × (is_safe cid ≡ true)
    × (((is_safe (incoming ask.headers) ≡ true) × (cid ≡ incoming ask.headers))
        ⊎ ((is_safe (incoming ask.headers) ≡ false) × (cid ≡ fresh)))
    × (s'.handed ≡ [] ++ sent)
    × All (Carries cid) sent
    × (s'.log ≡ [] ++ logged ask.path (last_status 500 sent))
    × (s'.correlation_id ≡ codes "-")
echo_lem_example = echo_lem server fresh page ask idle fresh-is_safe
