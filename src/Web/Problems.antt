-- ===== src/Web/Problems.antt =====
-- libs/py-common/devblog_common/web/errors.py: the answers to exceptions, behind the middleware of
-- middleware.py. How Starlette encodes a body, and the headers it adds for it, are parameters. The
-- handler of every other exception, which Starlette calls outside that middleware, is
-- `unhandled_error`.
use myblog.Base.{
  ℕ, Text, List, [], ◌∷◌, ◌++◌, ◌≡◌, refl, ap, ◌∙◌, append_assoc, true, codes, drop, if◌then◌else◌,
  ◌&&◌, leb, nat_eq, ◌+◌, ◌-◌, some, list_eq, number_eq,
}
use myblog.Kernel.Errors.{ErrorKind, Result, ok, err}
use myblog.Web.Errors.{status_of}
use myblog.Web.Correlation.{chosen, is_safe}
use myblog.Web.Middleware.Echo.{chosen-cases, header-appended}
use myblog.Web.Middleware.{
  Message, response_start, other_message, App, returns, raises, sends, send_wrapper, Request, http,
  Serving, Headers, header, request_id, incoming, call, logged,
}

pub record FieldError : Type 0 where
  pub field : Text
  pub message : Text

pub record Body : Type 0 where
  pub kind : Text
  pub title : Text
  pub status : ℕ
  pub detail : Text
  pub code : Text
  pub correlation_id : Text
  -- absent if empty
  pub errors : List FieldError

pub record Problem : Type 0 where
  pub status : ℕ
  pub body : Body
  pub headers : Headers

-- `replace("_", " ").capitalize()`, on ASCII, of which the codes are
abbrev pub lower_spaced : Text → Text
lower_spaced [] = []
lower_spaced (c ∷ t) =
    (if nat_eq c b'_' then b' ' else if leb 65 c && leb c 90 then c + 32 else c) ∷ lower_spaced t

abbrev pub raise_first : Text → Text
raise_first [] = []
raise_first (c ∷ t) = (if leb 97 c && leb c 122 then c - 32 else c) ∷ t

abbrev pub problem_title : Text → Text
problem_title code = raise_first (lower_spaced code)

abbrev pub challenge : ℕ → Headers
challenge status = if nat_eq status 401 then (codes "WWW-Authenticate", codes "Bearer") ∷ [] else []

-- `problem`, with the correlation identifier of the context
unfoldable pub problem_answer : Text → ℕ → Text → Text → List FieldError → Problem
problem_answer cid status code detail errors = record {
  status = status;
  body = record {
    kind = codes "https://devblog.local/problems/" ++ code;
    title = problem_title code;
    status = status;
    detail = detail;
    code = code;
    correlation_id = cid;
    errors = errors;
  };
  headers = challenge status;
}

-- `".".join(parts)`
abbrev pub dotted : List Text → Text
dotted [] = []
dotted (t ∷ []) = t
dotted (t ∷ t' ∷ ts) = t ++ b'.' ∷ dotted (t' ∷ ts)

-- An error of pydantic: where it is, and its message
pub record Detail : Type 0 where
  pub loc : List Text
  pub msg : Text

abbrev pub field_errors : List Detail → List FieldError
field_errors [] = []
field_errors (e ∷ es) = record { field = dotted (drop 1 e.loc); message = e.msg } ∷ field_errors es

-- The exceptions that have a handler of their own, with their texts
pub data Handled : Type 0 where
  domain_error : ErrorKind → Text → Text → Handled
  validation_error : List Detail → Handled
  http_exception : ℕ → Text → Handled

-- `_domain`, `_validation` and `_http`
unfoldable pub answer_to : Text → Handled → Problem
answer_to cid (domain_error k code message) = problem_answer cid (status_of k) code message []
answer_to cid (validation_error es) =
    problem_answer cid 422 (codes "validation_error") (codes "İstek doğrulanamadı")
      (field_errors es)
answer_to cid (http_exception status detail) =
    problem_answer cid status (codes "http_error") detail []

-- `_unhandled`
unfoldable pub unhandled_error : Text → Problem
unhandled_error cid =
    problem_answer cid 500 (codes "internal_error") (codes "Beklenmeyen bir hata oluştu") []

-- The two messages of ASGI that make an answer; `rendered` are the headers for the given ones and
-- the text of the body.
module _ (encode : Body → Text) (rendered : Headers → Text → Headers) where
  abbrev returned : Result (Unit {0}) → App
  returned (ok a) = returns
  returned (err e) = raises e

  abbrev pub sends_last : Text → Result (Unit {0}) → App
  sends_last t (ok a) = sends (other_message t) returned
  sends_last t (err e) = raises e

  abbrev pub sent_by : Problem → App
  sent_by p =
      let t = encode p.body in sends (response_start p.status (rendered p.headers t)) (sends_last t)

-- The status of an answer to a handled exception
abbrev pub expected_status : Handled → ℕ
expected_status (domain_error k code message) = status_of k
expected_status (validation_error es) = 422
expected_status (http_exception status detail) = status

answer_lem :
    (cid : Text) (e : Handled)
    → let p = answer_to cid e in
      (p.status ≡ expected_status e)
      × (p.body.status ≡ expected_status e)
      × (p.body.correlation_id ≡ cid)
      × (p.headers ≡ challenge (expected_status e))
unfolding answer_to problem_answer
answer_lem cid (domain_error k code message) = (refl, refl, refl, refl)
answer_lem cid (validation_error es) = (refl, refl, refl, refl)
answer_lem cid (http_exception status detail) = (refl, refl, refl, refl)

module _ (encode : Body → Text) (rendered : Headers → Text → Headers)
    (server : List Message → Result (Unit {0})) (takes : (ms : List Message) → server ms ≡ ok tt)
    (respond : Problem → App)
    (sends_problem : (p : Problem) → respond p ≡ sent_by encode rendered p) where
  -- A request whose application raises: Starlette calls the handler behind the middleware.
  abbrev pub served : Text → Handled → Request → Serving → Result (Unit {0}) × Serving
  served fresh e q = call server fresh (λ cid. respond (answer_to cid e)) (http q)

  served_lem :
      (fresh : Text) (e : Handled) (q : Request) (s : Serving)
      → let cid = chosen fresh (incoming q.headers) in
        let p = answer_to cid e in
        let hs = rendered p.headers (encode p.body) ++ (request_id, cid) ∷ [] in
        served fresh e q s ≡ (
          ok tt,
          record s {
            handed =
                (s.handed ++ response_start p.status hs ∷ []) ++ other_message (encode p.body) ∷ [];
            log = s.log ++ logged q.path p.status;
          },
        )
  unfolding call send_wrapper
  served_lem fresh e q s =
      let cid = chosen fresh (incoming q.headers) in
      let p = answer_to cid e in
      let start =
        response_start p.status (rendered p.headers (encode p.body) ++ (request_id, cid) ∷ []) in
      let body = other_message (encode p.body) in
      ap (λ app. call server fresh (λ id. app) (http q) s) (sends_problem p)
      ∙ rw (takes (s.handed ++ start ∷ []), takes ((s.handed ++ start ∷ []) ++ body ∷ [])) refl

  -- Where the server takes every message, a response sends its start and its body, and the fresh
  -- identifier is safe: an exception that has a handler of its own, and that an HTTP request raises
  -- before anything is sent, is answered by one start and one body. Both carry the same safe
  -- identifier, the one in a header and the other in the problem; both have the status that belongs
  -- to the exception, and so has the entry of the access log, if the path has one; and the answer
  -- asks for a Bearer token exactly when that status is 401.
  pub problem_lem :
      (fresh : Text) (e : Handled) (q : Request) (s : Serving)
      → is_safe fresh ≡ true
      → let (r, s') = served fresh e q s in
        (cid : Text) × (hs : Headers) × (b : Body) × (is_safe cid ≡ true)
        × (header request_id hs ≡ some cid)
        × (hs
            ≡ rendered
                (if nat_eq (expected_status e) 401
                  then (codes "WWW-Authenticate", codes "Bearer") ∷ []
                  else [])
                (encode b)
              ++ (request_id, cid) ∷ [])
        × (b.correlation_id ≡ cid)
        × (b.status ≡ expected_status e)
        × (r ≡ ok tt)
        × (s'.handed
            ≡ s.handed ++ response_start (expected_status e) hs ∷ other_message (encode b) ∷ [])
        × (s'.log ≡ s.log ++ logged q.path (expected_status e))
  problem_lem fresh e q s safe =
      let cid = chosen fresh (incoming q.headers) in
      let p = answer_to cid e in
      let hs = rendered p.headers (encode p.body) in
      let (known, _) = chosen-cases fresh (incoming q.headers) safe in
      let (status, same, same_id, asked) = answer_lem cid e in
      let start = response_start p.status (hs ++ (request_id, cid) ∷ []) in
      let body = other_message (encode p.body) in
      (
        cid,
        hs ++ (request_id, cid) ∷ [],
        p.body,
        known,
        header-appended cid hs,
        ap (λ g. rendered g (encode p.body) ++ (request_id, cid) ∷ []) asked,
        same_id,
        same,
        rw (served_lem fresh e q s) refl,
        rw (served_lem fresh e q s) (
            append_assoc s.handed (start ∷ []) (body ∷ [])
            ∙ ap (λ n. s.handed ++ response_start n (hs ++ (request_id, cid) ∷ []) ∷ body ∷ [])
                status),
        rw (served_lem fresh e q s) (ap (λ n. s.log ++ logged q.path n) status),
      )
