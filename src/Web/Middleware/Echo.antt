-- ===== src/Web/Middleware/Echo.antt =====
-- Which identifier the answers to a request carry, and what the access log says of it:
-- libs/py-common/devblog_common/web/middleware.py.
use myblog.Base.{
  ℕ, Text, Bool-cases, inl, inr, some, List, [], ◌∷◌, ◌++◌, All, ◌≡◌, refl, true, false, ◌⊎◌,
  append_assoc, append-nil, sym, ◌∙◌, list_eq, number_eq,
}
use myblog.Kernel.Errors.{Result}
use myblog.Web.Correlation.{is_safe, chosen}
use myblog.Web.Middleware.{
  Message, response_start, other_message, App, returns, raises, sends, Request, http, Serving,
  Handling, header, Headers, request_id, incoming, send_wrapper, run_app, call, tagged,
  status_after, logged,
}

-- The browser reads this identifier of an answer.
abbrev pub Carries : Text → Message → Type 0
Carries cid (response_start status headers) = header request_id headers ≡ some cid
Carries cid (other_message t) = Unit

-- The status of the last answer that was started
abbrev pub last_status : ℕ → List Message → ℕ
last_status status [] = status
last_status status (response_start later headers ∷ ms) = last_status later ms
last_status status (other_message t ∷ ms) = last_status status ms

pub header-appended :
    (cid : Text) (hs : Headers) → header request_id (hs ++ ((request_id, cid) ∷ [])) ≡ some cid
unfolding list_eq number_eq
header-appended cid [] = refl
header-appended cid ((n, v) ∷ hs) = rw (header-appended cid hs) refl

tagged-Carries : (cid : Text) (m : Message) → Carries cid (tagged cid m)
tagged-Carries cid (response_start status headers) = header-appended cid headers
tagged-Carries cid (other_message t) = tt

status-tagged :
    (cid : Text) (m : Message) (n : ℕ) (ms : List Message)
    → last_status n (tagged cid m ∷ ms) ≡ last_status (status_after m n) ms
status-tagged cid (response_start status headers) n ms = refl
status-tagged cid (other_message t) n ms = refl

pub chosen-cases :
    (fresh value : Text)
    → is_safe fresh ≡ true
    → (is_safe (chosen fresh value) ≡ true)
      × (((is_safe value ≡ true) × (chosen fresh value ≡ value))
          ⊎ ((is_safe value ≡ false) × (chosen fresh value ≡ fresh)))
unfolding chosen
chosen-cases fresh value safe = elim (Bool-cases (is_safe value)) [
  | inl known ↦ rw known (known, inl (refl, refl))
  | inr strange ↦ rw strange (safe, inr (refl, refl))
]

module _ (server : List Message → Result (Unit {0})) where
  -- What the application does to the request that is handled
  record Served (cid : Text) (before after : Handling) : Type 0 where
    sent : List Message
    handed : after.serving.handed ≡ before.serving.handed ++ sent
    carry : All (Carries cid) sent
    status : after.status ≡ last_status before.status sent
    log : after.serving.log ≡ before.serving.log

  run_app-Served :
      (cid : Text) (app : App) (h : Handling)
      → Served cid h (run_app (send_wrapper server cid) app h).1
  unfolding send_wrapper
  run_app-Served cid returns h = record {
    sent = [];
    handed = sym (append-nil h.serving.handed);
    carry = tt;
    status = refl;
    log = refl;
  }
  run_app-Served cid (raises e) h = record {
    sent = [];
    handed = sym (append-nil h.serving.handed);
    carry = tt;
    status = refl;
    log = refl;
  }
  run_app-Served cid (sends m next) h =
      let (r, h') = send_wrapper server cid m h in
      let rest = run_app-Served cid (next r) h' in
      record {
        sent = tagged cid m ∷ rest.sent;
        handed = rest.handed ∙ append_assoc h.serving.handed (tagged cid m ∷ []) rest.sent;
        carry = (tagged-Carries cid m, rest.carry);
        status = rest.status ∙ sym (status-tagged cid m h.status rest.sent);
        log = rest.log;
      }

  -- An HTTP request, whatever the application does and however the server answers it: every answer
  -- that is started carries one identifier, which is safe if the fresh one is; it is the one that came with the
  -- request if that one is safe, and a fresh one otherwise. The access log has one more entry, with
  -- the status of the last answer that was started or 500, and none for the health checks and the
  -- metrics; and the context variable is again what it was.
  pub echo_lem :
      (fresh : Text) (app : Text → App) (q : Request) (s : Serving)
      → is_safe fresh ≡ true
      → let s' = (call server fresh app (http q) s).1 in
        (cid : Text) × (sent : List Message) × (is_safe cid ≡ true)
        × (((is_safe (incoming q.headers) ≡ true) × (cid ≡ incoming q.headers))
            ⊎ ((is_safe (incoming q.headers) ≡ false) × (cid ≡ fresh)))
        × (s'.handed ≡ s.handed ++ sent)
        × All (Carries cid) sent
        × (s'.log ≡ s.log ++ logged q.path (last_status 500 sent))
        × (s'.correlation_id ≡ s.correlation_id)
  unfolding call
  echo_lem fresh app q s safe =
      let cid = chosen fresh (incoming q.headers) in
      let which = chosen-cases fresh (incoming q.headers) safe in
      let served =
        run_app-Served cid (app cid)
          (record { serving = record s { correlation_id = cid }; status = 500 }) in
      (cid, served.sent, which.0, which.1, served.handed, served.carry, cc, refl)
