-- ===== src/Posts/Columns/Reached.antt =====
-- The tables of post-service after any requests to the administrators' routes and any events about
-- comments: app/api/routers/admin.py and integration_handlers.py.
use myblog.Base.{
  Text, Option, none, some, ◌<◌, ◌^◌, length, Bool, Bool-cases, inl, inr, ◌≡◌, refl, subst, not,
  ◌==◌, codes, list_eq, number_eq, string_eq, option_eq,
}
use myblog.Base.Unicode.{Unicode}
use myblog.Kernel.Errors.{ok}
use myblog.Kernel.Events.{Stamp, Envelope}
use myblog.Kernel.Redis.{Redis}
use myblog.Web.Security.{
  Decoded, Principal, Claims, claims, expired_signature, invalid, principal_of, verify_decoded,
  verify, verify_claims,
}
use myblog.Web.Guards.{get_principal}
use myblog.Web.Refusals.{list_answers}
use myblog.Posts.Handlers.{PostStore, handle_comment_event}
use myblog.Posts.ReadModel.{Collation}
use myblog.Posts.Api.{AdminRequest, admin}
use myblog.Posts.Api.Access.{admin_lem}
use myblog.Posts.Columns.{Fits, ShortDb}
use myblog.Posts.Columns.Routes.{FitsImages, FitsPrincipal, route-fits}
use myblog.Posts.Columns.Others.{comment_event-fits}

-- What the tokens say of their users fits.
abbrev pub FitsTokens : (Text → Decoded) → Type 0
FitsTokens decode = (t : Text) (c : Claims) → decode t ≡ claims c → FitsPrincipal (principal_of c)

module _ (R : Redis) (prefix : Text) (u : Unicode) (col : Collation) (with_redis : Bool)
    (decode : Text → Decoded) where
  -- The stores that a store comes to. What else the processes do (the reads, the relay, Redis)
  -- leaves the tables.
  pub data Reached (first : PostStore R) : PostStore R → Type 1 where
    start : Reached first first
    request :
        (s s' : Stamp) (creds : Option Text) (r : AdminRequest) (st : PostStore R)
        → Fits 36 s.new_id
        → FitsImages r
        → length st.db.posts < 10 ^ 18
        → Reached first st
        → Reached first (admin R prefix u col s s' with_redis decode creds r st).1
    event :
        (e : Envelope) (st : PostStore R)
        → Reached first st
        → Reached first (handle_comment_event R prefix e st).1
    elsewhere : (st st' : PostStore R) → st'.db ≡ st.db → Reached first st → Reached first st'

  claims-principal :
      (c : Claims) (p : Principal) (w : R.State)
      → (verify_claims R with_redis decode c w).0 ≡ ok p
      → principal_of c ≡ p
  unfolding verify_claims
  claims-principal c p w h = elim (Bool-cases (not (c.typ == some (codes "access")))) [
    | inl other ↦ let bad = rw other at h in cc
    | inr access ↦
        let (b, told) = list_answers R with_redis decode c.jti w in
        elim (Bool-cases b) [
          | inl listed ↦ let bad = rw (access, told, listed) at h in cc
          | inr free ↦ let same = rw (access, told, free) at h in cc
        ]
  ]

  decoded-fits :
      (d : Decoded) (p : Principal) (w : R.State)
      → ((c : Claims) → d ≡ claims c → FitsPrincipal (principal_of c))
      → (verify_decoded R with_redis decode d w).0 ≡ ok p
      → FitsPrincipal p
  unfolding verify_decoded
  decoded-fits expired_signature p w h e = cc
  decoded-fits invalid p w h e = cc
  decoded-fits (claims c) p w h e = subst FitsPrincipal (claims-principal c p w e) (h c refl)

  principal-fits :
      (creds : Option Text) (p : Principal) (w : R.State)
      → FitsTokens decode
      → (get_principal R with_redis decode creds w).0 ≡ ok p
      → FitsPrincipal p
  unfolding get_principal verify
  principal-fits none p w tokens h = cc
  principal-fits (some token) p w tokens h = decoded-fits (decode token) p w (tokens token) h

  admin-fits :
      (s s' : Stamp) (creds : Option Text) (r : AdminRequest) (st : PostStore R)
      → FitsTokens decode
      → Fits 36 s.new_id
      → FitsImages r
      → length st.db.posts < 10 ^ 18
      → ShortDb st.db
      → ShortDb (admin R prefix u col s s' with_redis decode creds r st).1.db
  admin-fits s s' creds r st tokens short image few fits =
      elim (admin_lem R prefix u col s s' with_redis decode creds r st) [
        | inl (p, known, allowed, (w, same)) ↦ subst ShortDb (cc) (
            route-fits R prefix u col s s' r p (record st { world = w }) short
              (principal-fits creds p st.world tokens known) image few fits)
        | inr (e, refused, refusal, kept, sent) ↦ subst ShortDb (cc) fits
      ]

  -- In code points, what the administrators' routes and the events keep of every row.
  pub reached-short :
      (first st : PostStore R)
      → FitsTokens decode
      → ShortDb first.db
      → Reached first st
      → ShortDb st.db
  reached-short first _ tokens fits start = fits
  reached-short first _ tokens fits (request s s' creds r st short image few before) =
      admin-fits s s' creds r st tokens short image few (reached-short first st tokens fits before)
  reached-short first _ tokens fits (event e st before) =
      comment_event-fits R prefix e st (reached-short first st tokens fits before)
  reached-short first _ tokens fits (elsewhere st st' same before) =
      subst ShortDb (cc) (reached-short first st tokens fits before)
