-- ===== src/Web/Refusals.antt =====
-- What a request to an administrator's route may change before the sender is known.
use myblog.Kernel.Redis.{Redis}
use myblog.Kernel.Errors.{Exc, ok, err, Result, Result-cases, raised, forbidden}
use myblog.Web.Errors.{problem}
use myblog.Base.{
  Bool, ◌≡◌, Text, ◌⊎◌, Bool-cases, not, Option, inl, ◌==◌, some, codes, true, inr, subst, false,
  none, refl, list_eq, number_eq, string_eq, option_eq,
}
use myblog.Web.Security.{
  Decoded, verify_claims, Claims, is_on_list, verify, ensure_admin, verify_decoded, Principal,
  is_admin, expired_signature, claims, invalid,
}
use myblog.Web.Guards.{require_admin, for_admin, get_principal}
use myblog.Identity.Throttle.{revoked_key}
use myblog.Kernel.Exec.{Exec}
use myblog.Kernel.UnitOfWork.{Store}

-- 401 and 403
abbrev pub IsRefusal : Exc → Type 0
IsRefusal e = ((problem e).0 ≡ 401) ⊎ ((problem e).0 ≡ 403)

-- An answer, or a refusal
abbrev pub OnlyRefuses {ℓ} : {A : Type ℓ} → Result A → Type 0
OnlyRefuses (ok a) = Unit
OnlyRefuses (err e) = IsRefusal e

module _ (R : Redis) (with_redis : Bool) (decode : Text → Decoded) where
  pub list_answers :
      (jti : Text) (s : R.State) → (b : Bool) × ((is_on_list R with_redis decode jti s).0 ≡ ok b)
  list_answers jti s = elim (Bool-cases with_redis) [
    | inl on ↦ elim (Result-cases (R.exists (revoked_key jti) s).0) [
      | inl (b, told) ↦ (b, rw (on, told) refl)
      | inr (e, failed) ↦ (false, rw (on, failed) refl)
    ]
    | inr off ↦ (false, rw off refl)
  ]

  claims_refuse : (c : Claims) (s : R.State) → OnlyRefuses (verify_claims R with_redis decode c s).0
  unfolding verify_claims
  claims_refuse c s = elim (Bool-cases (not (c.typ == some (codes "access")))) [
    | inl other ↦ rw other (inl refl)
    | inr access ↦
        let (b, told) = list_answers c.jti s in
        elim (Bool-cases b) [
          | inl listed ↦ rw (access, told, listed) (inl refl)
          | inr free ↦ rw (access, told, free) tt
        ]
  ]

  principal_refuse :
      (creds : Option Text) (s : R.State)
      → OnlyRefuses (get_principal R with_redis decode creds s).0
  unfolding get_principal verify verify_decoded
  principal_refuse none s = inl refl
  principal_refuse (some token) s =
      elim (decode token) as (λ d. OnlyRefuses (verify_decoded R with_redis decode d s).0) [
        | expired_signature ↦ inl refl
        | invalid ↦ inl refl
        | claims c ↦ claims_refuse c s
      ]

  -- Who passes is an administrator.
  admin-cases :
      (creds : Option Text) (s : R.State)
      → ((p : Principal) × ((get_principal R with_redis decode creds s).0 ≡ ok p)
          × (is_admin p ≡ true)
          × ((require_admin R with_redis decode creds s).0 ≡ ok p))
        ⊎ ((e : Exc) × ((require_admin R with_redis decode creds s).0 ≡ err e) × IsRefusal e)
  unfolding require_admin ensure_admin
  admin-cases creds s = elim (Result-cases (get_principal R with_redis decode creds s).0) [
    | inr (e, refused) ↦
        inr (e, rw refused refl, subst OnlyRefuses refused (principal_refuse creds s))
    | inl (p, known) ↦ elim (Bool-cases (is_admin p)) [
      | inl admin ↦ inl (p, known, admin, rw (known, admin) refl)
      | inr reader ↦ inr (raised forbidden, rw (known, reader) refl, inr refl)
    ]
  ]

  -- A request to an administrator's route, whatever the route does: either the bearer of the token
  -- is an administrator and the route runs for that principal, or the answer is 401 or 403 and the
  -- database and the outbox are as they were.
  pub for_admin_lem {κ} :
      {D : Type 0} {B : Type κ} (creds : Option Text) (route : Principal → Exec (Store D R.State) B)
      (st : Store D R.State)
      → let (r, st') = for_admin R with_redis decode creds route st in
        ((p : Principal) × ((get_principal R with_redis decode creds st.world).0 ≡ ok p)
          × (is_admin p ≡ true)
          × ((w : R.State) × ((r, st') ≡ route p (record st { world = w }))))
        ⊎ ((e : Exc) × (r ≡ err e) × IsRefusal e × (st'.db ≡ st.db) × (st'.outbox ≡ st.outbox))
  unfolding for_admin
  for_admin_lem creds route st = elim (admin-cases creds st.world) [
    | inl (p, known, admin, passed) ↦
        inl
          (p, known, admin, ((require_admin R with_redis decode creds st.world).1, rw passed refl))
    | inr (e, refused, why) ↦ inr (e, rw refused refl, why, rw refused refl, rw refused refl)
  ]
