-- ===== src/Identity/Handlers/Logout.antt =====
-- What a logout ends: the session of the refresh token, and the access token.
use myblog.Kernel.Redis
use myblog.Web.Security.{verify}
use myblog.Identity.Handlers.{IdentityStore, logout}
use myblog.Identity.Commands.{Security, Draw, LogoutCommand}
use myblog.Identity.Handlers.Reuse.{
  IsValid, ended, unique-revoke_rows, family_revoked, revoke_rows-family,
}
use myblog.Base.{
  ℕ, Text, row_at, ◌≡◌, some, list_eq, number_eq, string_eq, option_eq, refl, max, ◌∷◌, ◌*◌, suc,
  ◌-◌, ◌/◌, true, codes, ◌+◌, ◌≤◌, ◌<◌, arith,
}
use myblog.Base.Unicode.{Unicode}
use myblog.Identity.Domain.{RefreshToken}
use myblog.Identity.Repository.{token_digest, token_key}
use myblog.Kernel.Errors.{ok, Result, err}
use myblog.Identity.Throttle.{revoked_key, revoke_access_token}
use myblog.Web.Security.{Decoded, Claims, claims, unauthorized_for}

module _ (R : Redis.Redis) (max_attempts window_minutes : ℕ) (u : Unicode) (sec : Security)
    (refresh_ttl : ℕ) (d : Draw) where
  -- `max(int(exp - now), 1)`
  abbrev ttl_of : ℕ → ℕ
  ttl_of exp = max ((exp * 1000000 - d.stamp.now) / 1000000) 1

  abbrev full_command : Text → Text → ℕ → LogoutCommand
  full_command raw jti exp = record {
    refresh_token = some raw;
    access_jti = some jti;
    access_exp = some exp;
  }

  module _ (st : IdentityStore R) (t : RefreshToken) (c j exp : ℕ) (raw jti : Text) where
    abbrev pub left : Result (Unit {0}) × IdentityStore R
    left =
        logout R max_attempts window_minutes u sec refresh_ttl d
          (full_command (c ∷ raw) (j ∷ jti) (suc exp)) st

    abbrev ended_world : R.State
    ended_world = (R.set_flag (revoked_key (j ∷ jti)) (ttl_of (suc exp)) st.world).1

    logout_full :
        IsValid st.db
        → row_at token_digest (sec.digest (c ∷ raw)) st.db.refresh_tokens ≡ some t
        → (R.set_flag (revoked_key (j ∷ jti)) (ttl_of (suc exp)) st.world).0 ≡ ok tt
        → left ≡ (
          ok tt,
          record (ended R max_attempts window_minutes u sec refresh_ttl d t.family_id st) {
            world = ended_world;
          },
        )
    unfolding logout revoke_access_token
    logout_full v found written = rw (
      found,
      v.user_ids,
      v.user_names,
      v.user_emails,
      unique-revoke_rows token_key (λ now x. refl) d.stamp.now t.family_id st.db.refresh_tokens,
      v.token_ids,
      unique-revoke_rows token_digest (λ now x. refl) d.stamp.now t.family_id st.db.refresh_tokens,
      v.digests,
      written,
    )

    refused :
        (clock : Redis.Expiring R)
        → (R.set_flag (revoked_key (j ∷ jti)) (ttl_of (suc exp)) st.world).0 ≡ ok tt
        → (t : ℕ) → t < ttl_of (suc exp) * 1000000
        → (decode : Text → Decoded) (token : Text) (k : Claims) → decode token ≡ claims k
        → k.typ ≡ some (codes "access")
        → k.jti ≡ j ∷ jti
        → (verify R true decode token (clock.later t ended_world)).0
          ≡ err (unauthorized_for "token_revoked")
    unfolding verify list_eq number_eq option_eq
    refused clock written t soon decode token k decoded access same =
        rw (decoded, access, same, clock.set_exists _ _ t _ written soon)

    -- The keys of the tables are unique, the refresh token is found by its digest, and Redis takes
    -- the write and keeps a key that is set for its time. Then a logout with both tokens succeeds,
    -- every token of the family is revoked, and the access token with that `jti` is refused as
    -- revoked by whoever checks it with this Redis, however it is decoded, at any time after the
    -- logout and not later than one second before the `exp` that the logout was given.
    pub logout_ends :
        (clock : Redis.Expiring R)
        → IsValid st.db
        → row_at token_digest (sec.digest (c ∷ raw)) st.db.refresh_tokens ≡ some t
        → (R.set_flag (revoked_key (j ∷ jti)) (ttl_of (suc exp)) st.world).0 ≡ ok tt
        → (left.0 ≡ ok tt)
          × (family_revoked t.family_id left.1.db.refresh_tokens ≡ true)
          × ((passed : ℕ) (decode : Text → Decoded) (token : Text) (k : Claims)
              → d.stamp.now + passed + 1000000 ≤ suc exp * 1000000
              → decode token ≡ claims k
              → k.typ ≡ some (codes "access")
              → k.jti ≡ j ∷ jti
              → (verify R true decode token (clock.later passed left.1.world)).0
                ≡ err (unauthorized_for "token_revoked"))
    logout_ends clock v found written = rw (logout_full v found written) (
      refl,
      revoke_rows-family d.stamp.now t.family_id st.db.refresh_tokens,
      λ passed decode token k soon.
          refused clock written passed (omega (arith, soon)) decode token k,
    )
