-- ===== src/Identity/Handlers/Rotation.antt =====
-- A refresh token works once, and its second use ends the session for everybody who holds it.
use myblog.Base.{
  list_eq, number_eq, ℕ, Text, unique, List, some, row_at, true, ◌≡◌, ◌++◌, update_at, has_key, [],
  ◌∷◌, refl, false, unique-append, row_at-append_found,
}
use myblog.Base.Unicode.{Unicode}
use myblog.Kernel.Redis.{Redis}
use myblog.Identity.Repository.{
  user_aggregate, identity_schema, token_key, user_key, token_digest, UserModel, to_user,
}
use myblog.Identity.Handlers.{
  IdentityStore, refresh, unauthorized_as, new_refresh_token, auth_result,
}
use myblog.Identity.Commands.{Security, Draw, RefreshCommand}
use myblog.Identity.Domain.{RefreshToken, is_revoked, is_expired}
use myblog.Kernel.Errors.{err, ok}
use myblog.Base.OtherKeys.{has_key-update_other, unique-update_other, row_at-update_other}
use myblog.Identity.Handlers.Reuse.{IsValid, family_revoked, refresh_reused, revoke_rows-family}

module _ (R : Redis) (max_attempts window_minutes : ℕ) (u : Unicode) (sec : Security)
    (refresh_ttl : ℕ) (d : Draw) (cmd : RefreshCommand) (st : IdentityStore R)
    (t : RefreshToken) where
  -- The token that a refresh gives, and the store after it.
  abbrev pub next_token : UserModel → RefreshToken
  next_token m =
      new_refresh_token R max_attempts window_minutes u sec refresh_ttl d m.id (some t.family_id)
        cmd.ip cmd.user_agent

  -- What is written to the row of the token that was used.
  abbrev pub used : RefreshToken → RefreshToken
  used x = record x { revoked_at = some d.stamp.now; replaced_by_id = some d.stamp.new_id }

  abbrev pub rotated_rows : List RefreshToken
  rotated_rows = update_at token_key t.id used st.db.refresh_tokens

  abbrev pub rotated : UserModel → IdentityStore R
  rotated m = record st {
    db = record (st.db) { refresh_tokens = rotated_rows ++ next_token m ∷ [] };
    outbox = st.outbox ++ [];
  }

  module _ (v : IsValid st.db)
      (found : row_at token_digest (sec.digest cmd.refresh_token) st.db.refresh_tokens ≡ some t)
      (revoked : is_revoked t ≡ false) (in_time : is_expired d.stamp.now t ≡ false) (m : UserModel)
      (owner : row_at user_key t.user_id st.db.users ≡ some m) (active : m.is_active ≡ true)
      (fresh_id : has_key token_key d.stamp.new_id st.db.refresh_tokens ≡ false)
      (fresh_digest : has_key token_digest (sec.digest d.raw_token) st.db.refresh_tokens
        ≡ false) where
    rotated_unique :
        (key : RefreshToken → Text)
        → ((x : RefreshToken) → key (used x) ≡ key x)
        → unique key st.db.refresh_tokens ≡ true
        → has_key key (key (next_token m)) st.db.refresh_tokens ≡ false
        → unique key (rotated_rows ++ next_token m ∷ []) ≡ true
    rotated_unique key same ids fresh =
        unique-append key rotated_rows (next_token m)
          (rw (unique-update_other token_key key used same t.id st.db.refresh_tokens) ids)
          (rw
            (has_key-update_other token_key key used same t.id (key (next_token m))
              st.db.refresh_tokens)
            fresh)

    pub refresh_rotates : refresh R max_attempts window_minutes u sec refresh_ttl d cmd st ≡ (
      ok (auth_result R max_attempts window_minutes u sec refresh_ttl d (to_user m) (next_token m)),
      rotated m,
    )
    unfolding refresh
    refresh_rotates = rw (
      found,
      revoked,
      in_time,
      owner,
      active,
      v.user_ids,
      v.user_names,
      v.user_emails,
      rotated_unique token_key (λ x. refl) v.token_ids fresh_id,
      rotated_unique token_digest (λ x. refl) v.digests fresh_digest,
    )

    rotated-IsValid : IsValid (rotated m).db
    rotated-IsValid = record {
      user_ids = v.user_ids;
      user_names = v.user_names;
      user_emails = v.user_emails;
      token_ids = rotated_unique token_key (λ x. refl) v.token_ids fresh_id;
      digests = rotated_unique token_digest (λ x. refl) v.digests fresh_digest;
    }

    used_found :
        row_at token_digest (sec.digest cmd.refresh_token) (rotated m).db.refresh_tokens
        ≡ some (used t)
    used_found =
        row_at-append_found token_digest (sec.digest cmd.refresh_token) rotated_rows
          (next_token m ∷ []) (used t)
          (row_at-update_other token_key token_digest used (λ x. refl)
            (sec.digest cmd.refresh_token) st.db.refresh_tokens t v.token_ids found)

    -- A refresh token works once. The keys of the tables are unique, the token is found by its
    -- digest, neither revoked nor expired, its owner is an active user, and the new token's
    -- identifier and digest are fresh. After this refresh, a refresh with the same token, drawn
    -- anyhow and at any time, is refused as a reuse, and then every token of the family is revoked.
    pub refresh_single_use :
        (d' : Draw) (cmd' : RefreshCommand)
        → cmd'.refresh_token ≡ cmd.refresh_token
        → let (r, st') =
            refresh R max_attempts window_minutes u sec refresh_ttl d' cmd'
              (refresh R max_attempts window_minutes u sec refresh_ttl d cmd st).1 in
          (r ≡ err (unauthorized_as "refresh_token_reused"))
          × (family_revoked t.family_id st'.db.refresh_tokens ≡ true)
    refresh_single_use d' cmd' same =
        rw
          (
            refresh_rotates,
            refresh_reused R max_attempts window_minutes u sec refresh_ttl d' cmd' (rotated m)
                rotated-IsValid (used t) (rw same used_found) refl,
          )
          (refl, revoke_rows-family d'.stamp.now t.family_id (rotated m).db.refresh_tokens)
