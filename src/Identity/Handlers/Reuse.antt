-- ===== src/Identity/Handlers/Reuse.antt =====
-- A token that was used before: the session of its family ends.
use myblog.Base.{
  list_eq, number_eq, ℕ, Text, unique, List, some, row_at, Bool, true, ◌≡◌, ◌++◌, has_key, [], ◌∷◌,
  if◌then◌else◌, arith, ◌==◌, refl, ◌&&◌,
}
use myblog.Base.Unicode.{Unicode}
use myblog.Kernel.Redis.{Redis}
use myblog.Identity.Repository.{
  user_aggregate, identity_schema, Db, token_key, revoke_rows, user_key, token_digest, user_name,
  user_email,
}
use myblog.Identity.Handlers.{IdentityStore, refresh, unauthorized_as}
use myblog.Identity.Commands.{Security, Draw, RefreshCommand, AuthResult}
use myblog.Identity.Domain.{RefreshToken, is_revoked}
use myblog.Kernel.Events.{Instant}
use myblog.Kernel.Errors.{Result, err}

-- What the database enforces.
pub record IsValid (db : Db) : Type 0 where
  pub user_ids : unique user_key db.users ≡ true
  pub user_names : unique user_name db.users ≡ true
  pub user_emails : unique user_email db.users ≡ true
  pub token_ids : unique token_key db.refresh_tokens ≡ true
  pub digests : unique token_digest db.refresh_tokens ≡ true

-- No token of the family can be used any more.
abbrev pub family_revoked : Text → List RefreshToken → Bool
family_revoked family [] = true
family_revoked family (t ∷ rows) =
    (if t.family_id == family then is_revoked t else true) && family_revoked family rows

pub revoke_rows-family :
    (now : Instant) (family : Text) (rows : List RefreshToken)
    → family_revoked family (revoke_rows now family rows) ≡ true
revoke_rows-family now family [] = refl
revoke_rows-family now family (t ∷ rows) = ground (arith, revoke_rows-family now family rows)

module _ (key : RefreshToken → Text)
    (same : (now : Instant) (t : RefreshToken)
      → key (record t { revoked_at = some now }) ≡ key t) where
  has_key-revoke_rows :
      (now : Instant) (family k : Text) (rows : List RefreshToken)
      → has_key key k (revoke_rows now family rows) ≡ has_key key k rows
  has_key-revoke_rows now family k [] = refl
  has_key-revoke_rows now family k (t ∷ rows) =
      ground (arith, same now t, has_key-revoke_rows now family k rows)

  pub unique-revoke_rows :
      (now : Instant) (family : Text) (rows : List RefreshToken)
      → unique key (revoke_rows now family rows) ≡ unique key rows
  unique-revoke_rows now family [] = refl
  unique-revoke_rows now family (t ∷ rows) = ground (
    arith,
    same now t,
    has_key-revoke_rows now family (key t) rows,
    unique-revoke_rows now family rows,
  )

module _ (R : Redis) (max_attempts window_minutes : ℕ) (u : Unicode) (sec : Security)
    (refresh_ttl : ℕ) where
  abbrev run : Draw → RefreshCommand → IdentityStore R → Result AuthResult × IdentityStore R
  run = refresh R max_attempts window_minutes u sec refresh_ttl

  -- The store after a family is revoked.
  abbrev pub ended : Draw → Text → IdentityStore R → IdentityStore R
  ended d family st = record st {
    db = record (st.db) { refresh_tokens = revoke_rows d.stamp.now family st.db.refresh_tokens };
    outbox = st.outbox ++ [];
  }

  module _ (d : Draw) (cmd : RefreshCommand) (st : IdentityStore R) (v : IsValid st.db)
      (t : RefreshToken)
      (found : row_at token_digest (sec.digest cmd.refresh_token) st.db.refresh_tokens
        ≡ some t) where
    -- With the keys of the tables unique, a token that is found by its digest and is revoked is
    -- refused as a reuse, and the change that stays is that the rows of its family are revoked.
    pub refresh_reused :
        is_revoked t ≡ true
        → run d cmd st ≡ (err (unauthorized_as "refresh_token_reused"), ended d t.family_id st)
    unfolding refresh
    refresh_reused revoked = rw (
      found,
      revoked,
      v.user_ids,
      v.user_names,
      v.user_emails,
      unique-revoke_rows token_key (λ now x. refl) d.stamp.now t.family_id st.db.refresh_tokens,
      v.token_ids,
      unique-revoke_rows token_digest (λ now x. refl) d.stamp.now t.family_id st.db.refresh_tokens,
      v.digests,
    )
