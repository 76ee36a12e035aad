-- ===== src/Tests/Identity.antt =====
-- The examples of identity-service.
use myblog.Identity.Handlers.{refresh, IdentityStore, unauthorized_as}
use myblog.Identity.Commands.{Security, Draw, RefreshCommand}
use myblog.Identity.Domain.{RefreshToken, admin}
use myblog.Identity.Repository.{UserModel}
use myblog.Tests.Sample.{counter, stamp, ascii}
use myblog.Base.{true, codes, some, none, ◌∷◌, false, refl, [], ◌≡◌}
use myblog.Identity.Handlers.Reuse.{IsValid, ended, family_revoked, refresh_reused}
use myblog.Kernel.Errors.{err}
use myblog.Identity.Handlers.Rotation.{refresh_single_use}

abbrev pub keys : Security
keys = record {
  verify = λ h p. true;
  needs_rehash = λ h. false;
  hash = λ salt p. p;
  digest = λ t. t;
  access = λ s x. (codes "jwt", 900);
}

abbrev pub ada : UserModel
ada = record {
  id = codes "u1";
  username = codes "ada";
  email = codes "ada@x.org";
  display_name = codes "Ada";
  password_hash = codes "h";
  role = admin;
  is_active = true;
  created_at = 0;
  last_login_at = none;
}

abbrev pub token : RefreshToken
token = record {
  id = codes "t1";
  user_id = codes "u1";
  token_hash = codes "raw1";
  family_id = codes "f1";
  expires_at = 9000000;
  created_at = 0;
  revoked_at = none;
  replaced_by_id = none;
  created_by_ip = none;
  user_agent = none;
}

abbrev old_token : RefreshToken
old_token = record token { revoked_at = some 1 }

abbrev pub with_token : RefreshToken → IdentityStore counter
with_token t = record {
  db = record { users = ada ∷ []; refresh_tokens = t ∷ [] };
  outbox = [];
  world = 0;
  correlation_id = codes "r3";
}

abbrev pub draw : Draw
draw = record { stamp = stamp; family = codes "f2"; raw_token = codes "raw2"; salt = codes "s" }

abbrev with_raw : RefreshCommand
with_raw = record { refresh_token = codes "raw1"; ip = none; user_agent = none }

with_token-IsValid : (t : RefreshToken) → IsValid (with_token t).db
with_token-IsValid t = record {
  user_ids = refl;
  user_names = refl;
  user_emails = refl;
  token_ids = refl;
  digests = refl;
}

refresh_reused_example :
    refresh counter 5 15 ascii keys 100 draw with_raw (with_token old_token) ≡ (
      err (unauthorized_as "refresh_token_reused"),
      ended counter 5 15 ascii keys 100 draw (codes "f1") (with_token old_token),
    )
unfolding myblog.Base.list_eq myblog.Base.number_eq
refresh_reused_example =
    refresh_reused counter 5 15 ascii keys 100 draw with_raw (with_token old_token)
      (with_token-IsValid old_token) old_token refl refl

refresh_single_use_example :
    let (r, st') =
      refresh counter 5 15 ascii keys 100 draw with_raw
        (refresh counter 5 15 ascii keys 100 draw with_raw (with_token token)).1 in
    (r ≡ err (unauthorized_as "refresh_token_reused"))
    × (family_revoked (codes "f1") st'.db.refresh_tokens ≡ true)
unfolding myblog.Base.list_eq myblog.Base.number_eq
refresh_single_use_example =
    refresh_single_use counter 5 15 ascii keys 100 draw with_raw (with_token token) token
      (with_token-IsValid token) refl refl refl ada refl refl refl refl draw with_raw refl
