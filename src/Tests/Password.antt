-- ===== src/Tests/Password.antt =====
-- The example of the change of a password.
use myblog.Base.{Text, codes, none, [], ◌∷◌, ◌≡◌, ◌==◌, refl, list_eq, number_eq, false}
use myblog.Identity.Commands.{Security, LoginCommand, ChangePasswordCommand}
use myblog.Identity.Domain.{User, RefreshToken}
use myblog.Identity.Handlers.{IdentityStore}
use myblog.Identity.Handlers.Reuse.{IsValid}
use myblog.Identity.Handlers.Password.{change, run, answer_with, password_changed}
use myblog.Identity.Handlers.Logins.{is_ok}
use myblog.Kernel.Errors.{ok}
use myblog.Identity.Throttle.{is_locked, reset}
use myblog.Base.{==_refl}
use myblog.Tests.Identity.{ada, keys, draw}
use myblog.Tests.Sample.{counter, ascii}

-- The hash of a password is the password.
abbrev plain : Security
plain = record {
  verify = λ h p. h == p;
  needs_rehash = keys.needs_rehash;
  hash = keys.hash;
  digest = keys.digest;
  access = keys.access;
}

abbrev before : IdentityStore counter
before = record {
  db = record { users = ada ∷ []; refresh_tokens = [] };
  outbox = [];
  world = 0;
  correlation_id = codes "r5";
}

abbrev before-IsValid : IsValid before.db
before-IsValid = record {
  user_ids = refl;
  user_names = refl;
  user_emails = refl;
  token_ids = refl;
  digests = refl;
}

abbrev cmd : ChangePasswordCommand
cmd = record {
  user_id = codes "u1";
  current_password = codes "h";
  new_password = codes "a long password";
}

abbrev with_password : Text → LoginCommand
with_password p = record { username = codes "ada"; password = p; ip = none; user_agent = none }

abbrev new : LoginCommand
new = with_password (codes "a long password")

abbrev old : LoginCommand
old = with_password (codes "h")

password_changed_example :
    let (changed, after) = change counter 5 15 ascii plain 100 draw cmd before in
    let (answer, st) = run counter 5 15 ascii plain 100 draw new after in
    let (refused, st') = run counter 5 15 ascii plain 100 draw old after in
    (changed ≡ ok tt)
    × (after.db.refresh_tokens ≡ [])
    × ((x : User) × (t : RefreshToken) × (x.id ≡ codes "u1")
        × (t.user_id ≡ codes "u1")
        × (answer ≡ ok (answer_with counter 5 15 ascii plain 100 draw x t))
        × (st.db.refresh_tokens ≡ t ∷ []))
    × (is_ok refused ≡ false)
    × (st'.db ≡ after.db)
unfolding list_eq number_eq is_locked reset
password_changed_example =
    password_changed counter 5 15 ascii plain 100 (λ salt p. ==_refl p) draw draw cmd new old before
      ada 0 0 before-IsValid refl refl refl refl refl refl refl refl refl refl refl refl
