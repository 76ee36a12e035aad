-- ===== src/Tests/Seed.antt =====
-- The example of the administrator's account.
use myblog.Base.{codes, [], ◌∷◌, ◌≡◌, ◌⊎◌, refl, list_eq, number_eq, true, false, not}
use myblog.Identity.Commands.{SeedAdminCommand}
use myblog.Identity.Domain.{User, admin}
use myblog.Identity.Repository.{to_model}
use myblog.Identity.Handlers.{IdentityStore}
use myblog.Identity.Handlers.Reuse.{IsValid}
use myblog.Identity.Handlers.Seed.{seed, is_taken, seed_admin_lem}
use myblog.Kernel.Errors.{ok}
use myblog.Identity.Domain.{username_matches}
use myblog.Base.Email.{email_matches}
use myblog.Tests.Identity.{ada, keys, draw}
use myblog.Tests.Sample.{counter, ascii}

abbrev before : IdentityStore counter
before = record {
  db = record { users = ada ∷ []; refresh_tokens = [] };
  outbox = [];
  world = 0;
  correlation_id = codes "r6";
}

abbrev before-IsValid : IsValid before.db
before-IsValid = record {
  user_ids = refl;
  user_names = refl;
  user_emails = refl;
  token_ids = refl;
  digests = refl;
}

abbrev cmd : SeedAdminCommand
cmd = record {
  username = codes "root";
  email = codes "root@x.org";
  display_name = codes "Root";
  password = codes "secret";
}

seed_admin_lem_example :
    let (r, st) = seed counter 5 15 ascii keys 100 draw cmd before in
    (r ≡ ok (not (is_taken counter 5 15 ascii keys 100 cmd (ada ∷ []))))
    × (((is_taken counter 5 15 ascii keys 100 cmd (ada ∷ []) ≡ true) × (st ≡ before))
        ⊎ ((x : User) × (x.username ≡ codes "root")
            × (x.role ≡ admin)
            × (st.db ≡ record (before.db) { users = ada ∷ to_model x ∷ [] })))
    × (seed counter 5 15 ascii keys 100 draw cmd st ≡ (ok false, st))
unfolding list_eq number_eq username_matches email_matches
seed_admin_lem_example =
    seed_admin_lem counter 5 15 ascii keys 100 draw draw cmd before before-IsValid refl refl refl
