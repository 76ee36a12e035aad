-- ===== src/Tests/Lockout.antt =====
-- The examples of the login throttle, with a Redis that counts.
use myblog.Kernel.Redis.{Redis, Counts}
use myblog.Base.{
  ℕ, Text, List, false, none, [], ◌∷◌, ◌+◌, ◌-◌, ◌==◌, ◌≡◌, ◌++◌, refl, codes, if◌then◌else◌,
  list_eq, number_eq, string_eq, option_eq, arith, length,
}
use myblog.Identity.Handlers.{login, IdentityStore}
use myblog.Identity.Handlers.Lockout.{
  locked_out_lem, run_all, all_wrong, copies, invalid, limited, failures,
}
use myblog.Identity.Commands.{Security, LoginCommand, Draw}
use myblog.Tests.Identity.{ada, keys, draw}
use myblog.Tests.Sample.{ascii}
use myblog.Kernel.Errors.{ok}

abbrev pub tally : Redis
tally = record {
  State = Text → ℕ;
  Json = ℕ;
  incr = λ k s. (ok (s k + 1), λ j. s j + (if j == k then 1 else 0));
  get_count = λ k s. (ok (s k), s);
  get_json = λ k s. (ok none, s);
  set_json = λ k v ttl s. (ok tt, s);
  exists = λ k s. (ok false, s);
  set_flag = λ k ttl s. (ok tt, s);
  delete = λ k s. (ok tt, λ j. if j == k then 0 else s j);
  incr_expire = λ k ttl s. (ok (s k + 1), λ j. s j + (if j == k then 1 else 0));
  incr_expire_nx = λ k ttl s. (ok (s k + 1), λ j. s j + (if j == k then 1 else 0));
}

pub tally-Counts : Counts tally
tally-Counts = record {
  counter = λ k s. s k;
  get_count_ok = λ k s. refl;
  get_count_kept = λ k j s. refl;
  incr_expire_ok = λ k ttl s. refl;
  incr_expire_adds = λ k ttl s j. refl;
  incr_expire_nx_ok = λ k ttl s. refl;
  incr_expire_nx_adds = λ k ttl s j. refl;
}

-- Only the password "right" fits.
abbrev checked : Security
checked = record {
  verify = λ h p. p == codes "right";
  needs_rehash = keys.needs_rehash;
  hash = keys.hash;
  digest = keys.digest;
  access = keys.access;
}

abbrev before : IdentityStore tally
before = record {
  db = record { users = ada ∷ []; refresh_tokens = [] };
  outbox = [];
  world = λ k. 0;
  correlation_id = codes "r4";
}

abbrev with_password : Text → LoginCommand
with_password p = record { username = codes "Ada"; password = p; ip = none; user_agent = none }

abbrev wrong_password : LoginCommand
wrong_password = with_password (codes "wrong")

abbrev attempts : List (Draw × LoginCommand)
attempts = (draw, wrong_password) ∷ (draw, wrong_password) ∷ (draw, wrong_password) ∷ []

-- Two failures are allowed: the third wrong password meets the lock, and so does the right one.
locked_out_lem_example :
    let free = 2 - failures tally tally-Counts 2 15 ascii checked 100 (codes "Ada:-") before in
    let (answers, after) = run_all tally tally-Counts 2 15 ascii checked 100 attempts before in
    let (r, st) = login tally 2 15 ascii checked 100 draw (with_password (codes "right")) after in
    (answers
      ≡ copies free (invalid tally tally-Counts 2 15 ascii checked 100)
        ++ copies (length attempts - free) (limited tally tally-Counts 2 15 ascii checked 100))
    × (r ≡ limited tally tally-Counts 2 15 ascii checked 100)
    × (st.db ≡ before.db)
    × (st.outbox ≡ before.outbox)
unfolding all_wrong list_eq number_eq
locked_out_lem_example =
    locked_out_lem tally tally-Counts 2 15 ascii checked 100 (codes "Ada:-") attempts before draw
      (with_password (codes "right")) refl (omega arith) refl
