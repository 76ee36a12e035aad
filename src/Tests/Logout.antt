-- ===== src/Tests/Logout.antt =====
-- The examples of a logout, with a Redis that keeps the flags that are set.
use myblog.Kernel.Redis.{Redis}
use myblog.Kernel.Redis
use myblog.Web.Security.{verify, Decoded, Claims, claims, unauthorized_for}
use myblog.Base.{
  Bool, false, ◌==◌, ltb, ◌&&◌, ◌||◌, ◌-◌, ◌*◌, ==_refl, ◌≤◌, ◌+◌, List, arith, Text, ℕ, ◌∷◌, [],
  none, codes, ◌≡◌, list_eq, number_eq, string_eq, option_eq, refl, true, some,
}
use myblog.Identity.Handlers.{IdentityStore}
use myblog.Identity.Handlers.Logout.{left, logout_ends}
use myblog.Tests.Sample.{ascii}
use myblog.Tests.Identity.{ada, keys, draw, token}
use myblog.Kernel.Errors.{ok, Result, err}
use myblog.Identity.Handlers.Reuse.{family_revoked}

-- A flag is there while some microseconds are left of its time.
abbrev Flags : Type 0
Flags = List (Text × ℕ)

abbrev is_set : Text → Flags → Bool
is_set k [] = false
is_set k ((j, left) ∷ s) = (j == k && ltb 0 left) || is_set k s

abbrev later : ℕ → Flags → Flags
later t [] = []
later t ((j, left) ∷ s) = (j, left - t) ∷ later t s

abbrev keeper : Redis.Redis
keeper = record {
  State = Flags;
  Json = ℕ;
  incr = λ k s. (ok 1, s);
  get_count = λ k s. (ok 0, s);
  get_json = λ k s. (ok none, s);
  set_json = λ k v ttl s. (ok tt, s);
  exists = λ k s. (ok (is_set k s), s);
  set_flag = λ k ttl s. (ok tt, (k, ttl * 1000000) ∷ s);
  delete = λ k s. (ok tt, s);
  incr_expire = λ k ttl s. (ok 1, s);
  incr_expire_nx = λ k ttl s. (ok 1, s);
}

keeper-Expiring : Redis.Expiring keeper
keeper-Expiring = record {
  later = later;
  set_exists = λ k ttl t s h soon.
      let there : ltb 0 (ttl * 1000000 - t) ≡ true = ground arith in rw (==_refl k, there) refl;
}

abbrev logged_in : IdentityStore keeper
logged_in = record {
  db = record { users = ada ∷ []; refresh_tokens = token ∷ [] };
  outbox = [];
  world = [];
  correlation_id = codes "r3";
}

-- What the logout answers, and the store after it.
abbrev after_logout : Result (Unit {0}) × IdentityStore keeper
after_logout =
    left keeper 5 15 ascii keys 100 draw logged_in token b'r' b'j' 8 (codes "aw1") (codes "1")

logout_ends_example :
    (after_logout.0 ≡ ok tt)
    × (family_revoked (codes "f1") after_logout.1.db.refresh_tokens ≡ true)
    × ((passed : ℕ) (decode : Text → Decoded) (t : Text) (k : Claims)
        → 5000000 + passed + 1000000 ≤ 9000000
        → decode t ≡ claims k
        → k.typ ≡ some (codes "access")
        → k.jti ≡ codes "j1"
        → (verify keeper true decode t (later passed after_logout.1.world)).0
          ≡ err (unauthorized_for "token_revoked"))
unfolding list_eq number_eq keeper-Expiring
logout_ends_example =
    logout_ends keeper 5 15 ascii keys 100 draw logged_in token b'r' b'j' 8 (codes "aw1")
      (codes "1") keeper-Expiring
      (record {
        user_ids = refl;
        user_names = refl;
        user_emails = refl;
        token_ids = refl;
        digests = refl;
      })
      refl refl
