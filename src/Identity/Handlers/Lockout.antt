-- ===== src/Identity/Handlers/Lockout.antt =====
-- The login throttle against wrong passwords.
use myblog.Kernel.Redis.{Counts, Redis}
use myblog.Base.{
  string_eq, option_eq, none, ◌*◌, refl, ℕ, Bool, leb, Text, Option, row_at, true, ◌≡◌, false, some,
  list_eq, number_eq, arith, not, if◌then◌else◌, List, ◌+◌, Bool-cases, inl, inr, suc, ◌-◌, ◌==◌,
  zero, ◌&&◌, min, length, ◌++◌, and-true, ◌≤◌,
}
use myblog.Base.Unicode.{Unicode}
use myblog.Identity.Commands.{Security, Draw, LoginCommand, AuthResult}
use myblog.Identity.Repository.{Db, UserModel, user_name}
use myblog.Identity.Handlers.{login, IdentityStore, throttle_key, unauthorized_as}
use myblog.Identity.Throttle.{is_locked, register_failure, failure_key}
use myblog.Kernel.Errors.{Result, err, raised, rate_limited}
use myblog.Base.{[], ◌∷◌, ==_refl}

-- `n` times the same
abbrev pub copies {ℓ} : {A : Type ℓ} → ℕ → A → List A
copies zero a = []
copies (suc n) a = a ∷ copies n a

module _ (R : Redis) (counts : Counts R) (max_attempts window_minutes : ℕ) (u : Unicode)
    (sec : Security) (refresh_ttl : ℕ) where
  abbrev wrong_for : Option UserModel → Text → Bool
  wrong_for none password = true
  wrong_for (some m) password = not (sec.verify m.password_hash password)

  -- The user is unknown, or the password does not fit.
  abbrev pub is_wrong : Db → LoginCommand → Bool
  is_wrong db cmd = wrong_for (row_at user_name (u.lower cmd.username) db.users) cmd.password

  abbrev key_of : LoginCommand → Text
  key_of cmd = throttle_key R max_attempts window_minutes u sec refresh_ttl cmd

  abbrev run : Draw → LoginCommand → IdentityStore R → Result AuthResult × IdentityStore R
  run = login R max_attempts window_minutes u sec refresh_ttl

  -- The failures that are counted for the key
  abbrev pub failures : Text → IdentityStore R → ℕ
  failures key st = counts.counter (failure_key key) st.world

  -- Redis after a failure that is counted
  abbrev counted : LoginCommand → R.State → R.State
  counted cmd w =
      (R.incr_expire (failure_key (key_of cmd)) (window_minutes * 60)
        (R.get_count (failure_key (key_of cmd)) w).1).1

  locked_lem :
      (d : Draw) (cmd : LoginCommand) (st : IdentityStore R)
      → leb max_attempts (failures (key_of cmd) st) ≡ true
      → (run d cmd st ≡ (
        err (raised rate_limited),
        record st { world = (R.get_count (failure_key (key_of cmd)) st.world).1 },
      ))
  unfolding login is_locked
  locked_lem d cmd st full = rw (counts.get_count_ok (failure_key (key_of cmd)) st.world, full) refl

  counted_for :
      (d : Draw) (cmd : LoginCommand) (st : IdentityStore R) (found : Option UserModel)
      → row_at user_name (u.lower cmd.username) st.db.users ≡ found
      → leb max_attempts (failures (key_of cmd) st) ≡ false
      → wrong_for found cmd.password ≡ true
      → (run d cmd st ≡ (
        err (unauthorized_as "invalid_credentials"),
        record st { world = counted cmd st.world },
      ))
  unfolding login is_locked register_failure
  counted_for d cmd st none row free wrong =
      rw
        (
          counts.get_count_ok (failure_key (key_of cmd)) st.world,
          free,
          row,
          counts.incr_expire_ok (failure_key (key_of cmd)) (window_minutes * 60)
              (R.get_count (failure_key (key_of cmd)) st.world).1,
        )
        refl
  counted_for d cmd st (some m) row free wrong =
      rw
        (
          counts.get_count_ok (failure_key (key_of cmd)) st.world,
          free,
          row,
          refused,
          counts.incr_expire_ok (failure_key (key_of cmd)) (window_minutes * 60)
              (R.get_count (failure_key (key_of cmd)) st.world).1,
        )
        refl
    where
      refused : sec.verify m.password_hash cmd.password ≡ false
      refused = ground arith

  abbrev Attempt : Type 0
  Attempt = Draw × LoginCommand

  -- The answers to logins one after the other, and the store after them
  pub run_all : List Attempt → IdentityStore R → List (Result AuthResult) × IdentityStore R
  run_all [] st = ([], st)
  run_all ((d, cmd) ∷ attempts) st =
      let (answer, st') = run d cmd st in
      let (answers, end) = run_all attempts st' in (answer ∷ answers, end)

  -- Wrong passwords for one key of the throttle
  unfoldable pub all_wrong : Db → Text → List Attempt → Bool
  all_wrong db key [] = true
  all_wrong db key ((_, cmd) ∷ attempts) =
      (key_of cmd == key && is_wrong db cmd) && all_wrong db key attempts

  refused_lem :
      (d : Draw) (cmd : LoginCommand) (st : IdentityStore R)
      → is_wrong st.db cmd ≡ true
      → ((run d cmd st).0 ≡ (
          if leb max_attempts (failures (key_of cmd) st)
          then err (raised rate_limited)
          else err (unauthorized_as "invalid_credentials")))
        × ((run d cmd st).1.db ≡ st.db)
        × ((run d cmd st).1.outbox ≡ st.outbox)
        × (failures (key_of cmd) (run d cmd st).1
            ≡ failures (key_of cmd) st
              + (if leb max_attempts (failures (key_of cmd) st) then 0 else 1))
  refused_lem d cmd st wrong = elim (Bool-cases (leb max_attempts (failures (key_of cmd) st))) [
    | inl full ↦
        rw
          (
            locked_lem d cmd st full,
            full,
            counts.get_count_kept (failure_key (key_of cmd)) (failure_key (key_of cmd)) st.world,
          )
          (refl, refl, refl, omega arith)
    | inr free ↦
        rw
          (
            counted_for d cmd st (row_at user_name (u.lower cmd.username) st.db.users) refl free
                wrong,
            free,
            counts.incr_expire_adds (failure_key (key_of cmd)) (window_minutes * 60)
                (R.get_count (failure_key (key_of cmd)) st.world).1 (failure_key (key_of cmd)),
            counts.get_count_kept (failure_key (key_of cmd)) (failure_key (key_of cmd)) st.world,
          )
          (rw (==_refl (failure_key (key_of cmd))) (refl, refl, refl, refl))
  ]

  abbrev pub invalid : Result AuthResult
  invalid = err (unauthorized_as "invalid_credentials")

  abbrev pub limited : Result AuthResult
  limited = err (raised rate_limited)

  -- So many answers, and from there on the key is locked.
  abbrev pub answers_of : ℕ → ℕ → List (Result AuthResult)
  answers_of n free = copies (min n free) invalid ++ copies (n - free) limited

  answers-full : (n : ℕ) → limited ∷ answers_of n 0 ≡ answers_of (suc n) 0
  answers-full n =
      let none_free : min n 0 ≡ 0 = omega arith in
      let still_none : min (suc n) 0 ≡ 0 = omega arith in
      let all_limited : n - 0 ≡ n = omega arith in
      let suc_limited : suc n - 0 ≡ suc n = omega arith in
      rw (none_free, still_none, all_limited, suc_limited) refl

  answers-free : (n free : ℕ) → invalid ∷ answers_of n free ≡ answers_of (suc n) (suc free)
  answers-free n free =
      let one_more : min (suc n) (suc free) ≡ suc (min n free) = omega arith in
      let as_many : suc n - suc free ≡ n - free = omega arith in rw (one_more, as_many) refl

  answers_step :
      (full : Bool) (c d n : ℕ)
      → leb max_attempts c ≡ full
      → d ≡ c + (if full then 0 else 1)
      → ((if full then limited else invalid) ∷ answers_of n (max_attempts - d)
          ≡ answers_of (suc n) (max_attempts - c))
        × (d + min n (max_attempts - d) ≡ c + min (suc n) (max_attempts - c))
  answers_step true c d n full more =
      let here : max_attempts - c ≡ 0 = ground arith in
      let later : max_attempts - d ≡ 0 = ground arith in
      (rw (here, later) (answers-full n), ground arith)
  answers_step false c d n full more =
      let here : max_attempts - c ≡ suc (max_attempts - d) = ground arith in
      (rw here (answers-free n (max_attempts - d)), ground arith)

  run_all-all_wrong :
      (key : Text) (attempts : List Attempt) (st : IdentityStore R)
      → all_wrong st.db key attempts ≡ true
      → let free = max_attempts - failures key st in
        ((run_all attempts st).0 ≡ answers_of (length attempts) free)
        × ((run_all attempts st).1.db ≡ st.db)
        × ((run_all attempts st).1.outbox ≡ st.outbox)
        × (failures key (run_all attempts st).1 ≡ failures key st + min (length attempts) free)
  unfolding run_all all_wrong
  run_all-all_wrong key [] st wrong =
      let free = max_attempts - failures key st in
      let none_answered : min 0 free ≡ 0 = omega arith in
      let none_limited : 0 - free ≡ 0 = omega arith in
      (rw (none_answered, none_limited) refl, refl, refl, omega arith)
  run_all-all_wrong key ((d, cmd) ∷ attempts) st wrong =
      let (first, others) = and-true _ _ wrong in
      let (same, wrong_here) = and-true _ _ first in
      let (answer, same_db, same_outbox, counted_so) = refused_lem d cmd st wrong_here in
      let is_key : key_of cmd ≡ key = ground arith in
      let (answers, dbs, outboxes, failed) =
        run_all-all_wrong key attempts (run d cmd st).1 (rw same_db others) in
      let counted_key : failures key (run d cmd st).1
          ≡ failures key st + (if leb max_attempts (failures key st) then 0 else 1) =
        rw is_key at counted_so in
      let (listed, totals) =
        answers_step _ _ (failures key (run d cmd st).1) (length attempts) refl counted_key in
      (
        rw (answers, answer, is_key) listed,
        rw dbs same_db,
        rw outboxes same_outbox,
        rw failed totals,
      )

  -- While Redis answers and no counter expires: of wrong passwords for one key of the throttle, one
  -- after the other and no fewer than are free, as many as are free are answered
  -- `invalid_credentials` and the others are refused as too many. After them every login for that
  -- key is refused as too many, with the right password too, and all of this changes neither a table
  -- nor the outbox.
  pub locked_out_lem :
      (key : Text) (attempts : List Attempt) (st : IdentityStore R) (d : Draw) (cmd : LoginCommand)
      → all_wrong st.db key attempts ≡ true
      → max_attempts - failures key st ≤ length attempts
      → key_of cmd ≡ key
      → let free = max_attempts - failures key st in
        let after = (run_all attempts st).1 in
        ((run_all attempts st).0 ≡ copies free invalid ++ copies (length attempts - free) limited)
        × ((run d cmd after).0 ≡ limited)
        × ((run d cmd after).1.db ≡ st.db)
        × ((run d cmd after).1.outbox ≡ st.outbox)
  locked_out_lem key attempts st d cmd wrong enough is_key =
      let (answers, dbs, outboxes, failed) = run_all-all_wrong key attempts st wrong in
      let all_free : min (length attempts) (max_attempts - failures key st)
          ≡ max_attempts - failures key st =
        omega arith in
      let full : leb max_attempts (failures (key_of cmd) (run_all attempts st).1) ≡ true =
        rw (is_key) (ground arith) in
      let stopped = locked_lem d cmd (run_all attempts st).1 full in
      (rw (answers, all_free) refl, rw stopped refl, rw stopped dbs, rw stopped outboxes)
