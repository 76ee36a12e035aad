-- ===== src/Identity/Handlers/Logins.antt =====
-- A login: `login` of app/application/handlers.py, with a right and with a wrong password.
use myblog.Base.{
  ℕ, Text, Bool, true, false, [], ◌∷◌, ◌++◌, ◌≡◌, refl, ◌∙◌, row_at, update_at, has_key,
  unique-append, unique-update_at, some, none, list_eq, number_eq, Bool-cases, inl, inr,
}
use myblog.Base.OtherKeys.{row_at-other, update_at-one_row, unique-update_other}
use myblog.Base.Unicode.{Unicode}
use myblog.Kernel.Errors.{ok, err, Result}
use myblog.Kernel.Redis.{Redis}
use myblog.Identity.Commands.{Security, Draw, LoginCommand, AuthResult}
use myblog.Identity.Domain.{User, RefreshToken, record_login, change_password_hash}
use myblog.Identity.Repository.{
  Db, UserModel, user_key, user_name, user_email, token_key, token_digest, to_user, write_user,
  identity_schema, user_aggregate,
}
use myblog.Identity.Throttle
use myblog.Identity.Throttle.{is_locked, register_failure}
use myblog.Identity.Handlers.{IdentityStore, login, throttle_key, new_refresh_token, auth_result}
use myblog.Identity.Handlers.Reuse.{IsValid}

abbrev pub is_ok {ℓ} : {A : Type ℓ} → Result A → Bool
is_ok (ok a) = true
is_ok (err e) = false

-- An update by identifier leaves the keys of the users unique.
pub users_unique :
    (f : UserModel → UserModel)
    → ((m : UserModel) → (f m).id ≡ m.id)
    → ((m : UserModel) → (f m).username ≡ m.username)
    → ((m : UserModel) → (f m).email ≡ m.email)
    → (id : Text) (db : Db) → IsValid db
    → IsValid (record db { users = update_at user_key id f db.users })
users_unique f ids names emails id db v = record {
  user_ids = unique-update_at user_key id f ids db.users ∙ v.user_ids;
  user_names = unique-update_other user_key user_name f names id db.users ∙ v.user_names;
  user_emails = unique-update_other user_key user_email f emails id db.users ∙ v.user_emails;
  token_ids = v.token_ids;
  digests = v.digests;
}

module _ (R : Redis) (max_attempts window_minutes : ℕ) (u : Unicode) (sec : Security)
    (refresh_ttl : ℕ) where
  abbrev run : Draw → LoginCommand → IdentityStore R → Result AuthResult × IdentityStore R
  run = login R max_attempts window_minutes u sec refresh_ttl

  abbrev key_of : LoginCommand → Text
  key_of cmd = throttle_key R max_attempts window_minutes u sec refresh_ttl cmd

  abbrev answer_with : Draw → User → RefreshToken → AuthResult
  answer_with = auth_result R max_attempts window_minutes u sec refresh_ttl

  -- The row after a login
  abbrev with_login : Draw → Text → UserModel → UserModel
  with_login d hash m = record m {
    password_hash = hash;
    is_active = true;
    last_login_at = some d.stamp.now;
  }

  -- The user of that row, who is active
  abbrev active_user : UserModel → User
  active_user m = record (to_user m) { is_active = true }

  pub login_ok :
      (d : Draw) (cmd : LoginCommand) (st : IdentityStore R) (m : UserModel) (w w' : R.State)
      → IsValid st.db
      → row_at user_name (u.lower cmd.username) st.db.users ≡ some m
      → is_locked R max_attempts window_minutes (key_of cmd) st.world ≡ (ok false, w)
      → Throttle.reset R max_attempts window_minutes (key_of cmd) w ≡ (ok tt, w')
      → sec.verify m.password_hash cmd.password ≡ true
      → m.is_active ≡ true
      → has_key token_key d.stamp.new_id st.db.refresh_tokens ≡ false
      → has_key token_digest (sec.digest d.raw_token) st.db.refresh_tokens ≡ false
      → (x : User) × (t : RefreshToken) × (x.id ≡ m.id)
        × (t.user_id ≡ m.id)
        × ((run d cmd st).0 ≡ ok (answer_with d x t))
        × ((run d cmd st).1.db.refresh_tokens ≡ st.db.refresh_tokens ++ t ∷ [])
  unfolding login
  login_ok d cmd st m w w' v named unlocked cleared right active fresh_id fresh_digest =
      let t =
        new_refresh_token R max_attempts window_minutes u sec refresh_ttl d m.id none cmd.ip
          cmd.user_agent in
      let ids = unique-append token_key st.db.refresh_tokens t v.token_ids fresh_id in
      let digests = unique-append token_digest st.db.refresh_tokens t v.digests fresh_digest in
      let known =
        row_at-other user_name user_key (u.lower cmd.username) st.db.users m v.user_ids named in
      elim (Bool-cases (sec.needs_rehash m.password_hash)) [
        | inl weak ↦
            let hash = sec.hash d.salt cmd.password in
            let rows =
              update_at-one_row user_key
                (write_user
                  (record_login d.stamp cmd.ip (change_password_hash hash (active_user m))))
                (with_login d hash) m.id st.db.users m known refl in
            let v' =
              users_unique (with_login d hash) (λ x. refl) (λ x. refl) (λ x. refl) m.id st.db v in
            rw
              (
                unlocked, named, right, active, weak, rows, v'.user_ids, v'.user_names,
                v'.user_emails, ids, digests, cleared,
              )
              (
                record_login d.stamp cmd.ip (change_password_hash hash (active_user m)),
                t,
                refl,
                refl,
                refl,
                refl,
              )
        | inr strong ↦
            let hash = m.password_hash in
            let rows =
              update_at-one_row user_key (write_user (record_login d.stamp cmd.ip (active_user m)))
                (with_login d hash) m.id st.db.users m known refl in
            let v' =
              users_unique (with_login d hash) (λ x. refl) (λ x. refl) (λ x. refl) m.id st.db v in
            rw
              (
                unlocked, named, right, active, strong, rows, v'.user_ids, v'.user_names,
                v'.user_emails, ids, digests, cleared,
              )
              (record_login d.stamp cmd.ip (active_user m), t, refl, refl, refl, refl)
      ]

  module _ (cmd : LoginCommand) (st : IdentityStore R) (m : UserModel)
      (named : row_at user_name (u.lower cmd.username) st.db.users ≡ some m)
      (wrong : sec.verify m.password_hash cmd.password ≡ false) where
    pub login_wrong :
        (d : Draw) (locked : Result Bool) (counted : Result (Unit {0})) (w w' : R.State)
        → is_locked R max_attempts window_minutes (key_of cmd) st.world ≡ (locked, w)
        → register_failure R max_attempts window_minutes (key_of cmd) w ≡ (counted, w')
        → (is_ok (run d cmd st).0 ≡ false) × ((run d cmd st).1.db ≡ st.db)
    unfolding login
    login_wrong d (err e) counted w w' asked told = rw (asked) (refl, refl)
    login_wrong d (ok true) counted w w' asked told = rw (asked) (refl, refl)
    login_wrong d (ok false) (err e) w w' asked told = rw (asked, named, wrong, told) (refl, refl)
    login_wrong d (ok false) (ok _) w w' asked told = rw (asked, named, wrong, told) (refl, refl)
