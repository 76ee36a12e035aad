-- ===== src/Identity/Handlers/Password.antt =====
-- A change of the password, and the logins after it: `change_password` and `login` of
-- app/application/handlers.py.
use myblog.Base.{
  ℕ, Text, true, false, List, [], ◌∷◌, ◌++◌, ◌≡◌, refl, ap, ◌∙◌, row_at, update_at, has_key, some,
  ltb, length, list_eq, number_eq, row_at-key,
}
use myblog.Base.OtherKeys.{row_at-update_other, row_at-other, update_at-one_row}
use myblog.Base.Unicode.{Unicode}
use myblog.Kernel.Errors.{ok, Result}
use myblog.Kernel.Redis.{Redis}
use myblog.Identity.Commands.{Security, Draw, LoginCommand, ChangePasswordCommand, AuthResult}
use myblog.Identity.Domain.{User, RefreshToken}
use myblog.Identity.Repository.{
  UserModel, user_key, user_name, token_key, token_digest, to_user, write_user, identity_schema,
  user_aggregate,
}
use myblog.Identity.Throttle
use myblog.Identity.Throttle.{is_locked, register_failure}
use myblog.Identity.Handlers.{IdentityStore, login, change_password, throttle_key, auth_result}
use myblog.Identity.Handlers.Reuse.{IsValid}
use myblog.Identity.Handlers.Logins.{users_unique, login_ok, login_wrong, is_ok}

module _ (R : Redis) (max_attempts window_minutes : ℕ) (u : Unicode) (sec : Security)
    (refresh_ttl : ℕ) where
  abbrev pub run : Draw → LoginCommand → IdentityStore R → Result AuthResult × IdentityStore R
  run = login R max_attempts window_minutes u sec refresh_ttl

  abbrev pub key_of : LoginCommand → Text
  key_of cmd = throttle_key R max_attempts window_minutes u sec refresh_ttl cmd

  abbrev pub answer_with : Draw → User → RefreshToken → AuthResult
  answer_with = auth_result R max_attempts window_minutes u sec refresh_ttl

  abbrev pub change :
      Draw → ChangePasswordCommand → IdentityStore R → Result (Unit {0}) × IdentityStore R
  change = change_password R max_attempts window_minutes u sec refresh_ttl

  -- The row after the change
  abbrev pub with_hash : Text → UserModel → UserModel
  with_hash hash m = record m { password_hash = hash }

  -- The store after the change
  abbrev pub changed : Text → UserModel → IdentityStore R → IdentityStore R
  changed hash m st = record st {
    db = record (st.db) { users = update_at user_key m.id (with_hash hash) st.db.users };
    outbox = st.outbox ++ [];
  }

  change_lem :
      (d : Draw) (cmd : ChangePasswordCommand) (st : IdentityStore R) (m : UserModel)
      → IsValid st.db
      → ltb (length cmd.new_password) 10 ≡ false
      → row_at user_key cmd.user_id st.db.users ≡ some m
      → sec.verify m.password_hash cmd.current_password ≡ true
      → change d cmd st ≡ (ok tt, changed (sec.hash d.salt cmd.new_password) m st)
  unfolding change_password
  change_lem d cmd st m v long found right =
      let hash = sec.hash d.salt cmd.new_password in
      let rows =
        update_at-one_row user_key (write_user (record (to_user m) { password_hash = hash }))
          (with_hash hash) m.id st.db.users m (row_at-same st.db.users m found) refl in
      let v' = users_unique (with_hash hash) (λ x. refl) (λ x. refl) (λ x. refl) m.id st.db v in
      rw
        (
          long, found, right, rows, v'.user_ids, v'.user_names, v'.user_emails, v.token_ids,
          v.digests,
        )
        refl
    where
      row_at-same :
          (rows : List UserModel) (x : UserModel)
          → row_at user_key cmd.user_id rows ≡ some x
          → row_at user_key x.id rows ≡ some x
      row_at-same rows x h =
          ap (λ k. row_at user_key k rows) (row_at-key user_key cmd.user_id rows x h) ∙ h

  -- The tables after a change: valid, and the user is found there by name with the new hash.
  changed_found :
      (hash : Text) (name : Text) (st : IdentityStore R) (id : Text) (m : UserModel)
      → IsValid st.db
      → row_at user_key id st.db.users ≡ some m
      → name ≡ m.username
      → IsValid (changed hash m st).db
        × (row_at user_name name (changed hash m st).db.users ≡ some (with_hash hash m))
  changed_found hash name st id m v found same = (
    users_unique (with_hash hash) (λ x. refl) (λ x. refl) (λ x. refl) m.id st.db v,
    row_at-update_other user_key user_name (with_hash hash) (λ x. refl) name st.db.users m
        v.user_ids
        (ap (λ k. row_at user_name k st.db.users) same
          ∙ row_at-other user_key user_name id st.db.users m v.user_names found),
  )

  module _ (fits : (salt p : Text) → sec.verify (sec.hash salt p) p ≡ true) (d d' : Draw)
      (cmd : ChangePasswordCommand) (new old : LoginCommand) (st : IdentityStore R) (m : UserModel)
      (w w' : R.State) (v : IsValid st.db) (long : ltb (length cmd.new_password) 10 ≡ false)
      (found : row_at user_key cmd.user_id st.db.users ≡ some m)
      (right : sec.verify m.password_hash cmd.current_password ≡ true) (active : m.is_active ≡ true)
      (named_new : u.lower new.username ≡ m.username) (chosen : new.password ≡ cmd.new_password)
      (named_old : u.lower old.username ≡ m.username)
      (other : sec.verify (sec.hash d.salt cmd.new_password) old.password ≡ false)
      (unlocked : is_locked R max_attempts window_minutes (key_of new) st.world ≡ (ok false, w))
      (cleared : Throttle.reset R max_attempts window_minutes (key_of new) w ≡ (ok tt, w'))
      (fresh_id : has_key token_key d'.stamp.new_id st.db.refresh_tokens ≡ false)
      (fresh_digest : has_key token_digest (sec.digest d'.raw_token) st.db.refresh_tokens
        ≡ false) where
    -- With unique keys, a hasher that accepts the password it hashed, the user's right current
    -- password and a new one of at least ten characters, the change of the password succeeds. It
    -- leaves every refresh token as it is, so the user's sessions go on. After it a login under the
    -- user's name with the new password answers with the user and a stored new token, if the user is
    -- active, the name is not locked, the throttle can be reset and the new token's identifier and
    -- digest are fresh; a login with a password that the new hash does not accept is not answered,
    -- whatever Redis does, and changes no table.
    pub password_changed :
        let after = (change d cmd st).1 in
        ((change d cmd st).0 ≡ ok tt)
        × (after.db.refresh_tokens ≡ st.db.refresh_tokens)
        × ((x : User) × (t : RefreshToken) × (x.id ≡ m.id)
            × (t.user_id ≡ m.id)
            × ((run d' new after).0 ≡ ok (answer_with d' x t))
            × ((run d' new after).1.db.refresh_tokens ≡ st.db.refresh_tokens ++ t ∷ []))
        × (is_ok (run d' old after).0 ≡ false)
        × ((run d' old after).1.db ≡ after.db)
    password_changed =
        let hash = sec.hash d.salt cmd.new_password in
        let (v', there) =
          changed_found hash (u.lower new.username) st cmd.user_id m v found named_new in
        let (_, there_old) =
          changed_found hash (u.lower old.username) st cmd.user_id m v found named_old in
        let let_in =
          login_ok R max_attempts window_minutes u sec refresh_ttl d' new (changed hash m st)
            (with_hash hash m) w w' v' there unlocked cleared
            (rw chosen (fits d.salt cmd.new_password)) active fresh_id fresh_digest in
        let (refused, kept) =
          login_wrong R max_attempts window_minutes u sec refresh_ttl old (changed hash m st)
            (with_hash hash m) there_old other d' _ _ _ _ refl refl in
        rw (change_lem d cmd st m v long found right) (refl, refl, let_in, refused, kept)
