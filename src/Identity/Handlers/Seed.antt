-- ===== src/Identity/Handlers/Seed.antt =====
-- The administrator's account that identity-service makes when it starts: `seed_admin` of
-- app/application/handlers.py, which main.py calls at each start.
use myblog.Base.{
  ℕ, Text, Bool, true, false, not, Bool-cases, inl, inr, List, [], ◌∷◌, ◌++◌, ◌≡◌, refl, has_key,
  has_key-append, unique-append, ◌||◌, list_eq, number_eq, arith, ==_refl, ◌==◌, ◌⊎◌,
}
use myblog.Base.Email.{email_matches}
use myblog.Base.Unicode.{Unicode}
use myblog.Kernel.Errors.{ok, Result}
use myblog.Kernel.Events.{Stamp}
use myblog.Kernel.Redis.{Redis}
use myblog.Identity.Commands.{Security, Draw, SeedAdminCommand}
use myblog.Identity.Domain.{User, register, username_matches, admin}
use myblog.Identity.Repository.{
  UserModel, user_key, user_name, user_email, to_model, identity_schema, user_aggregate,
}
use myblog.Identity.Handlers.{IdentityStore, seed_admin, seed_new}
use myblog.Identity.Handlers.Reuse.{IsValid}

-- `register` makes an administrator of these texts.
registered :
    (u : Unicode) (s : Stamp) (username email name hash : Text)
    → username_matches username ≡ true
    → email_matches email ≡ true
    → (x : User) × (register u s username email name hash admin ≡ ok x)
      × (x.id ≡ s.new_id)
      × (x.username ≡ u.lower username)
      × (x.email ≡ u.lower email)
      × (x.role ≡ admin)
unfolding register
registered u s username email name hash named mailed =
    rw (named, mailed) (_, refl, refl, refl, refl, refl)

module _ (R : Redis) (max_attempts window_minutes : ℕ) (u : Unicode) (sec : Security)
    (refresh_ttl : ℕ) where
  abbrev pub seed : Draw → SeedAdminCommand → IdentityStore R → Result Bool × IdentityStore R
  seed = seed_admin R max_attempts window_minutes u sec refresh_ttl

  -- Somebody has that name or that address.
  abbrev pub is_taken : SeedAdminCommand → List UserModel → Bool
  is_taken cmd users =
      has_key user_name (u.lower cmd.username) users || has_key user_email (u.lower cmd.email) users

  seed_taken :
      (d : Draw) (cmd : SeedAdminCommand) (st : IdentityStore R)
      → is_taken cmd st.db.users ≡ true
      → seed d cmd st ≡ (ok false, st)
  unfolding seed_admin
  seed_taken d cmd st taken = rw taken refl

  or_false : (a b : Bool) → (a || b) ≡ false → (a ≡ false) × (b ≡ false)
  or_false a b h = ground arith

  added_is_taken :
      (cmd : SeedAdminCommand) (users : List UserModel) (m : UserModel)
      → m.username ≡ u.lower cmd.username
      → is_taken cmd (users ++ (m ∷ [])) ≡ true
  added_is_taken cmd users m named =
      let here = has_key-append user_name (u.lower cmd.username) users (m ∷ []) in
      let same : (m.username == u.lower cmd.username) ≡ true =
        rw named (==_refl (u.lower cmd.username)) in
      ground arith

  seed_made :
      (d : Draw) (cmd : SeedAdminCommand) (st : IdentityStore R)
      → IsValid st.db
      → has_key user_key d.stamp.new_id st.db.users ≡ false
      → username_matches cmd.username ≡ true
      → email_matches cmd.email ≡ true
      → is_taken cmd st.db.users ≡ false
      → (x : User) × (x.username ≡ u.lower cmd.username)
        × (x.role ≡ admin)
        × ((seed d cmd st).0 ≡ ok true)
        × ((seed d cmd st).1.db ≡ record (st.db) { users = st.db.users ++ (to_model x ∷ []) })
  unfolding seed_admin seed_new
  seed_made d cmd st v fresh named mailed free =
      let hash = sec.hash d.salt cmd.password in
      let (x, made, known, called, written, role) =
        registered u d.stamp cmd.username cmd.email cmd.display_name hash named mailed in
      let (no_name, no_email) = or_false _ _ free in
      let ids = unique-append user_key st.db.users (to_model x) v.user_ids (rw known fresh) in
      let names =
        unique-append user_name st.db.users (to_model x) v.user_names (rw called no_name) in
      let emails =
        unique-append user_email st.db.users (to_model x) v.user_emails (rw written no_email) in
      (
        x,
        called,
        role,
        rw (free, made, ids, names, emails, v.token_ids, v.digests) refl,
        rw (free, made, ids, names, emails, v.token_ids, v.digests) refl,
      )

  -- On valid tables, with a fresh identifier and a name and an address that the domain accepts:
  -- seeding makes an administrator of that name if neither the name nor the address is taken, and
  -- changes nothing otherwise; it tells which. Seeding once more, as at each later start of the
  -- service, makes nobody and changes nothing.
  pub seed_admin_lem :
      (d later : Draw) (cmd : SeedAdminCommand) (st : IdentityStore R)
      → IsValid st.db
      → has_key user_key d.stamp.new_id st.db.users ≡ false
      → username_matches cmd.username ≡ true
      → email_matches cmd.email ≡ true
      → let (r, st') = seed d cmd st in
        (r ≡ ok (not (is_taken cmd st.db.users)))
        × ((((is_taken cmd st.db.users ≡ true) × (st' ≡ st))
            ⊎ ((x : User) × (x.username ≡ u.lower cmd.username)
                × (x.role ≡ admin)
                × (st'.db ≡ record (st.db) { users = st.db.users ++ (to_model x ∷ []) }))))
        × (seed later cmd st' ≡ (ok false, st'))
  seed_admin_lem d later cmd st v fresh named mailed =
      elim (Bool-cases (is_taken cmd st.db.users)) [
        | inl taken ↦
            let kept = seed_taken d cmd st taken in
            rw (kept, taken) (refl, inl (refl, refl), seed_taken later cmd st taken)
        | inr free ↦
            let (x, called, role, fine, tables) = seed_made d cmd st v fresh named mailed free in
            let now_taken : is_taken cmd (seed d cmd st).1.db.users ≡ true =
              rw tables (added_is_taken cmd st.db.users (to_model x) called) in
            (
              rw free fine,
              inr (x, called, role, tables),
              seed_taken later cmd (seed d cmd st).1 now_taken,
            )
      ]
