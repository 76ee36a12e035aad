-- ===== src/Kernel/Exec.antt =====
-- Methods that change a state and may raise. What was changed before a raise stays changed, so the
-- state comes back beside the exception too.
use myblog.Kernel.Errors.{Exc, Result, ok, err, raised, not_found}
use myblog.Base.{Bool, if◌then◌else◌, Option, some, none}

abbrev pub Exec {ℓ κ} : Type ℓ → Type κ → Type (ℓ ⊔ κ)
Exec S A = S → Result A × S

module _ {ℓ κ} {S : Type ℓ} {A : Type κ} where
  abbrev pub pure : A → Exec S A
  pure a s = (ok a, s)

  abbrev pub throw : Exc → Exec S A
  throw e s = (err e, s)

  abbrev pub lift : Result A → Exec S A
  lift r s = (r, s)

  abbrev pub gets : (S → A) → Exec S A
  gets f s = (ok (f s), s)

abbrev pub modify {ℓ} : {S : Type ℓ} → (S → S) → Exec S (Unit {0})
modify f s = (ok tt, f s)

-- `if test: raise e`
abbrev pub throw_if {ℓ} : {S : Type ℓ} → Bool → Exc → Exec S (Unit {0})
throw_if test e s = if test then (err e, s) else (ok tt, s)

module _ {ℓ κ λ'} {S : Type ℓ} {A : Type κ} {B : Type λ'} where
  abbrev after : Result A → (A → Exec S B) → Exec S B
  after (ok a) f s = f a s
  after (err e) f s = (err e, s)

  infixl 5 ◌>>=◌ ◌>>◌
  abbrev pub ◌>>=◌ : Exec S A → (A → Exec S B) → Exec S B
  ◌>>=◌ m f s = let (r, s') = m s in after r f s'

  abbrev pub ◌>>◌ : Exec S A → Exec S B → Exec S B
  ◌>>◌ m n s = let (r, s') = m s in after r (λ _. n) s'

-- `if x is None: raise NotFoundError(…)`
abbrev pub required {ℓ κ} : {S : Type ℓ} {A : Type κ} → Option A → Exec S A
required none s = (err (raised not_found), s)
required (some a) s = (ok a, s)
