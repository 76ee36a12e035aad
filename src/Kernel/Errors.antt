-- ===== src/Kernel/Errors.antt =====
-- libs/py-common/devblog_common/domain.py: the exceptions of the domain, with their codes. The
-- message is text for people and is left out.
use myblog.Base.{String, ◌≡◌, ◌⊎◌, inl, inr, refl}

pub data ErrorKind : Type 0 where
  domain_error business_rule_violation not_found conflict unauthorized forbidden rate_limited :
      ErrorKind

-- The class attribute `code`.
abbrev pub default_code : ErrorKind → String
default_code domain_error = "domain_error"
default_code business_rule_violation = "business_rule_violation"
default_code not_found = "not_found"
default_code conflict = "conflict"
default_code unauthorized = "unauthorized"
default_code forbidden = "forbidden"
default_code rate_limited = "rate_limited"

-- What a call may raise: a domain error with its code, a violated database constraint, or one of
-- Python's own exceptions.
pub data Exc : Type 0 where
  domain : ErrorKind → String → Exc
  integrity_error : Exc
  key_error : Exc
  value_error : Exc
  attribute_error : Exc
  overflow_error : Exc
  zero_division_error : Exc
  runtime_error : Exc
  -- FastAPI's, for a request that its schema refuses
  request_validation_error : Exc
  database_error : Exc
  connection_error : Exc
  -- A loop that has used up its fuel; theorems show where this cannot be.
  out_of_fuel : Exc

-- A domain error with no code of its own has the code of its class.
abbrev pub raised : ErrorKind → Exc
raised k = domain k (default_code k)

pub data Result {ℓ} (A : Type ℓ) : Type ℓ where
  ok : A → Result A
  err : Exc → Result A

-- A value made of what a call returns
abbrev pub encoded {ℓ κ} : {A : Type ℓ} {B : Type κ} → (A → B) → Result A → Result B
encoded f (ok a) = ok (f a)
encoded f (err e) = err e

pub Result-cases {ℓ} :
    {A : Type ℓ} (r : Result A) → ((a : A) × (r ≡ ok a)) ⊎ ((e : Exc) × (r ≡ err e))
Result-cases (ok a) = inl (a, refl)
Result-cases (err e) = inr (e, refl)
