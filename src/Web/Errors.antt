-- ===== src/Web/Errors.antt =====
-- libs/py-common/devblog_common/web/errors.py: the status code of each error.
use myblog.Kernel.Errors.{
  Exc, ErrorKind, not_found, domain, conflict, unauthorized, forbidden, rate_limited,
  business_rule_violation, domain_error, request_validation_error,
}
use myblog.Base.{ℕ, String}

-- `_STATUS`
abbrev pub status_of : ErrorKind → ℕ
status_of not_found = 404
status_of conflict = 409
status_of unauthorized = 401
status_of forbidden = 403
status_of rate_limited = 429
status_of business_rule_violation = 422
status_of domain_error = 400

-- The status and the code of the answer to an exception. An exception of another kind is unhandled.
abbrev pub problem : Exc → ℕ × String
problem (domain k code) = (status_of k, code)
problem request_validation_error = (422, "validation_error")
problem _ = (500, "internal_error")
