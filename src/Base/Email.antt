-- ===== src/Base/Email.antt =====
-- The address pattern of services/comment-service/app/domain/comment.py, which
-- services/identity-service/app/domain/user.py repeats: `^[^@\s]+@[^@\s]+\.[^@\s]+$`.
use Prim.Native.Nat.{ℕ}
use mathlib.Core.Bool.{Bool, true, false, not, ◌&&◌, ◌||◌}
use mathlib.Core.List.{[], ◌∷◌}
use myblog.Base.Tests.{nat_eq, if◌then◌else◌}
use myblog.Base.Equality.{Text}
use myblog.Base.Python.{is_space, match_line}

-- `[^@\s]`
is_address_char : ℕ → Bool
unfolding is_space
is_address_char c = not (nat_eq c b'@') && not (is_space c)

-- `[^@\s]+\.[^@\s]+`: address characters only, and a dot that is neither the first nor the last.
has_inner_dot : Text → Bool
has_inner_dot [] = false
has_inner_dot (c ∷ []) = false
has_inner_dot (c ∷ d ∷ t) = nat_eq c b'.' || has_inner_dot (d ∷ t)

all_address : Text → Bool
unfolding is_address_char
all_address [] = true
all_address (c ∷ t) = is_address_char c && all_address t

is_domain : Text → Bool
unfolding all_address has_inner_dot
is_domain [] = false
is_domain (c ∷ t) = all_address (c ∷ t) && has_inner_dot t

-- `[^@\s]+@…`, from behind the first character
after_local : Text → Bool
unfolding is_domain is_address_char
after_local [] = false
after_local (c ∷ t) =
    let rest = after_local t in if nat_eq c b'@' then is_domain t else is_address_char c && rest

email_body : Text → Bool
unfolding is_address_char after_local
email_body [] = false
email_body (c ∷ t) = is_address_char c && after_local t

-- `_EMAIL.match`
unfoldable pub email_matches : Text → Bool
unfolding email_body
email_matches = match_line email_body
