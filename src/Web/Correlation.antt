-- ===== src/Web/Correlation.antt =====
-- libs/py-common/devblog_common/correlation.py: the identifier of a request. A UUID that `uuid4`
-- draws is an argument.
use myblog.Base.{ℕ, Text, Bool, true, [], ◌∷◌, ◌&&◌, ◌||◌, leb, nat_eq, length, if◌then◌else◌}
use myblog.Base.Python.{match_line}

-- `[A-Za-z0-9._\-]`
abbrev pub is_safe_char : ℕ → Bool
is_safe_char c =
    (leb 65 c && leb c 90)
    || (leb 97 c && leb c 122)
    || (leb 48 c && leb c 57)
    || nat_eq c 46
    || nat_eq c 95
    || nat_eq c 45

abbrev pub all_safe : Text → Bool
all_safe [] = true
all_safe (c ∷ t) = is_safe_char c && all_safe t

-- `_SAFE.match`
unfoldable pub is_safe : Text → Bool
is_safe = match_line (λ t. leb 1 (length t) && (leb (length t) 64 && all_safe t))

-- `set_correlation_id`: what the context variable is set to
unfoldable pub chosen : Text → Text → Text
chosen fresh value = if is_safe value then value else fresh
