-- ===== src/Web/Fields.antt =====
-- What pydantic checks of a field with `min_length` and `max_length`. A length counts code points.
use myblog.Base.{ℕ, Text, Option, Bool, none, some, true, ◌&&◌, leb, length}

-- `max_length`, where the value may be missing
abbrev pub at_most : ℕ → Option Text → Bool
at_most n none = true
at_most n (some t) = leb (length t) n

abbrev pub between : ℕ → ℕ → Text → Bool
between least most t = leb least (length t) && leb (length t) most
