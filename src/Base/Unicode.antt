-- ===== src/Base/Unicode.antt =====
-- Python's Unicode tables, a parameter of the model: `unicodedata.normalize("NFKD", t)`, `t.lower()`
-- and the class `\w`.
use Prim.Native.Nat.{ℕ, ◌<◌}
use mathlib.Core.Path.{◌≡◌}
use mathlib.Core.Bool.{Bool}
use myblog.Base.Lists.{All}
use myblog.Base.Equality.{Text}

pub record Unicode : Type 0 where
  pub nfkd : Text → Text
  pub lower : Text → Text
  pub is_word : ℕ → Bool

abbrev pub IsAscii : Text → Type 0
IsAscii = All (λ c. c < 128)

-- Normalisation leaves ASCII text as it is.
pub record IsLawful (u : Unicode) : Type 0 where
  pub nfkd_ascii : (t : Text) → IsAscii t → u.nfkd t ≡ t
