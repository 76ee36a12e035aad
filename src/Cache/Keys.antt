-- ===== src/Cache/Keys.antt =====
-- Different versions have different keys.
use mathlib.Core.Path.{◌≡◌}
use mathlib.Core.List.{append_cancel_left, append_cancel_right}
use myblog.Base.{Text, codes, ℕ, ◌++◌, ◌∷◌}
use myblog.Base.Decimal.{decimal, decimal-injective}
use myblog.Cache.{full_key}

pub full_key-injective :
    (prefix namespace key : Text) (v w : ℕ)
    → full_key prefix namespace v key ≡ full_key prefix namespace w key
    → v ≡ w
full_key-injective prefix namespace key v w h =
    let rest : Text → Text = λ t. namespace ++ (codes ":v" ++ (t ++ b':' ∷ key)) in
    let h1 = append_cancel_left prefix (b':' ∷ rest (decimal v)) (b':' ∷ rest (decimal w)) h in
    let h2 : rest (decimal v) ≡ rest (decimal w) = cc in
    let h3 =
      append_cancel_left namespace (codes ":v" ++ (decimal v ++ b':' ∷ key))
        (codes ":v" ++ (decimal w ++ b':' ∷ key)) h2 in
    let h4 : (decimal v ++ b':' ∷ key) ≡ (decimal w ++ b':' ∷ key) = cc in
    decimal-injective v w (append_cancel_right (decimal v) (decimal w) (b':' ∷ key) h4)
