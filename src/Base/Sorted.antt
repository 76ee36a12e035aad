-- ===== src/Base/Sorted.antt =====
-- `sorted(texts)`: by code points.
use mathlib.Core.Bool.{Bool, true, false}
use mathlib.Core.List.{List, [], ◌∷◌}
use myblog.Base.Tests.{ltb, nat_eq, if◌then◌else◌}
use myblog.Base.Equality.{Text}

unfoldable pub text_le : Text → Text → Bool
text_le [] t = true
text_le (c ∷ s) [] = false
text_le (c ∷ s) (d ∷ t) = if ltb c d then true else if nat_eq c d then text_le s t else false

unfoldable pub insert_sorted : Text → List Text → List Text
insert_sorted s [] = s ∷ []
insert_sorted s (t ∷ ts) = if text_le s t then s ∷ t ∷ ts else t ∷ insert_sorted s ts

unfoldable pub sorted : List Text → List Text
unfolding text_le insert_sorted
sorted [] = []
sorted (t ∷ ts) = insert_sorted t (sorted ts)
