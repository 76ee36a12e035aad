-- ===== src/Base/Python.antt =====
-- Methods of Python's `str` that the services use, on code points.
use Prim.Native.Nat.{ℕ}
use mathlib.Core.Bool.{Bool, true, false, ◌&&◌, ◌||◌}
use mathlib.Core.Option.{Option, none, some}
use mathlib.Core.List.{List, [], ◌∷◌}
use myblog.Base.Tests.{nat_eq, leb, if◌then◌else◌}
use myblog.Base.Equality.{Text}

-- `c.isspace()`, which is also `\s` of a pattern.
unfoldable pub is_space : ℕ → Bool
is_space c =
    (leb 9 c && leb c 13)
    || (leb 28 c && leb c 32)
    || nat_eq c 0x85
    || nat_eq c 0xa0
    || nat_eq c 0x1680
    || (leb 0x2000 c && leb c 0x200a)
    || nat_eq c 0x2028
    || nat_eq c 0x2029
    || nat_eq c 0x202f
    || nat_eq c 0x205f
    || nat_eq c 0x3000

abbrev pub is_empty {ℓ} : {A : Type ℓ} → List A → Bool
is_empty [] = true
is_empty (x ∷ xs) = false

-- `value or None`, for a text
abbrev pub or_none : Option Text → Option Text
or_none none = none
or_none (some []) = none
or_none (some (c ∷ t)) = some (c ∷ t)

-- `a or b`, for texts
abbrev pub or_text : Text → Text → Text
or_text [] b = b
or_text (c ∷ t) b = c ∷ t

-- `t.startswith(start)`
abbrev pub starts_with : Text → Text → Bool
starts_with [] t = true
starts_with (c ∷ start) [] = false
starts_with (c ∷ start) (d ∷ t) = nat_eq c d && starts_with start t

module _ (p : ℕ → Bool) where
  abbrev pub lstrip : Text → Text
  lstrip [] = []
  lstrip (c ∷ t) = if p c then lstrip t else c ∷ t

  abbrev pub rstrip : Text → Text
  rstrip [] = []
  rstrip (c ∷ t) = let rest = rstrip t in if is_empty rest && p c then [] else c ∷ rest

  abbrev pub strip_by : Text → Text
  strip_by t = rstrip (lstrip t)

-- `t.strip()`
unfoldable pub strip : Text → Text
unfolding is_space
strip = strip_by is_space

-- A pattern that ends in `$` also accepts one line feed behind what it matches.
abbrev pub drop_final_newline : Text → Option Text
drop_final_newline [] = none
drop_final_newline (c ∷ []) = if nat_eq c 10 then some [] else none
drop_final_newline (c ∷ d ∷ t) = elim (drop_final_newline (d ∷ t)) [
  | none ↦ none
  | some r ↦ some (c ∷ r)
]

-- `re.match(r"^body$", t)`
abbrev pub match_line : (Text → Bool) → Text → Bool
match_line body t =
    if body t then true else elim (drop_final_newline t) [ none ↦ false | some r ↦ body r ]
