-- ===== src/Posts/Slug.antt =====
-- services/post-service/app/domain/value_objects.py
pub mod Shape
pub mod Fixed
pub mod Tags
use myblog.Base.{
  ℕ, ◌+◌, ◌*◌, ◌/◌, ◌%◌, max, Text, codes, ◌++◌, ◌∷◌, [], Bool, true, false, not, List, nat_eq,
  if◌then◌else◌, ◌||◌, leb, take, ltb, map, ◌&&◌, contains, list_eq, number_eq, string_eq,
  option_eq,
}
use myblog.Base.Unicode.{Unicode}
use myblog.Base.Python.{strip_by, is_empty}

abbrev pub dash : ℕ
dash = b'-'

abbrev pub is_dash : ℕ → Bool
is_dash c = nat_eq c dash

-- `_TR`
pub translate : ℕ → ℕ
translate c =
    if nat_eq c 231 || nat_eq c 199
    then b'c'
    else if nat_eq c 287 || nat_eq c 286
    then b'g'
    else if nat_eq c 305 || nat_eq c 304 || nat_eq c b'I'
    then b'i'
    else if nat_eq c 246 || nat_eq c 214
    then b'o'
    else if nat_eq c 351 || nat_eq c 350
    then b's'
    else if nat_eq c 252 || nat_eq c 220
    then b'u'
    else c

-- `encode("ascii", "ignore")`
pub ascii_only : Text → Text
ascii_only [] = []
ascii_only (c ∷ t) = let rest = ascii_only t in if ltb c 128 then c ∷ rest else rest

-- `lower` of an ASCII character
pub lower_ascii : ℕ → ℕ
lower_ascii c = if leb b'A' c && leb c b'Z' then c + 32 else c

-- `[a-z0-9]`
abbrev pub is_alnum : ℕ → Bool
is_alnum c = (leb b'a' c && leb c b'z') || (leb b'0' c && leb c b'9')

-- `[a-z0-9#+]`
abbrev pub is_kept : ℕ → Bool
is_kept c = is_alnum c || nat_eq c b'#' || nat_eq c b'+'

-- `re.sub(r"[^a-z0-9#+]+", "-", t)`; the flag says whether a run to replace has begun.
pub dash_runs : Bool → Text → Text
dash_runs in_run [] = []
dash_runs in_run (c ∷ t) =
    let rest = dash_runs (not (is_kept c)) t in
    if is_kept c then c ∷ rest else if in_run then rest else dash ∷ rest

-- `t.replace(c, by)`, for one character
pub replace : ℕ → Text → Text → Text
replace old by [] = []
replace old by (c ∷ t) =
    let rest = replace old by t in if nat_eq c old then by ++ rest else c ∷ rest

-- `re.sub(r"-{2,}", "-", t)`; the flag says whether the last character was a dash.
pub collapse : Bool → Text → Text
collapse after_dash [] = []
collapse after_dash (c ∷ t) =
    let rest = collapse (is_dash c) t in if after_dash && is_dash c then rest else c ∷ rest

-- The steps before the cut.
pub uncut : Unicode → Text → Text
unfolding translate ascii_only lower_ascii dash_runs replace collapse
uncut u value = strip_by is_dash (
    collapse false (
      replace b'+' (codes "plus") (
        replace b'#' (codes "sharp")
          (dash_runs false (map lower_ascii (ascii_only (u.nfkd (map translate value))))))))

unfoldable pub slugify : Unicode → Text → ℕ → Text
unfolding uncut
slugify u value max_length = strip_by is_dash (take max_length (uncut u value))

-- The default of `max_length`.
abbrev pub default_length : ℕ
default_length = 180

-- The loop of `normalize_tags`.
add_tags : Unicode → List Text → List Text → List Text
unfolding slugify
add_tags u seen [] = seen
add_tags u seen (t ∷ tags) =
    let norm = slugify u t 30 in
    add_tags u (if is_empty norm || contains seen norm then seen else seen ++ norm ∷ []) tags

unfoldable pub normalize_tags : Unicode → List Text → List Text
unfolding add_tags
normalize_tags u tags = take 10 (add_tags u [] tags)

-- `len(re.findall(r"\w+", t))`; the flag says whether a word has begun.
pub count_words : (ℕ → Bool) → Bool → Text → ℕ
count_words is_word in_word [] = 0
count_words is_word in_word (c ∷ t) =
    let rest = count_words is_word (is_word c) t in
    if is_word c && not in_word then rest + 1 else rest

-- `round(n / 200)`, which rounds a half to the even neighbour.
pub round_200 : ℕ → ℕ
round_200 n =
    let q = n / 200 in
    let r = n % 200 in if ltb r 100 then q else if ltb 100 r then q + 1 else q + q % 2

unfoldable pub reading_time_minutes : Unicode → Text → ℕ
unfolding count_words round_200
reading_time_minutes u markdown = max 1 (round_200 (count_words u.is_word false markdown))
