-- ===== src/Posts/ReadModel/Totals.antt =====
-- read_model.py: `tags`, `categories` and `stats`, which count, and that the counts agree.
use myblog.Posts.ReadModel.{Collation, is_published_row}
use myblog.Posts.Repository.{PostModel, PostTagModel, Db, post_key, category_key}
use myblog.Base.{
  none, some, length, ℕ, List, Text, ◌∷◌, Bool, count, [], ◌==◌, row_at, if◌then◌else◌, map, ltb,
  ◌-◌, ◌+◌, some, ◌||◌, list_eq, number_eq, string_eq, option_eq, nat_eq, ◌&&◌, false, ◌≡◌, not,
  arith, refl, unique, has_key, true, Option-cases, ◌∙◌, inl, inr,
}
use myblog.Posts.Domain.{Category}
use myblog.Base.Ordering.{sort_by, insert_by}
use myblog.Base.SortedTables.{unique-sort_by}

-- `GROUP BY tag` with `count(*)`
abbrev pub count_into : Text → List (Text × ℕ) → List (Text × ℕ)
count_into t [] = (t, 1) ∷ []
count_into t ((u, n) ∷ groups) =
    if u == t then (u, n + 1) ∷ groups else (u, n) ∷ count_into t groups

abbrev pub grouped : List Text → List (Text × ℕ)
grouped [] = []
grouped (t ∷ tags) = count_into t (grouped tags)

abbrev pub of_published_post : List PostModel → PostTagModel → Bool
of_published_post posts t = elim (row_at post_key t.post_id posts) [
  | none ↦ false
  | some m ↦ is_published_row m
]

-- The tags of the rows of `post_tags` whose post is published.
abbrev pub published_tags : List PostModel → List PostTagModel → List Text
published_tags posts [] = []
published_tags posts (t ∷ rows) =
    if of_published_post posts t
    then t.tag ∷ published_tags posts rows
    else published_tags posts rows

pub record CategoryCount : Type 0 where
  pub category : Category
  pub post_count : ℕ

abbrev pub in_category : Text → PostModel → Bool
in_category id m = m.category_id == some id && is_published_row m

module _ (col : Collation) where
  unfoldable pub tags : Db → List (Text × ℕ)
  tags db =
      sort_by (λ a b. ltb (b.1) (a.1) || (nat_eq (a.1) (b.1) && col.le (a.0) (b.0)))
        (grouped (published_tags db.posts db.post_tags))

  unfoldable pub categories : Db → List CategoryCount
  categories db =
      sort_by (λ a b. col.le a.category.name b.category.name)
        (map (λ c. record { category = c; post_count = count (in_category c.id) db.posts })
          db.categories)

pub record Stats : Type 0 where
  pub total : ℕ
  pub published : ℕ
  pub drafts : ℕ
  pub comments : ℕ

abbrev pub sum_comments : List PostModel → ℕ
sum_comments [] = 0
sum_comments (m ∷ rows) = m.comment_count + sum_comments rows

-- `published` counts some of the rows that `total` counts, so the difference is not negative.
unfoldable pub stats : Db → Stats
stats db = record {
  total = length db.posts;
  published = count is_published_row db.posts;
  drafts = length db.posts - count is_published_row db.posts;
  comments = sum_comments db.posts;
}

count-complement :
    (p : PostModel → Bool) (rows : List PostModel)
    → length rows ≡ count p rows + count (λ m. not (p m)) rows
count-complement p [] = refl
count-complement p (m ∷ rows) = ground (arith, count-complement p rows)

-- The published posts and the drafts are all posts, and the drafts are those not published.
pub stats_lem :
    (db : Db)
    → ((stats db).published + (stats db).drafts ≡ (stats db).total)
      × ((stats db).drafts ≡ count (λ m. not (is_published_row m)) db.posts)
unfolding stats
stats_lem db = ground (arith, count-complement is_published_row db.posts)

abbrev pub count_at : Text → List (Text × ℕ) → ℕ
count_at t [] = 0
count_at t ((u, n) ∷ groups) = (if u == t then n else 0) + count_at t groups

count_at-into :
    (s t : Text) (groups : List (Text × ℕ))
    → count_at s (count_into t groups) ≡ (if t == s then 1 else 0) + count_at s groups
count_at-into s t [] = ground arith
count_at-into s t ((u, n) ∷ groups) = ground (arith, count_at-into s t groups)

count_at-grouped : (s : Text) (ts : List Text) → count_at s (grouped ts) ≡ count (λ u. u == s) ts
count_at-grouped s [] = refl
count_at-grouped s (t ∷ ts) = ground (arith, count_at-into s t (grouped ts), count_at-grouped s ts)

abbrev pub tag_of : Text × ℕ → Text
tag_of (t, n) = t

has_tag-into :
    (s t : Text) (groups : List (Text × ℕ))
    → has_key tag_of s (count_into t groups) ≡ (t == s || has_key tag_of s groups)
has_tag-into s t [] = ground arith
has_tag-into s t ((u, n) ∷ groups) = ground (arith, has_tag-into s t groups)

unique-into :
    (t : Text) (groups : List (Text × ℕ))
    → unique tag_of groups ≡ true
    → unique tag_of (count_into t groups) ≡ true
unique-into t [] h = refl
unique-into t ((u, n) ∷ groups) h = ground (arith, has_tag-into u t groups, unique-into t groups)

unique-grouped : (ts : List Text) → unique tag_of (grouped ts) ≡ true
unique-grouped [] = refl
unique-grouped (t ∷ ts) = unique-into t (grouped ts) (unique-grouped ts)

module _ (col : Collation) where
  abbrev tag_order : Text × ℕ → Text × ℕ → Bool
  tag_order a b = ltb (b.1) (a.1) || (nat_eq (a.1) (b.1) && col.le (a.0) (b.0))

  count_at-insert :
      (s : Text) (x : Text × ℕ) (ys : List (Text × ℕ))
      → count_at s (insert_by tag_order x ys) ≡ count_at s (x ∷ ys)
  count_at-insert s x [] = refl
  count_at-insert s x (y ∷ ys) = ground (arith, count_at-insert s x ys)

  count_at-sort :
      (s : Text) (xs : List (Text × ℕ)) → count_at s (sort_by tag_order xs) ≡ count_at s xs
  count_at-sort s [] = refl
  count_at-sort s (x ∷ xs) =
      ground (arith, count_at-insert s x (sort_by tag_order xs), count_at-sort s xs)

  -- No tag is listed twice, and for every text, the number beside it in the list, or 0 where it is
  -- not listed, is how many rows of published posts have it as their tag.
  pub tags_lem :
      (db : Db)
      → (unique tag_of (tags col db) ≡ true)
        × ((s : Text)
            → count_at s (tags col db) ≡ count (λ u. u == s) (published_tags db.posts db.post_tags))
  unfolding tags
  tags_lem db =
      let ts = published_tags db.posts db.post_tags in
      (
        unique-sort_by tag_of tag_order (grouped ts) ∙ unique-grouped ts,
        λ s. count_at-sort s (grouped ts) ∙ count_at-grouped s ts,
      )

abbrev pub is_known : List Category → PostModel → Bool
is_known cs m = elim m.category_id [ none ↦ false | some id ↦ has_key category_key id cs ]

abbrev pub sum_posts : List CategoryCount → ℕ
sum_posts [] = 0
sum_posts (c ∷ cs) = c.post_count + sum_posts cs

known-cons :
    (c : Category) (cs : List Category) (rows : List PostModel)
    → has_key category_key c.id cs ≡ false
    → count (λ m. is_known (c ∷ cs) m && is_published_row m) rows
      ≡ count (in_category c.id) rows + count (λ m. is_known cs m && is_published_row m) rows
known-cons c cs [] h = refl
known-cons c cs (m ∷ rows) h = elim (Option-cases m.category_id) [
  | inl absent ↦ ground (arith, known-cons c cs rows)
  | inr (id, given) ↦ ground (arith, known-cons c cs rows)
]

abbrev counted : List PostModel → Category → CategoryCount
counted rows c = record { category = c; post_count = count (in_category c.id) rows }

sum_posts-map :
    (cs : List Category) (rows : List PostModel)
    → unique category_key cs ≡ true
    → sum_posts (map (counted rows) cs) ≡ count (λ m. is_known cs m && is_published_row m) rows
sum_posts-map [] [] u = refl
sum_posts-map [] (m ∷ rows) u = elim (Option-cases m.category_id) [
  | inl absent ↦ ground (arith, sum_posts-map [] rows)
  | inr (id, given) ↦ ground (arith, sum_posts-map [] rows)
]
sum_posts-map (c ∷ cs) rows u = ground (arith, known-cons c cs rows, sum_posts-map cs rows)

sum_posts-insert :
    (le : CategoryCount → CategoryCount → Bool) (x : CategoryCount) (ys : List CategoryCount)
    → sum_posts (insert_by le x ys) ≡ sum_posts (x ∷ ys)
sum_posts-insert le x [] = refl
sum_posts-insert le x (y ∷ ys) = ground (arith, sum_posts-insert le x ys)

sum_posts-sort :
    (le : CategoryCount → CategoryCount → Bool) (xs : List CategoryCount)
    → sum_posts (sort_by le xs) ≡ sum_posts xs
sum_posts-sort le [] = refl
sum_posts-sort le (x ∷ xs) =
    ground (arith, sum_posts-insert le x (sort_by le xs), sum_posts-sort le xs)

-- Where the identifiers of categories are unique, the counts of all categories add up to the number
-- of published posts in a category that exists.
pub categories_lem :
    (col : Collation) (db : Db)
    → unique category_key db.categories ≡ true
    → sum_posts (categories col db)
      ≡ count (λ m. is_known db.categories m && is_published_row m) db.posts
unfolding categories
categories_lem col db u =
    sum_posts-sort (λ a b. col.le a.category.name b.category.name)
      (map (counted db.posts) db.categories)
    ∙ sum_posts-map db.categories db.posts u
