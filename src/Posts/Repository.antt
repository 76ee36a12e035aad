-- ===== src/Posts/Repository.antt =====
-- services/post-service/app/infrastructure/persistence: the tables of models.py and repositories.py.
-- The status column holds the enumeration's value.
use myblog.Base.{
  ℕ, Text, list_eq, number_eq, ◌==◌, row_at, update_at, delete_at, has_key, unique, ◌&&◌, Bool, [],
  Option, if◌then◌else◌, ◌++◌, List, ◌∷◌, ◌||◌, false, none, not, some, true, string_eq, option_eq,
}
use myblog.Base.Sorted.{sorted}
use myblog.Kernel.Events.{Instant}
use myblog.Kernel.Errors.{ok, err, integrity_error}
use myblog.Kernel.Exec.{Exec, pure, gets, modify, ◌>>=◌, ◌>>◌}
use myblog.Kernel.UnitOfWork.{Aggregate, Schema, Tracked, UnitOfWork, new_object, track}
use myblog.Posts.Domain.{PostStatus, Post, Category}
use myblog.Base.Python.{or_none}

pub record PostModel : Type 0 where
  pub id : Text
  pub title : Text
  pub slug : Text
  pub summary : Text
  pub content : Text
  pub status : PostStatus
  pub author_id : Text
  pub author_name : Text
  pub category_id : Option Text
  pub cover_image_url : Option Text
  pub reading_time : ℕ
  pub comment_count : ℕ
  pub created_at : Instant
  pub updated_at : Instant
  pub published_at : Option Instant

pub record PostTagModel : Type 0 where
  pub post_id : Text
  pub tag : Text

-- `categories` has the columns of `Category`.
pub record Db : Type 0 where
  pub posts : List PostModel
  pub post_tags : List PostTagModel
  pub categories : List Category

abbrev pub post_key : PostModel → Text
post_key m = m.id

abbrev pub post_slug : PostModel → Text
post_slug m = m.slug

abbrev pub category_key : Category → Text
category_key c = c.id

abbrev pub category_slug : Category → Text
category_slug c = c.slug

abbrev pub tagged : PostTagModel → Text
tagged t = t.post_id

instance abbrev pub post_aggregate : Aggregate Post
post_aggregate = record { pending = λ p. p.events; cleared = λ p. record p { events = [] } }

-- The primary and unique keys of `posts` and `categories`.
instance abbrev pub post_schema : Schema Db
post_schema = record {
  source = "post-service";
  constraints = λ db.
      (unique post_key db.posts && unique post_slug db.posts)
      && (unique category_key db.categories && unique category_slug db.categories);
}

-- `select(PostTagModel.tag).where(PostTagModel.post_id == post_id)`
abbrev pub tags_of : Text → List PostTagModel → List Text
tags_of post_id [] = []
tags_of post_id (t ∷ rows) =
    if t.post_id == post_id then t.tag ∷ tags_of post_id rows else tags_of post_id rows

abbrev pub to_post : PostModel → List Text → Post
to_post m tags = record {
  id = m.id;
  title = m.title;
  slug = m.slug;
  summary = m.summary;
  content = m.content;
  author_id = m.author_id;
  author_name = m.author_name;
  status = m.status;
  category_id = m.category_id;
  cover_image_url = m.cover_image_url;
  tags = sorted tags;
  reading_time = m.reading_time;
  comment_count = m.comment_count;
  created_at = m.created_at;
  updated_at = m.updated_at;
  published_at = m.published_at;
  events = [];
}

-- `_fields`: the columns that are written, over a row that keeps `id` and `created_at`.
abbrev pub write_fields : Post → PostModel → PostModel
write_fields p m = record m {
  title = p.title;
  slug = p.slug;
  summary = p.summary;
  content = p.content;
  status = p.status;
  author_id = p.author_id;
  author_name = p.author_name;
  category_id = p.category_id;
  cover_image_url = p.cover_image_url;
  reading_time = p.reading_time;
  comment_count = p.comment_count;
  updated_at = p.updated_at;
  published_at = p.published_at;
}

abbrev pub to_model : Post → PostModel
to_model p = record {
  id = p.id;
  title = p.title;
  slug = p.slug;
  summary = p.summary;
  content = p.content;
  status = p.status;
  author_id = p.author_id;
  author_name = p.author_name;
  category_id = p.category_id;
  cover_image_url = p.cover_image_url;
  reading_time = p.reading_time;
  comment_count = p.comment_count;
  created_at = p.created_at;
  updated_at = p.updated_at;
  published_at = p.published_at;
}

-- `_replace_tags`: the rows of the post go, and one is added for each of its tags.
abbrev pub tag_rows : Text → List Text → List PostTagModel
tag_rows post_id [] = []
tag_rows post_id (t ∷ tags) = record { post_id = post_id; tag = t } ∷ tag_rows post_id tags

abbrev pub replaced_tags : Post → List PostTagModel → List PostTagModel
replaced_tags p rows = delete_at tagged p.id rows ++ tag_rows p.id p.tags

-- `PostModel.slug == slug`, and `PostModel.id != exclude_id` if one is given.
abbrev pub slug_taken : Text → Option Text → List PostModel → Bool
slug_taken slug exclude [] = false
slug_taken slug exclude (m ∷ rows) =
    if m.slug == slug && not (exclude == some m.id) then true else slug_taken slug exclude rows

-- `PostModel.category_id == category_id`
abbrev pub category_used : Text → List PostModel → Bool
category_used category_id [] = false
category_used category_id (m ∷ rows) =
    if m.category_id == some category_id then true else category_used category_id rows

abbrev pub Repo : Type 0 → Type 0 → Type 0
Repo W B = Exec (UnitOfWork Db Post W) B

module _ {W : Type 0} where
  -- The tags are read by a SELECT, and the session does not flush: it does not see the tags that it
  -- has added itself. Each handler gets a post before it deletes any.
  abbrev pub get : Text → Repo W (Option (Tracked Post))
  get post_id u = elim (row_at post_key post_id u.session.posts) [
    | none ↦ (ok none, u)
    | some m ↦
        (do
          p ← new_object (to_post m (tags_of post_id u.store.db.post_tags))
          track p
          pure (some p))
          u
  ]

  abbrev pub slug_exists : Text → Option Text → Repo W Bool
  slug_exists slug exclude = gets (λ u. slug_taken slug (or_none exclude) u.session.posts)

  abbrev set_posts : List PostModel → List PostTagModel → Repo W (Unit {0})
  set_posts rows tags =
      modify (λ u. record u { session = record (u.session) { posts = rows; post_tags = tags } })

  -- The row is written at once, by `flush`; a taken identifier or slug fails it.
  abbrev pub add : Tracked Post → Repo W (Unit {0})
  add p u =
      if has_key post_key p.1.id u.session.posts || has_key post_slug p.1.slug u.session.posts
      then (err integrity_error, u)
      else (do
        set_posts (u.session.posts ++ to_model (p.1) ∷ []) (replaced_tags (p.1) u.session.post_tags)
        track p)
          u

  abbrev pub update : Tracked Post → Repo W (Unit {0})
  update p u =
      (do
        set_posts (update_at post_key p.1.id (write_fields (p.1)) u.session.posts)
            (replaced_tags (p.1) u.session.post_tags)
        track p)
        u

  abbrev pub delete : Tracked Post → Repo W (Unit {0})
  delete p u =
      (do
        set_posts (delete_at post_key p.1.id u.session.posts)
            (delete_at tagged p.1.id u.session.post_tags)
        track p)
        u

  abbrev pub get_category : Text → Repo W (Option Category)
  get_category category_id = gets (λ u. row_at category_key category_id u.session.categories)

  abbrev pub category_slug_exists : Text → Repo W Bool
  category_slug_exists slug = gets (λ u. has_key category_slug slug u.session.categories)

  abbrev set_categories : List Category → Repo W (Unit {0})
  set_categories rows =
      modify (λ u. record u { session = record (u.session) { categories = rows } })

  abbrev pub add_category : Category → Repo W (Unit {0})
  add_category c u = set_categories (u.session.categories ++ c ∷ []) u

  abbrev pub delete_category : Category → Repo W (Unit {0})
  delete_category c u = set_categories (delete_at category_key c.id u.session.categories) u

  abbrev pub category_in_use : Text → Repo W Bool
  category_in_use category_id = gets (λ u. category_used category_id u.session.posts)
