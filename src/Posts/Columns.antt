-- ===== src/Posts/Columns.antt =====
-- services/post-service/app/infrastructure/persistence/models.py: the lengths of the columns. A row
-- that is too long for them is refused by the database, which counts UTF-16 units; the code counts
-- code points.
pub mod Writes
pub mod Objects
pub mod Session
pub mod Steps
pub mod Handlers
pub mod Others
pub mod Routes
pub mod Reached
pub mod Units
pub mod Stored
use myblog.Base.{ℕ, Text, Option, none, some, ◌≤◌, length, All}
use myblog.Posts.Domain.{Post, Category}
use myblog.Posts.Repository.{PostModel, PostTagModel, Db, to_model}

-- At most so many code points
abbrev pub Fits : ℕ → Text → Type 0
Fits n t = length t ≤ n

abbrev pub FitsNullable : ℕ → Option Text → Type 0
FitsNullable n none = Unit
FitsNullable n (some t) = length t ≤ n

pub record ShortPost (m : PostModel) : Type 0 where
  pub id : Fits 36 m.id
  pub title : Fits 200 m.title
  pub slug : Fits 200 m.slug
  pub summary : Fits 500 m.summary
  pub author_id : Fits 36 m.author_id
  pub author_name : Fits 100 m.author_name
  pub category_id : FitsNullable 36 m.category_id
  pub cover_image_url : FitsNullable 500 m.cover_image_url

pub record ShortTag (t : PostTagModel) : Type 0 where
  pub post_id : Fits 36 t.post_id
  pub tag : Fits 30 t.tag

pub record ShortCategory (c : Category) : Type 0 where
  pub id : Fits 36 c.id
  pub name : Fits 60 c.name
  pub slug : Fits 80 c.slug
  pub description : Fits 300 c.description
  pub image_url : FitsNullable 500 c.image_url

-- Every row has texts of at most so many code points as its columns are long.
pub record ShortDb (db : Db) : Type 0 where
  pub posts : All ShortPost db.posts
  pub post_tags : All ShortTag db.post_tags
  pub categories : All ShortCategory db.categories

-- An object whose rows would be such
pub record FitsObject (p : Post) : Type 0 where
  pub row : ShortPost (to_model p)
  pub tags : All (Fits 30) p.tags
