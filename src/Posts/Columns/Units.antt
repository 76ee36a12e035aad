-- ===== src/Posts/Columns/Units.antt =====
-- The rows that the columns take, which count UTF-16 units:
-- services/post-service/app/infrastructure/persistence/models.py.
use myblog.Base.{
  ℕ, Text, Option, none, some, [], ◌∷◌, Bool, false, ◌||◌, ◌≤◌, ◌+◌, if◌then◌else◌, leb,
}
use myblog.Posts.Domain.{Category}
use myblog.Posts.Repository.{PostModel, PostTagModel}

-- Behind the basic plane, where a character takes two units
abbrev pub is_astral : ℕ → Bool
is_astral c = leb 65536 c

abbrev pub has_astral : Text → Bool
has_astral [] = false
has_astral (c ∷ t) = is_astral c || has_astral t

abbrev pub units : Text → ℕ
units [] = 0
units (c ∷ t) = (if is_astral c then 2 else 1) + units t

abbrev pub some_astral : Option Text → Bool
some_astral none = false
some_astral (some t) = has_astral t

abbrev pub some_units : Option Text → ℕ
some_units none = 0
some_units (some t) = units t

-- `PostModel`, `PostTagModel` and `CategoryModel`
pub record FitsPost (m : PostModel) : Type 0 where
  pub id : units m.id ≤ 36
  pub title : units m.title ≤ 200
  pub slug : units m.slug ≤ 200
  pub summary : units m.summary ≤ 500
  pub author_id : units m.author_id ≤ 36
  pub author_name : units m.author_name ≤ 100
  pub category_id : some_units m.category_id ≤ 36
  pub cover_image_url : some_units m.cover_image_url ≤ 500

pub record FitsTag (t : PostTagModel) : Type 0 where
  pub post_id : units t.post_id ≤ 36
  pub tag : units t.tag ≤ 30

pub record FitsCategory (c : Category) : Type 0 where
  pub id : units c.id ≤ 36
  pub name : units c.name ≤ 60
  pub slug : units c.slug ≤ 80
  pub description : units c.description ≤ 300
  pub image_url : some_units c.image_url ≤ 500
