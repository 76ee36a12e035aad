-- ===== src/Posts/Domain.antt =====
-- services/post-service/app/domain/post.py
use myblog.Base.{
  ℕ, Text, codes, String, length, leb, if◌then◌else◌, ◌∷◌, some, not, Bool, Option, ◌&&◌, false,
  none, [], List, true, take,
}
use myblog.Base.Int.{ℤ, max_zero}
use myblog.Base.Unicode.{Unicode}
use myblog.Kernel.Errors.{Result, ok, err, raised, business_rule_violation}
use myblog.Kernel.Events.{Instant, str, Payload, DomainEvent, Stamp, record_event, strs, to_iso_z}
use myblog.Posts.Slug.{slugify, normalize_tags, reading_time_minutes, default_length}
use myblog.Base.Python.{strip, is_empty, or_text}

pub data PostStatus : Type 0 where
  draft published : PostStatus

abbrev pub status_value : PostStatus → Text
status_value draft = codes "draft"
status_value published = codes "published"

-- `events` is the list that `record_event` appends to.
pub record Post : Type 0 where
  pub id : Text
  pub title : Text
  pub slug : Text
  pub summary : Text
  pub content : Text
  pub author_id : Text
  pub author_name : Text
  pub status : PostStatus
  pub category_id : Option Text
  pub cover_image_url : Option Text
  pub tags : List Text
  pub reading_time : ℕ
  pub comment_count : ℕ
  pub created_at : Instant
  pub updated_at : Instant
  pub published_at : Option Instant
  pub events : List DomainEvent

abbrev pub is_published : Post → Bool
is_published p = elim p.status [ draft ↦ false | published ↦ true ]

-- `_payload`
abbrev pub payload : Post → Payload
payload p =
    ("post_id", str p.id)
    ∷ ("slug", str p.slug)
    ∷ ("title", str p.title)
    ∷ ("status", str (status_value p.status))
    ∷ ("author_id", str p.author_id)
    ∷ ("tags", strs p.tags)
    ∷ ("published_at", to_iso_z p.published_at)
    ∷ []

abbrev pub noted : Stamp → String → Post → Post
noted s name p = record p { events = record_event s name (payload p) p.events }

-- `_validate`: is the text accepted?
unfoldable pub accepted : Text → Text → Text → Bool
unfolding strip
accepted title summary content =
    leb 3 (length (strip title))
    && leb (length (strip title)) 200
    && leb (length (strip summary)) 500
    && leb 10 (length (strip content))

-- What a client writes of a post.
pub record Draft : Type 0 where
  pub title : Text
  pub summary : Text
  pub content : Text
  pub slug : Option Text
  pub category_id : Option Text
  pub tags : List Text
  pub cover_image_url : Option Text

-- `slug or title`
abbrev pub slug_source : Draft → Text
slug_source d = elim d.slug [ none ↦ d.title | some s ↦ or_text s d.title ]

unfoldable pub create : Unicode → Stamp → Text → Text → Draft → Result Post
unfolding accepted
create u s author_id author_name d =
    let slug = slugify u (slug_source d) default_length in
    if not (accepted d.title d.summary d.content)
    then err (raised business_rule_violation)
    else if is_empty slug
    then err (raised business_rule_violation)
    else ok (
        noted s "post.created" (record {
          id = s.new_id;
          title = strip d.title;
          slug = slug;
          summary = strip d.summary;
          content = d.content;
          author_id = author_id;
          author_name = author_name;
          status = draft;
          category_id = d.category_id;
          cover_image_url = d.cover_image_url;
          tags = normalize_tags u d.tags;
          reading_time = reading_time_minutes u d.content;
          comment_count = 0;
          created_at = s.now;
          updated_at = s.now;
          published_at = none;
          events = [];
        }))

-- `slugify(slug)` if a slug is given, and the old slug if not.
abbrev pub new_slug : Unicode → Option Text → Text → Text
new_slug u none old = old
new_slug u (some []) old = old
new_slug u (some (c ∷ t)) old = slugify u (c ∷ t) default_length

unfoldable pub update : Unicode → Stamp → Draft → Post → Result Post
unfolding accepted
update u s d p =
    if not (accepted d.title d.summary d.content)
    then err (raised business_rule_violation)
    else ok (
        noted s "post.updated" (record p {
          title = strip d.title;
          summary = strip d.summary;
          content = d.content;
          slug = new_slug u d.slug p.slug;
          category_id = d.category_id;
          cover_image_url = d.cover_image_url;
          tags = normalize_tags u d.tags;
          reading_time = reading_time_minutes u d.content;
          updated_at = s.now;
        }))

abbrev pub change_slug : Text → Post → Post
change_slug slug p = record p { slug = slug }

-- `self.published_at or utcnow()`
abbrev pub first_published : Option Instant → Instant → Instant
first_published none now = now
first_published (some t) now = t

unfoldable pub publish : Stamp → Post → Result Post
publish s p =
    if is_published p
    then err (raised business_rule_violation)
    else ok (
        noted s "post.published" (record p {
          status = published;
          published_at = some (first_published p.published_at s.now);
          updated_at = s.now;
        }))

unfoldable pub unpublish : Stamp → Post → Result Post
unpublish s p =
    if not (is_published p)
    then err (raised business_rule_violation)
    else ok (noted s "post.unpublished" (record p { status = draft; updated_at = s.now }))

abbrev pub mark_deleted : Stamp → Post → Post
mark_deleted s p = record p {
  events =
      record_event s "post.deleted" (("post_id", str p.id) ∷ ("slug", str p.slug) ∷ []) p.events;
}

abbrev pub sync_comment_count : ℤ → Post → Post
sync_comment_count count p = record p { comment_count = max_zero count }

pub record Category : Type 0 where
  pub id : Text
  pub name : Text
  pub slug : Text
  pub description : Text
  pub image_url : Option Text

unfoldable pub create_category : Unicode → Stamp → Text → Text → Option Text → Result Category
unfolding strip
create_category u s name description image_url =
    if not (leb 2 (length (strip name)) && leb (length (strip name)) 60)
    then err (raised business_rule_violation)
    else ok (record {
      id = s.new_id;
      name = strip name;
      slug = slugify u name 80;
      description = take 300 (strip description);
      image_url = image_url;
    })
