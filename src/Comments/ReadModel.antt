-- ===== src/Comments/ReadModel.antt =====
-- services/comment-service/app/infrastructure/persistence/repositories.py,
-- `SqlAlchemyCommentReadModel`. `id_le` is the database's order of identifiers.
pub mod Lists
use myblog.Base.Paging.{page_of, page_count}
use myblog.Base.Ordering.{sort_by}
use myblog.Comments.Repository.{Db, CommentModel, known_post_key, is_approved_for}
use myblog.Comments.Domain.{CommentStatus, status_eq, KnownPost, pending, approved, rejected}
use myblog.Base.{
  Text, Option, ℕ, count, List, row_at, Bool, some, map, true, ltb, keep, none, list_eq, number_eq,
  string_eq, option_eq, if◌then◌else◌, ◌||◌, nat_eq, ◌&&◌,
}
use myblog.Kernel.Events.{to_iso_z, Value}
use myblog.Kernel.Errors.{Result, err, database_error, zero_division_error, ok}

pub record PublicComment : Type 0 where
  pub id : Text
  pub author_name : Text
  pub content : Text
  pub created_at : Value

abbrev pub public_of : CommentModel → PublicComment
public_of m = record {
  id = m.id;
  author_name = m.author_name;
  content = m.content;
  created_at = to_iso_z (some m.created_at);
}

pub record AdminComment : Type 0 where
  pub id : Text
  pub post_id : Text
  pub post_title : Option Text
  pub post_slug : Option Text
  pub author_name : Text
  pub author_email : Option Text
  pub content : Text
  pub status : CommentStatus
  pub created_at : Value

pub record CommentPage : Type 0 where
  pub items : List AdminComment
  pub page : ℕ
  pub size : ℕ
  pub total : ℕ
  pub pages : ℕ

abbrev pub title_of : Option KnownPost → Option Text
title_of none = none
title_of (some p) = some p.title

abbrev pub slug_of : Option KnownPost → Option Text
slug_of none = none
slug_of (some p) = some p.slug

-- A row of the outer join with `known_posts`, whose key is `post_id`.
abbrev pub admin_of : Db → CommentModel → AdminComment
admin_of db m =
    let post = row_at known_post_key m.post_id db.known_posts in
    record {
      id = m.id;
      post_id = m.post_id;
      post_title = title_of post;
      post_slug = slug_of post;
      author_name = m.author_name;
      author_email = m.author_email;
      content = m.content;
      status = m.status;
      created_at = to_iso_z (some m.created_at);
    }

-- `CommentModel.status == status`, where a status is given
abbrev pub has_status : Option CommentStatus → CommentModel → Bool
has_status none m = true
has_status (some s) m = status_eq m.status s

module _ (id_le : Text → Text → Bool) where
  -- `order_by(created_at, id)`, and with `created_at.desc()`
  abbrev pub older_first : CommentModel → CommentModel → Bool
  older_first a b =
      ltb a.created_at b.created_at || (nat_eq a.created_at b.created_at && id_le a.id b.id)

  abbrev pub newer_first : CommentModel → CommentModel → Bool
  newer_first a b =
      ltb b.created_at a.created_at || (nat_eq a.created_at b.created_at && id_le a.id b.id)

  unfoldable pub approved_for_post : Text → Db → List PublicComment
  approved_for_post post_id db =
      map public_of (sort_by older_first (keep (is_approved_for post_id) db.comments))

  abbrev pub selected : Option CommentStatus → Db → List CommentModel
  selected status db = sort_by newer_first (keep (has_status status) db.comments)

  -- The router lets only the three statuses through. A negative OFFSET is refused, and a size of 0
  -- makes the division raise.
  unfoldable pub admin_list : Option CommentStatus → ℕ → ℕ → Db → Result CommentPage
  admin_list status page size db =
      if nat_eq page 0 && ltb 0 size
      then err database_error
      else if nat_eq size 0
      then err zero_division_error
      else ok (record {
        items = map (admin_of db) (page_of page size (selected status db));
        page = page;
        size = size;
        total = count (has_status status) db.comments;
        pages = page_count (count (has_status status) db.comments) size;
      })

pub record StatusCounts : Type 0 where
  pub pending_count : ℕ
  pub approved_count : ℕ
  pub rejected_count : ℕ

-- `GROUP BY status`; a status without rows counts 0.
unfoldable pub counts : Db → StatusCounts
counts db = record {
  pending_count = count (has_status (some pending)) db.comments;
  approved_count = count (has_status (some approved)) db.comments;
  rejected_count = count (has_status (some rejected)) db.comments;
}
