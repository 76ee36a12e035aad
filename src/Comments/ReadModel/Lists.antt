-- ===== src/Comments/ReadModel/Lists.antt =====
-- What the lists of comments hold.
use myblog.Comments.ReadModel.{
  approved_for_post, admin_list, counts, selected, has_status, public_of, older_first, CommentPage,
  AdminComment, admin_of, newer_first,
}
use myblog.Comments.Repository.{Db, count_approved_in, is_approved_for, CommentModel}
use myblog.Base.{
  ◌+◌, List, Text, Bool, ◌≡◌, length, Option, count, some, length-map, ℕ, ◌<◌, keep, ◌∷◌, map, [],
  ◌∙◌, refl, arith, indicator,
}
use myblog.Comments.Domain.{CommentStatus, pending, approved, rejected, status_eq}
use myblog.Kernel.Errors.{Result, ok, err}
use myblog.Base.Ordering.{sort_by, length-sort_keep}
use myblog.Base.Paging.{read_pages, page_count, read_pages-cover}

-- For every order of identifiers, a reader of a post gets as many comments as comment-service counts
-- as approved for it.
pub approved_list_lem :
    (id_le : Text → Text → Bool) (post_id : Text) (db : Db)
    → length (approved_for_post id_le post_id db) ≡ count_approved_in post_id db.comments
unfolding approved_for_post
approved_list_lem id_le post_id db =
    length-map public_of (sort_by (older_first id_le) (keep (is_approved_for post_id) db.comments))
    ∙ length-sort_keep (older_first id_le) (is_approved_for post_id) db.comments

one_status :
    (s : CommentStatus)
    → indicator (status_eq s pending)
        + indicator (status_eq s approved)
        + indicator (status_eq s rejected)
      ≡ 1
one_status pending = refl
one_status approved = refl
one_status rejected = refl

status_count :
    (rows : List CommentModel)
    → count (has_status (some pending)) rows
        + count (has_status (some approved)) rows
        + count (has_status (some rejected)) rows
      ≡ length rows
status_count [] = refl
status_count (m ∷ rows) = ground (arith, one_status m.status, status_count rows)

-- Every comment is counted under one status.
pub counts_lem :
    (db : Db)
    → (counts db).pending_count + (counts db).approved_count + (counts db).rejected_count
      ≡ length db.comments
unfolding counts
counts_lem db = status_count db.comments

abbrev pub items_of : Result CommentPage → List AdminComment
items_of (ok p) = p.items
items_of (err e) = []

module _ (id_le : Text → Text → Bool) (status : Option CommentStatus) (size : ℕ) (db : Db) where
  -- For a size of at least 1, as many pages as there are, one after another, are
  -- the comments with the status in their order.
  pub admin_pages_lem :
      0 < size
      → read_pages
          (λ n. items_of (admin_list id_le status n size db))
          (page_count (count (has_status status) db.comments) size)
        ≡ map (admin_of db) (selected id_le status db)
  admin_pages_lem h =
      read_pages-cover (admin_of db) (λ n. items_of (admin_list id_le status n size db)) size
        (selected id_le status db) (λ n. unfold admin_list in ground arith)
        (count (has_status status) db.comments)
        (length-sort_keep (newer_first id_le) (has_status status) db.comments) h
