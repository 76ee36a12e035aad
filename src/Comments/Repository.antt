-- ===== src/Comments/Repository.antt =====
-- services/comment-service/app/infrastructure/persistence: the tables of models.py and the two
-- repositories. The status column holds the enumeration's value.
use myblog.Base.{ℕ, Text, list_eq, number_eq, ◌==◌, row_at, update_at, delete_at, unique}
use myblog.Base.{Bool, ◌&&◌, Option, none, some, List, [], ◌∷◌, ◌++◌}
use myblog.Base.{count}
use myblog.Kernel.Events.{Instant}
use myblog.Kernel.Errors.{ok}
use myblog.Kernel.Exec.{Exec, pure, gets, modify, ◌>>=◌, ◌>>◌}
use myblog.Kernel.UnitOfWork.{Aggregate, Schema, Tracked, UnitOfWork, new_object, track}
use myblog.Comments.Domain.{CommentStatus, approved, status_eq, Comment, KnownPost}

pub record CommentModel : Type 0 where
  pub id : Text
  pub post_id : Text
  pub author_name : Text
  pub author_email : Option Text
  pub content : Text
  pub status : CommentStatus
  pub ip_hash : Option Text
  pub created_at : Instant
  pub moderated_at : Option Instant

-- `known_posts` has the columns of `KnownPost`.
pub record Db : Type 0 where
  pub comments : List CommentModel
  pub known_posts : List KnownPost

abbrev pub comment_key : CommentModel → Text
comment_key m = m.id

abbrev pub known_post_key : KnownPost → Text
known_post_key p = p.post_id

instance abbrev pub comment_aggregate : Aggregate Comment
comment_aggregate = record { pending = λ c. c.events; cleared = λ c. record c { events = [] } }

-- The primary keys.
instance abbrev pub comment_schema : Schema Db
comment_schema = record {
  source = "comment-service";
  constraints = λ db. unique comment_key db.comments && unique known_post_key db.known_posts;
}

abbrev pub to_comment : CommentModel → Comment
to_comment m = record {
  id = m.id;
  post_id = m.post_id;
  author_name = m.author_name;
  content = m.content;
  author_email = m.author_email;
  status = m.status;
  ip_hash = m.ip_hash;
  created_at = m.created_at;
  moderated_at = m.moderated_at;
  events = [];
}

abbrev pub to_model : Comment → CommentModel
to_model c = record {
  id = c.id;
  post_id = c.post_id;
  author_name = c.author_name;
  author_email = c.author_email;
  content = c.content;
  status = c.status;
  ip_hash = c.ip_hash;
  created_at = c.created_at;
  moderated_at = c.moderated_at;
}

-- `CommentModel.post_id == post_id AND CommentModel.status == "approved"`
abbrev pub is_approved_for : Text → CommentModel → Bool
is_approved_for post_id m = m.post_id == post_id && status_eq m.status approved

abbrev pub count_approved_in : Text → List CommentModel → ℕ
count_approved_in post_id = count (is_approved_for post_id)

abbrev pub of_post : CommentModel → Text
of_post m = m.post_id

-- The columns that `update` writes.
abbrev pub write_moderation : Comment → CommentModel → CommentModel
write_moderation c m = record m { status = c.status; moderated_at = c.moderated_at }

abbrev pub write_post : KnownPost → KnownPost → KnownPost
write_post p m = record m { slug = p.slug; title = p.title; is_published = p.is_published }

abbrev upserted_onto : Option KnownPost → KnownPost → List KnownPost → List KnownPost
upserted_onto none p rows = rows ++ p ∷ []
upserted_onto (some _) p rows = update_at known_post_key p.post_id (write_post p) rows

-- The rows of `known_posts` after `upsert`.
abbrev pub upserted : KnownPost → List KnownPost → List KnownPost
upserted p rows = upserted_onto (row_at known_post_key p.post_id rows) p rows

abbrev pub Repo : Type 0 → Type 0 → Type 0
Repo W B = Exec (UnitOfWork Db Comment W) B

module _ {W : Type 0} where
  abbrev pub get : Text → Repo W (Option (Tracked Comment))
  get comment_id u = elim (row_at comment_key comment_id u.session.comments) [
    | none ↦ (ok none, u)
    | some m ↦ (do c ← new_object (to_comment m); track c; pure (some c)) u
  ]

  abbrev set_comments : List CommentModel → Repo W (Unit {0})
  set_comments rows = modify (λ u. record u { session = record (u.session) { comments = rows } })

  abbrev set_known_posts : List KnownPost → Repo W (Unit {0})
  set_known_posts rows =
      modify (λ u. record u { session = record (u.session) { known_posts = rows } })

  abbrev pub add : Tracked Comment → Repo W (Unit {0})
  add c u = (do set_comments (u.session.comments ++ to_model (c.1) ∷ []); track c) u

  abbrev pub update : Tracked Comment → Repo W (Unit {0})
  update c u =
      (do
        set_comments (update_at comment_key c.1.id (write_moderation (c.1)) u.session.comments)
        track c)
        u

  abbrev pub delete : Tracked Comment → Repo W (Unit {0})
  delete c u = (do set_comments (delete_at comment_key c.1.id u.session.comments); track c) u

  abbrev pub count_approved : Text → Repo W ℕ
  count_approved post_id = gets (λ u. count_approved_in post_id u.session.comments)

  -- Of the number of rows, which the caller only logs, nothing is modelled.
  abbrev pub delete_for_post : Text → Repo W (Unit {0})
  delete_for_post post_id u = set_comments (delete_at of_post post_id u.session.comments) u

  abbrev pub get_known_post : Text → Repo W (Option KnownPost)
  get_known_post post_id = gets (λ u. row_at known_post_key post_id u.session.known_posts)

  abbrev pub upsert : KnownPost → Repo W (Unit {0})
  upsert p u = set_known_posts (upserted p u.session.known_posts) u

  abbrev pub delete_known_post : Text → Repo W (Unit {0})
  delete_known_post post_id u =
      set_known_posts (delete_at known_post_key post_id u.session.known_posts) u
