-- ===== src/Tests/Sample.antt =====
-- The server, the tables and the drawn values that the examples use.
use myblog.Posts
use myblog.Comments
use myblog.Posts.Handlers.Saved
use myblog.Posts.Repository.{PostModel}
use myblog.Kernel.Events.{Stamp}
use myblog.Comments.Repository.{CommentModel}
use myblog.Comments.Handlers.{CommentStore}
use myblog.Kernel.Redis.{Redis}
use myblog.Posts.Domain.{Draft}
use myblog.Posts.Handlers.{PostStore}
use myblog.Base.Unicode.{Unicode, IsLawful}
use myblog.Base.Sorted.{text_le}
use myblog.Posts.ReadModel.{Collation}
use myblog.Base.{
  Text, ℕ, codes, not, [], refl, nat_eq, none, some, ◌+◌, ◌∷◌, false, true, ◌==◌, list_eq,
  number_eq, string_eq, option_eq,
}
use myblog.Kernel.Errors.{ok}

abbrev pub counter : Redis
counter = record {
  State = ℕ;
  Json = ℕ;
  incr = λ k n. (ok (n + 1), n + 1);
  get_count = λ k n. (ok 0, n);
  get_json = λ k n. (ok none, n);
  set_json = λ k v ttl n. (ok tt, n);
  exists = λ k n. (ok false, n);
  set_flag = λ k ttl n. (ok tt, n);
  delete = λ k n. (ok tt, n);
  incr_expire = λ k ttl n. (ok 1, n);
  incr_expire_nx = λ k ttl n. (ok 1, n);
}

abbrev pub ascii : Unicode
ascii = record { nfkd = λ t. t; lower = λ t. t; is_word = λ c. not (nat_eq c 32) }

abbrev pub ascii-IsLawful : IsLawful ascii
ascii-IsLawful = record { nfkd_ascii = λ t h. refl }

abbrev pub prefix : Text
prefix = codes "app"

abbrev pub stamp : Stamp
stamp = record { now = 5000000; new_id = codes "n1"; event_id = codes "e1" }

abbrev pub later : Stamp
later = record { now = 9000000; new_id = codes "n2"; event_id = codes "e2" }

-- One published post with one tag, in one category.
abbrev pub first_post : PostModel
first_post = record {
  id = codes "p1";
  title = codes "Hello";
  slug = codes "hello";
  summary = [];
  content = codes "A first post.";
  status = Posts.Domain.published;
  author_id = codes "u1";
  author_name = codes "Ada";
  category_id = some (codes "c1");
  cover_image_url = none;
  reading_time = 1;
  comment_count = 0;
  created_at = 1000000;
  updated_at = 1000000;
  published_at = some 1000000;
}

abbrev pub post_db : Posts.Repository.Db
post_db = record {
  posts = first_post ∷ [];
  post_tags = record { post_id = codes "p1"; tag = codes "news" } ∷ [];
  categories =
      record {
        id = codes "c1";
        name = codes "News";
        slug = codes "news";
        description = [];
        image_url = none;
      }
      ∷ [];
}

abbrev pub post_store : PostStore counter
post_store = record { db = post_db; outbox = []; world = 0; correlation_id = codes "r1" }

abbrev pub post_db-IsValid : Saved.IsValid post_db
post_db-IsValid = record { ids = refl; slugs = refl; category_ids = refl; category_slugs = refl }

abbrev pub draft : Draft
draft = record {
  title = codes "Hello";
  summary = [];
  content = codes "The same title again.";
  slug = none;
  category_id = some (codes "c1");
  tags = codes "C++" ∷ [];
  cover_image_url = none;
}

-- A comment that waits for moderation.
abbrev pub comment : CommentModel
comment = record {
  id = codes "k1";
  post_id = codes "p1";
  author_name = codes "Bob";
  author_email = none;
  content = codes "Nice.";
  status = Comments.Domain.pending;
  ip_hash = none;
  created_at = 2000000;
  moderated_at = none;
}

abbrev pub comment_db : Comments.Repository.Db
comment_db = record {
  comments = comment ∷ [];
  known_posts =
      record {
        post_id = codes "p1";
        slug = codes "hello";
        title = codes "Hello";
        is_published = true;
      }
      ∷ [];
}

abbrev pub comment_store : CommentStore counter
comment_store = record { db = comment_db; outbox = []; world = 0; correlation_id = codes "r2" }

-- Texts in the order of their code points, and patterns that match the same text only.
abbrev pub code_points : Collation
code_points = record { le = text_le; ilike = λ t pattern. t == pattern }
