-- ===== src/Posts/Handlers/Saved.antt =====
-- The keys of `posts` after a post is written, and the store after its commit.
use myblog.Base.{
  list_eq, number_eq, string_eq, option_eq, Text, List, unique, ◌≡◌, ◌==◌, has_key, false, true,
  none, some, ◌∷◌, update_at, row_at, arith, [], refl, ◌++◌, length, unique-update_at, delete_at,
}
use myblog.Kernel.Redis.{Redis}
use myblog.Posts.Repository
use myblog.Posts.Repository.{
  post_aggregate, post_schema, Db, post_key, PostModel, slug_taken, post_slug, category_key,
  write_fields, category_slug, replaced_tags, to_post, tags_of,
}
use myblog.Posts.Handlers.{PostStore, invalidate, posts_ns, Body}
use myblog.Posts.Domain.{Post}
use myblog.Kernel.UnitOfWork.{Tracked, outbox_rows, commit}
use myblog.Kernel.Exec.{◌>>◌}
use myblog.Kernel.Errors.{ok, Result}
use myblog.Cache.{bump}

-- What the database enforces.
pub record IsValid (db : Db) : Type 0 where
  pub ids : unique post_key db.posts ≡ true
  pub slugs : unique post_slug db.posts ≡ true
  pub category_ids : unique category_key db.categories ≡ true
  pub category_slugs : unique category_slug db.categories ≡ true

slug_taken_absent :
    (s id : Text) (rows : List PostModel)
    → has_key post_key id rows ≡ false
    → slug_taken s (some id) rows ≡ has_key post_slug s rows
slug_taken_absent s id [] h = refl
slug_taken_absent s id (m ∷ rows) h = ground (arith, slug_taken_absent s id rows)

pub slug_taken-none :
    (s : Text) (rows : List PostModel) → slug_taken s none rows ≡ has_key post_slug s rows
slug_taken-none s [] = refl
slug_taken-none s (m ∷ rows) = ground (arith, slug_taken-none s rows)

has_slug-row_at :
    (id : Text) (rows : List PostModel) (m : PostModel)
    → row_at post_key id rows ≡ some m
    → has_key post_slug m.slug rows ≡ true
has_slug-row_at id [] m h = cc
has_slug-row_at id (x ∷ rows) m h = ground (arith, has_slug-row_at id rows m)

-- A post's own slug is not taken by another post.
pub slug_taken_own :
    (id : Text) (rows : List PostModel) (m : PostModel)
    → unique post_key rows ≡ true
    → unique post_slug rows ≡ true
    → row_at post_key id rows ≡ some m
    → slug_taken m.slug (some id) rows ≡ false
slug_taken_own id [] m u v h = cc
slug_taken_own id (x ∷ rows) m u v h =
    ground
      (arith, slug_taken_own id rows m, slug_taken_absent m.slug id rows, has_slug-row_at id rows m)

has_slug-write :
    (p : Post) (id t : Text) (rows : List PostModel)
    → (t == p.slug) ≡ false
    → has_key post_slug t rows ≡ false
    → has_key post_slug t (update_at post_key id (write_fields p) rows) ≡ false
has_slug-write p id t [] ne h = refl
has_slug-write p id t (m ∷ rows) ne h = ground (arith, has_slug-write p id t rows)

-- Writing a post whose slug no other post has keeps the slugs apart.
pub unique_slug-write :
    (p : Post) (id : Text) (rows : List PostModel)
    → unique post_key rows ≡ true
    → unique post_slug rows ≡ true
    → slug_taken p.slug (some id) rows ≡ false
    → unique post_slug (update_at post_key id (write_fields p) rows) ≡ true
unique_slug-write p id [] u v h = refl
unique_slug-write p id (m ∷ rows) u v h = ground (
  arith,
  unique_slug-write p id rows,
  has_slug-write p id m.slug rows,
  slug_taken_absent p.slug id rows,
)

has_slug-delete :
    (id t : Text) (rows : List PostModel)
    → has_key post_slug t rows ≡ false
    → has_key post_slug t (delete_at post_key id rows) ≡ false
has_slug-delete id t [] h = refl
has_slug-delete id t (m ∷ rows) h = ground (arith, has_slug-delete id t rows)

pub unique_slug-delete :
    (id : Text) (rows : List PostModel)
    → unique post_slug rows ≡ true
    → unique post_slug (delete_at post_key id rows) ≡ true
unique_slug-delete id [] v = refl
unique_slug-delete id (m ∷ rows) v =
    ground (arith, unique_slug-delete id rows, has_slug-delete id m.slug rows)

module _ (R : Redis) (prefix : Text) where
  -- The store after the commit of a post that was in it: its row and its tags are those of `p`, its
  -- events are in the outbox, and the cached pages of posts are out of date.
  abbrev pub saved : Post → PostStore R → PostStore R
  saved p st = record st {
    db = record (st.db) {
      posts = update_at post_key p.id (write_fields p) st.db.posts;
      post_tags = replaced_tags p st.db.post_tags;
    };
    outbox =
        st.outbox
        ++ outbox_rows (length st.outbox) st.correlation_id "post-service" (p.events ++ []);
    world = (bump R prefix posts_ns st.world).1;
  }

  -- The object that `get` makes of a row.
  abbrev pub loaded : PostModel → PostStore R → Post
  loaded m st = to_post m (tags_of m.id st.db.post_tags)

  -- Every command that changes one post ends with these three lines.
  abbrev pub write_back : Tracked Post → Body R (Unit {0})
  write_back p = do Repository.update p; invalidate R prefix; commit

  -- A post that was loaded and changed to `p`, with no slug of another post, is saved.
  pub write_back_lem :
      (p : Post) (st : PostStore R)
      → IsValid st.db
      → slug_taken p.slug (some p.id) st.db.posts ≡ false
      → let (r, u) =
          write_back
            (0, p)
            (record {
              store = st;
              session = st.db;
              seen = (0, p) ∷ [];
              next_ref = 1;
              after_commit = [];
            }) in
        ◌≡◌ {A = Result (Unit {0}) × PostStore R} (r, u.store) (ok tt, saved p st)
  write_back_lem p st v free = rw (
    unique-update_at post_key p.id (write_fields p) (λ m. refl) st.db.posts,
    v.ids,
    unique_slug-write p p.id st.db.posts v.ids v.slugs free,
    v.category_ids,
    v.category_slugs,
  )
