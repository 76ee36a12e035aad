-- ===== src/Posts/Queries/Reader.antt =====
-- A reader who asks for a post by its slug, through the cache.
use myblog.Cache.Fresh
use myblog.Posts.Queries.{Codec, IsLawful, get_published, hit, counted_view}
use myblog.Kernel.Redis.{Redis, View, RaisesRedisError}
use myblog.Posts.ReadModel.{
  Collation, get_by_slug, PostSummary, is_published_row, summary_of, category_of,
}
use myblog.Base.{
  Text, ℕ, unique, ◌≡◌, true, Option, list_eq, number_eq, string_eq, option_eq, none, inl, codes,
  row_at, ◌++◌, inr, some, refl, ◌≤◌, ◌∙◌, ap,
}
use myblog.Posts.Repository.{Db, post_slug, PostModel}
use myblog.Cache.{get_or_load}
use myblog.Kernel.Errors.{Result, ok, Result-cases, err, raised, not_found}
use myblog.Posts.Handlers.{posts_ns}
use myblog.Posts.ReadModel.Published.{only_if, page_for, by_slug_lem}
use myblog.Cache.Fresh.{World, Reach}
use myblog.Cache.Reads.{read-IsFresh}

-- The post that a reader may see in a database.
abbrev pub public_post : Text → Db → Option PostModel
public_post slug db = only_if is_published_row (row_at post_slug slug db.posts)

-- The answer to a reader about that post, with some number of views.
abbrev pub AnswerFor : Db → Option PostModel → Result (PostSummary × Text × ℕ) → Type 0
AnswerFor db none r = r ≡ err (raised not_found)
AnswerFor db (some m) r =
    (n : ℕ) × (r ≡ ok (summary_of db (m, category_of m.category_id db.categories), m.content, n))

-- What the loader of `get_published` reads.
abbrev pub loaded_post : (R : Redis) → Codec R → Text → Db → R.Json
loaded_post R codec slug db = codec.post (get_by_slug slug true db)

-- The same after `g` commits.
abbrev pub loaded_at : (R : Redis) → Codec R → Text → (ℕ → Db) → ℕ → R.Json
loaded_at R codec slug db_at g = loaded_post R codec slug (db_at g)

module _ (R : Redis) (raises : RaisesRedisError R) where
  pub hit-ok : (id : Text) (s : R.State) → (n : ℕ) × ((hit R id s).0 ≡ ok n)
  hit-ok id s = elim (Result-cases (R.incr (codes "post:views:" ++ id) s).0) [
    | inl (n, counted) ↦ (n, rw counted)
    | inr (e, failed) ↦
        let same = raises.incr_raises (codes "post:views:" ++ id) s e failed in
        (0, rw (failed, same))
  ]

  counted_lem :
      (db : Db) (o : Option PostModel) (s : R.State)
      → AnswerFor db o (counted_view R (page_for db o) s).0
  unfolding counted_view
  counted_lem db none s = refl
  counted_lem db (some m) s = let (n, counted) = hit-ok m.id s in (n, rw counted refl)

  module _ (codec : Codec R) (back : IsLawful R codec) (col : Collation) (prefix : Text) (ttl : ℕ)
      (slug : Text) where
    answer_lem :
        (db now : Db) (s : R.State)
        → unique post_slug db.posts ≡ true
        → (get_or_load R prefix posts_ns
            (codec.slug_key slug)
            ttl
            (ok (loaded_post R codec slug now))
            s).0
          ≡ ok (loaded_post R codec slug db)
        → AnswerFor db (public_post slug db) (get_published R codec col prefix ttl now slug s).0
    unfolding get_published
    answer_lem db now s u got =
        rw (got, back.post_back (get_by_slug slug true db), by_slug_lem slug true db u)
          (counted_lem db (public_post slug db)
            (get_or_load R prefix posts_ns (codec.slug_key slug) ttl
              (ok (loaded_post R codec slug now)) s).1)

    -- `db_at g` is the database after `g` commits, and its slugs are unique. The
    -- calls of Redis raise RedisError only, and the codec reads back what it writes. From a world in which nothing is cached too old,
    -- readers of the slug and writers take any steps. Then `get_published` answers as one of the
    -- databases since the current version began: with the post that it has under the slug and its
    -- number of views if the post is published, and with NotFoundError if there is none or it is a
    -- draft.
    pub get_published_lem :
        (view : View R) (db_at : ℕ → Db)
        → ((g : ℕ) → unique post_slug (db_at g).posts ≡ true)
        → (start w : World R)
        → Fresh.IsValid R prefix posts_ns
            (codec.slug_key slug)
            ttl
            (loaded_at R codec slug db_at)
            view
            start
        → Reach R prefix posts_ns (codec.slug_key slug) ttl (loaded_at R codec slug db_at) start w
        → (g : ℕ) × (w.floor (
              Fresh.current R prefix posts_ns
                (codec.slug_key slug)
                ttl
                (loaded_at R codec slug db_at)
                view
                w)
            ≤ g)
          × (g ≤ w.commits)
          × AnswerFor
              (db_at g)
              (public_post slug (db_at g))
              (get_published R codec col prefix ttl (db_at w.commits) slug w.redis).0
    get_published_lem view db_at slugs start w v reach =
        let (x, answer, fresh) =
          read-IsFresh R raises view prefix posts_ns (codec.slug_key slug) ttl
            (loaded_at R codec slug db_at) start w v reach in
        let (g, floor, bound, same) = fresh in
        (
          g,
          floor,
          bound,
          answer_lem (db_at g) (db_at w.commits) w.redis (slugs g) (answer ∙ ap ok same),
        )
