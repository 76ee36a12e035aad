-- ===== src/Tests/Caching.antt =====
-- The examples of the cache, with a Redis that keeps what is written.
use myblog.Posts.Repository.{post_slug}
use mathlib.Core.List.{Memᴰ}
use myblog.Posts.Repository
use myblog.Cache.Fresh
use myblog.Posts.ReadModel.Totals
use myblog.Cache.Fresh.{Step, Reach, next, World, raised_to}
use myblog.Posts.Queries.{IsLawful, get_published}
use myblog.Kernel.Redis.{Redis, RaisesRedisError, View}
use myblog.Base.{
  Option, Text, [], some, if◌then◌else◌, arith, ℕ, ◌≡◌, none, List, ◌+◌, ◌==◌, false, ◌⊎◌, list_eq,
  number_eq, string_eq, option_eq, inl, refl, inr, nat_eq, codes, ◌∷◌, ◌≤◌, unique, true,
  Bool-cases,
}
use myblog.Posts.Queries.{Codec}
use myblog.Posts.ReadModel.{Page, PostSummary}
use myblog.Kernel.Errors.{ok}
use myblog.Posts.Queries.Reader.{loaded_at, AnswerFor, public_post, get_published_lem}
use myblog.Tests.Sample.{prefix, post_db, code_points}
use myblog.Cache.{remember, bump, get_or_load}
use myblog.Posts.Handlers.{posts_ns}
use myblog.Cache.Reads.{read-IsFresh}

-- The JSON values of post-service
data Value : Type 0 where
  of_page : Page PostSummary → Value
  of_post : Option (PostSummary × Text) → Value
  of_tags : List (Text × ℕ) → Value
  of_categories : List Totals.CategoryCount → Value

abbrev post_of : Value → Option (PostSummary × Text)
post_of (of_post o) = o
post_of _ = none

record Kept : Type 0 where
  counts : Text → ℕ
  values : Text → Option Value

abbrev written {ℓ} : {A : Type ℓ} → Text → A → (Text → A) → Text → A
written k a f j = if j == k then a else f j

abbrev keeper : Redis
keeper = record {
  State = Kept;
  Json = Value;
  incr = λ k s. (ok (s.counts k + 1), record s { counts = written k (s.counts k + 1) s.counts });
  get_count = λ k s. (ok (s.counts k), s);
  get_json = λ k s. (ok (s.values k), s);
  set_json = λ k v ttl s. (ok tt, record s { values = written k (some v) s.values });
  exists = λ k s. (ok false, s);
  set_flag = λ k ttl s. (ok tt, s);
  delete = λ k s. (ok tt, s);
  incr_expire = λ k ttl s. (ok 1, s);
  incr_expire_nx = λ k ttl s. (ok 1, s);
}

written-some :
    (k : Text) (v : Value) (f : Text → Option Value) (j : Text) (x : Value)
    → written k (some v) f j ≡ some x
    → (f j ≡ some x) ⊎ ((j ≡ k) × (x ≡ v))
written-some k v f j x h = elim (list_eq.dec j k) [
  | yes same ↦ inr (same, ground arith)
  | no other ↦ inl (ground arith)
]

abbrev keeper-View : View keeper
keeper-View = record {
  count_of = λ k s. s.counts k;
  json_of = λ k s. s.values k;
  get_count_keeps = λ k s. ((λ j. refl), (λ j x h. h));
  get_count_reads = λ k s n h. cc;
  get_json_keeps = λ k s. ((λ j. refl), (λ j x h. h));
  get_json_reads = λ k s x h. cc;
  set_json_counts = λ k v ttl s j. refl;
  set_json_writes = λ k v ttl s j x h. written-some k v s.values j x h;
  incr_counts = λ k s n h. ground arith;
  incr_grows = λ k s. ground arith;
  incr_keeps = λ k s j x h. h;
}

keeper-RaisesRedisError : RaisesRedisError keeper
keeper-RaisesRedisError = record {
  get_count_raises = λ k s e h. cc;
  get_json_raises = λ k s e h. cc;
  set_json_raises = λ k v ttl s e h. cc;
  incr_raises = λ k s e h. cc;
}

abbrev codec : Codec keeper
codec = record {
  page = of_page;
  post = of_post;
  tag_list = of_tags;
  category_list = of_categories;
  read_post = post_of;
  slug_key = λ slug. slug;
  list_key = λ q. [];
}

codec-IsLawful : IsLawful keeper codec
codec-IsLawful = record { post_back = λ o. refl }

-- A world in which nothing is cached; the post is there, and after a commit it is gone.
abbrev db_at : ℕ → Repository.Db
db_at g = if nat_eq g 0 then post_db else record post_db { posts = [] }

abbrev hello : Text
hello = codes "hello"

abbrev value : ℕ → Value
value g = loaded_at keeper codec hello db_at g

abbrev start : World keeper
start = record {
  redis = record { counts = λ k. 0; values = λ k. none };
  commits = 0;
  floor = λ v. 0;
  asked = [];
  loaded = [];
}

start-IsValid : Fresh.IsValid keeper prefix posts_ns hello 60 value keeper-View start
start-IsValid = record {
  floors = λ v. omega arith;
  known = λ v m. (elim m [ ]);
  seen = λ v g m. (elim m [ ]);
  cached = λ v x h. cc;
}

-- A reader asks and loads; a writer deletes the post; the reader stores what it has loaded; the
-- writer bumps the version.
abbrev asking : World keeper
asking = record start { asked = 0 ∷ [] }

abbrev loading : World keeper
loading = record asking { loaded = (0, 0) ∷ [] }

abbrev deleted : World keeper
deleted = record loading { commits = 1 }

abbrev stored : World keeper
stored = record deleted {
  redis =
      (remember keeper prefix (Fresh.key_at keeper prefix posts_ns hello 60 value 0) 60 (value 0)
        start.redis).1;
}

abbrev bumped : World keeper
bumped = record stored {
  redis = (bump keeper prefix posts_ns stored.redis).1;
  floor = raised_to 1 1 (λ v. 0);
}

path : Reach keeper prefix posts_ns hello 60 value start bumped
path =
    Reach.next
      (Reach.next
        (Reach.next
          (Reach.next (Reach.next Reach.here (Step.ask 0 refl refl))
            (Step.load 0 (Memᴰ.head refl) refl))
          (Step.commit refl))
        (Step.store 0 0 (Memᴰ.head refl) refl))
      (Step.begin_version 1 refl refl)

read-IsFresh_example :
    (x : Value) × ((get_or_load keeper prefix posts_ns hello 60 (ok (value 1)) bumped.redis).0
      ≡ ok x)
    × Fresh.IsFresh keeper prefix posts_ns hello 60 value keeper-View bumped 1 x
unfolding list_eq number_eq
read-IsFresh_example =
    read-IsFresh keeper keeper-RaisesRedisError keeper-View prefix posts_ns hello 60 value start
      bumped start-IsValid path

slugs_unique : (g : ℕ) → unique post_slug (db_at g).posts ≡ true
slugs_unique g = elim (Bool-cases (nat_eq g 0)) [
  | inl first ↦ rw first refl
  | inr after ↦ rw after refl
]

get_published_lem_example :
    (g : ℕ) × (bumped.floor 1 ≤ g)
    × (g ≤ 1)
    × AnswerFor
        (db_at g)
        (public_post hello (db_at g))
        (get_published keeper codec code_points prefix 60 (db_at 1) hello bumped.redis).0
unfolding list_eq number_eq
get_published_lem_example =
    get_published_lem keeper keeper-RaisesRedisError codec codec-IsLawful code_points prefix 60
      hello keeper-View db_at slugs_unique start bumped start-IsValid path
