-- ===== src/Posts/Handlers/Lifecycle.antt =====
-- Publishing, unpublishing, updating, deleting and counting, on every branch.
use myblog.Base.{
  list_eq, number_eq, string_eq, option_eq, Text, ◌≡◌, Option, row_at, some, none, Option-cases,
  inr, inl, arith, row_at-key, subst, sym, delete_at, unique-delete_at, ◌++◌, length, [],
}
use myblog.Kernel.Redis.{Redis}
use myblog.Posts.Domain
use myblog.Posts.Repository.{post_aggregate, post_schema, PostModel, post_key, tagged}
use myblog.Posts.Handlers
use myblog.Posts.Handlers.{PostStore, Body, get_post, posts_ns}
use myblog.Posts.Handlers.Saved.{
  IsValid, saved, loaded, write_back, write_back_lem, slug_taken_own, unique_slug-delete,
}
use myblog.Posts.Domain.{Post}
use myblog.Kernel.Errors.{Result, ok, err, raised, not_found, Result-cases}
use myblog.Kernel.Exec.{◌>>=◌}
use myblog.Kernel.UnitOfWork.{mutate, with_uow, outbox_rows}
use myblog.Kernel.Events.{Stamp}
use myblog.Base.Int.{ℤ}
use myblog.Cache.{bump}

module _ (R : Redis) (prefix : Text) where
  -- What a command that changes a post by `f` answers: an error leaves the store as it is.
  abbrev pub answered : Result Post → PostStore R → Result (Unit {0}) × PostStore R
  answered (ok p) st = (ok tt, saved R prefix p st)
  answered (err e) st = (err e, st)

  abbrev pub outcome :
      (Post → Result Post) → Option PostModel → PostStore R → Result (Unit {0}) × PostStore R
  outcome f none st = (err (raised not_found), st)
  outcome f (some m) st = answered (f (loaded R prefix m st)) st

  -- `f` keeps the identifier and the slug.
  abbrev KeepsKeys : (Post → Result Post) → Type 0
  KeepsKeys f = (q p : Post) → f q ≡ ok p → (p.id ≡ q.id) × (p.slug ≡ q.slug)

  module _ (f : Post → Result Post) (k : KeepsKeys f) (st : PostStore R) (v : IsValid st.db) where
    abbrev edit : Text → Body R (Unit {0})
    edit id = do p ← get_post R prefix id; p ← mutate p (f p.1); write_back R prefix p

    edit_found :
        (m : PostModel)
        → row_at post_key m.id st.db.posts ≡ some m
        → with_uow (edit m.id) st ≡ outcome f (some m) st
    edit_found m found = elim (Result-cases (f (loaded R prefix m st))) [
      | inr (x, refused) ↦ rw (found, refused)
      | inl (p, changed) ↦
          let same = k (loaded R prefix m st) p changed in
          rw (found, changed)
            (write_back_lem R prefix p st v
              (rw (same.0, same.1) (slug_taken_own m.id st.db.posts m v.ids v.slugs found)))
    ]

    pub edit_lem :
        (id : Text) → with_uow (edit id) st ≡ outcome f (row_at post_key id st.db.posts) st
    edit_lem id = elim (Option-cases (row_at post_key id st.db.posts)) [
      | inl absent ↦ rw absent
      | inr (m, found) ↦
          let e = row_at-key post_key id st.db.posts m found in
          subst (λ o. with_uow (edit id) st ≡ outcome f o st) (sym found)
            (subst (λ k. with_uow (edit k) st ≡ outcome f (some m) st) e
              (edit_found m (subst (λ k. row_at post_key k st.db.posts ≡ some m) (sym e) found)))
    ]

  -- On a store with unique keys, publishing any identifier is answered as `outcome` tells: a missing
  -- post is not found, a refusal of `Post.publish` leaves the store as it is, and else the changed
  -- post, its events and the cache's new version are saved.
  pub publish_lem :
      (s : Stamp) (id : Text) (st : PostStore R)
      → IsValid st.db
      → Handlers.publish R prefix s id st
        ≡ outcome (Domain.publish s) (row_at post_key id st.db.posts) st
  unfolding Handlers.publish
  publish_lem s id st v =
      edit_lem (Domain.publish s) (unfold Domain.publish in λ q p h. ground arith) st v id

  -- The same for unpublishing, with `Post.unpublish`.
  pub unpublish_lem :
      (s : Stamp) (id : Text) (st : PostStore R)
      → IsValid st.db
      → Handlers.unpublish R prefix s id st
        ≡ outcome (Domain.unpublish s) (row_at post_key id st.db.posts) st
  unfolding Handlers.unpublish
  unpublish_lem s id st v =
      edit_lem (Domain.unpublish s) (unfold Domain.unpublish in λ q p h. ground arith) st v id

  -- A count for a post that is not there changes nothing, and is no error.
  abbrev pub counted : ℤ → Option PostModel → PostStore R → Result (Unit {0}) × PostStore R
  counted count none st = (ok tt, st)
  counted count (some m) st =
      (ok tt, saved R prefix (Domain.sync_comment_count count (loaded R prefix m st)) st)

  counted_found :
      (count : ℤ) (m : PostModel) (st : PostStore R)
      → IsValid st.db
      → row_at post_key m.id st.db.posts ≡ some m
      → Handlers.sync_comment_count R prefix m.id count st ≡ counted count (some m) st
  unfolding Handlers.sync_comment_count
  counted_found count m st v found = rw found (
      write_back_lem R prefix (Domain.sync_comment_count count (loaded R prefix m st)) st v
        (slug_taken_own m.id st.db.posts m v.ids v.slugs found))

  -- On a store with unique keys, any count for any post is accepted: it is saved with the post, and
  -- nothing changes where there is no such post.
  pub sync_comment_count_lem :
      (id : Text) (count : ℤ) (st : PostStore R)
      → IsValid st.db
      → Handlers.sync_comment_count R prefix id count st
        ≡ counted count (row_at post_key id st.db.posts) st
  sync_comment_count_lem id count st v = elim (Option-cases (row_at post_key id st.db.posts)) [
    | inl absent ↦ unfold Handlers.sync_comment_count in rw absent
    | inr (m, found) ↦
        let e = row_at-key post_key id st.db.posts m found in
        subst (λ o. Handlers.sync_comment_count R prefix id count st ≡ counted count o st)
          (sym found)
          (subst (λ k. Handlers.sync_comment_count R prefix k count st ≡ counted count (some m) st)
            e
            (counted_found count m st v
              (subst (λ k. row_at post_key k st.db.posts ≡ some m) (sym e) found)))
  ]

  -- Deleting a post takes its row and its tags, and tells of it.
  abbrev pub deleted : Stamp → Option PostModel → PostStore R → Result (Unit {0}) × PostStore R
  deleted s none st = (err (raised not_found), st)
  deleted s (some m) st = (
    ok tt,
    record st {
      db = record (st.db) {
        posts = delete_at post_key m.id st.db.posts;
        post_tags = delete_at tagged m.id st.db.post_tags;
      };
      outbox =
          st.outbox
          ++ outbox_rows (length st.outbox) st.correlation_id "post-service"
              ((Domain.mark_deleted s (loaded R prefix m st)).events ++ []);
      world = (bump R prefix posts_ns st.world).1;
    },
  )

  deleted_found :
      (s : Stamp) (m : PostModel) (st : PostStore R)
      → IsValid st.db
      → row_at post_key m.id st.db.posts ≡ some m
      → Handlers.delete R prefix s m.id st ≡ deleted s (some m) st
  unfolding Handlers.delete
  deleted_found s m st v found = rw (
    found,
    unique-delete_at post_key m.id st.db.posts v.ids,
    unique_slug-delete m.id st.db.posts v.slugs,
    v.category_ids,
    v.category_slugs,
  )

  -- On a store with unique keys, deleting any identifier is answered as `deleted` tells: a missing
  -- post is not found, and else the row and its tags go, the events of `Post.mark_deleted` are
  -- announced, and the cached pages are out of date.
  pub delete_lem :
      (s : Stamp) (id : Text) (st : PostStore R)
      → IsValid st.db
      → Handlers.delete R prefix s id st ≡ deleted s (row_at post_key id st.db.posts) st
  delete_lem s id st v = elim (Option-cases (row_at post_key id st.db.posts)) [
    | inl absent ↦ unfold Handlers.delete in rw absent
    | inr (m, found) ↦
        let e = row_at-key post_key id st.db.posts m found in
        subst (λ o. Handlers.delete R prefix s id st ≡ deleted s o st) (sym found)
          (subst (λ k. Handlers.delete R prefix s k st ≡ deleted s (some m) st) e
            (deleted_found s m st v
              (subst (λ k. row_at post_key k st.db.posts ≡ some m) (sym e) found)))
  ]
