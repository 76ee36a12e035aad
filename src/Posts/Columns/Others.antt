-- ===== src/Posts/Columns/Others.antt =====
-- What the commands on categories and the events about comments leave in the tables fits.
use myblog.Base.{
  Text, Option, none, some, if◌then◌else◌, Bool, true, false, refl, list_eq, number_eq,
}
use myblog.Base.Int.{ℤ}
use myblog.Base.Unicode.{Unicode}
use myblog.Kernel.Errors.{ok, err, Result, raised, conflict}
use myblog.Kernel.Events.{Stamp, Envelope}
use myblog.Kernel.Exec.{pure, required, lift, ◌>>=◌}
use myblog.Kernel.Redis.{Redis}
use myblog.Kernel.Steps.{Ensures, Ensures-bind, Ensures-then}
use myblog.Kernel.UnitOfWork.{Tracked}
use myblog.Posts.Domain
use myblog.Posts.Domain.{Post, Draft, Category, change_slug}
use myblog.Posts.Handlers
use myblog.Posts.Handlers.{
  PostStore, CreatePostCommand, UpdatePostCommand, CreateCategoryCommand, publish_if, create_body,
  update_body, invalidate, sync_found,
}
use myblog.Posts.Repository
use myblog.Posts.Repository.{
  Db, post_aggregate, post_schema, post_key, category_key, post_slug, category_slug, tagged,
  to_model,
}
use myblog.Posts.Columns.{Fits, FitsNullable, ShortCategory, ShortDb}
use myblog.Posts.Columns.Session
use myblog.Posts.Columns.Objects
use myblog.Posts.Columns.Objects.{FitsDraft, FitsWithSlug, deleted-fits, change_slug-fits}
use myblog.Posts.Columns.Steps.{
  Fit, Anything, Fit-tables, sees, same, commit-Fit, add_category-Fit, delete_category-Fit,
  required-same, ok-fits, mutate-Fit, invalidate-Fit, save-Fit, run-fits,
}

module _ (R : Redis) (prefix : Text) where
  pub create_category-fits :
      (u : Unicode) (s : Stamp) (cmd : CreateCategoryCommand) (st : PostStore R)
      → Fits 36 s.new_id
      → FitsNullable 500 cmd.image_url
      → ShortDb st.db
      → ShortDb (Handlers.create_category R prefix u s cmd st).1.db
  unfolding Handlers.create_category
  create_category-fits u s cmd st short image fits =
      run-fits R prefix _
        (Ensures-bind (same R prefix)
          (Session.lift-fits R prefix (Fit R prefix) (Fit-tables R prefix) (sees R prefix)
            ShortCategory (Domain.create_category u s cmd.name cmd.description cmd.image_url)
            (λ c h.
              Objects.create_category-fits u s cmd.name cmd.description cmd.image_url c short image
                h))
          (λ c o.
            Ensures-bind (same R prefix)
              (Session.reads-fits R prefix (Fit R prefix) (Fit-tables R prefix) (sees R prefix)
                (Repository.category_slug_exists {W = R.State} c.slug) (λ w. refl))
              (λ taken t.
                Ensures-then (same R prefix)
                  (Session.throw_if-fits R prefix (Fit R prefix) (Fit-tables R prefix)
                    (sees R prefix) taken (raised conflict))
                  (Ensures-then (same R prefix) (add_category-Fit R prefix c o) (
                    Ensures-then (same R prefix) (invalidate-Fit R prefix) (
                      Ensures-then (same R prefix) (commit-Fit R prefix) (
                        Session.pure-fits R prefix (Fit R prefix) (Fit-tables R prefix)
                          (sees R prefix) c.id)))))))
        st fits

  pub delete_category-fits :
      (id : Text) (st : PostStore R)
      → ShortDb st.db
      → ShortDb (Handlers.delete_category R prefix id st).1.db
  unfolding Handlers.delete_category
  delete_category-fits id st fits =
      run-fits R prefix _
        (Ensures-bind (same R prefix)
          (Session.reads-fits R prefix (Fit R prefix) (Fit-tables R prefix) (sees R prefix)
            (Repository.get_category {W = R.State} id) (λ w. refl))
          (λ found t.
            Ensures-bind (same R prefix)
              (Session.reads-fits R prefix (Fit R prefix) (Fit-tables R prefix) (sees R prefix)
                (required found) (required-same R prefix found))
              (λ c t.
                Ensures-bind (same R prefix)
                  (Session.reads-fits R prefix (Fit R prefix) (Fit-tables R prefix) (sees R prefix)
                    (Repository.category_in_use {W = R.State} id) (λ w. refl))
                  (λ used t.
                    Ensures-then (same R prefix)
                      (Session.throw_if-fits R prefix (Fit R prefix) (Fit-tables R prefix)
                        (sees R prefix) used (raised conflict))
                      (Ensures-then (same R prefix) (delete_category-Fit R prefix c) (
                        Ensures-then (same R prefix) (invalidate-Fit R prefix)
                          (commit-Fit R prefix)))))))
        st fits

  sync_found-Fit :
      (count : ℤ) (o : Option (Tracked Post))
      → Session.FitsFound R prefix o
      → Ensures (Fit R prefix) Anything (Fit R prefix) (sync_found R prefix count o)
  unfolding sync_found
  sync_found-Fit count none h =
      Session.pure-fits R prefix (Fit R prefix) (Fit-tables R prefix) (sees R prefix) tt
  sync_found-Fit count (some p) o =
      Ensures-bind (same R prefix)
        (mutate-Fit R prefix p (ok (Domain.sync_comment_count count p.1)) (λ q h.
          (ok-fits R prefix) (Domain.sync_comment_count count p.1) q (Objects.sync-fits count p.1 o)
            h))
        (λ p' o'. (save-Fit R prefix) p' o')

  sync-fits :
      (id : Text) (count : ℤ) (st : PostStore R)
      → ShortDb st.db
      → ShortDb (Handlers.sync_comment_count R prefix id count st).1.db
  unfolding Handlers.sync_comment_count
  sync-fits id count st fits =
      run-fits R prefix _
        (Ensures-bind (same R prefix)
          (Session.get-fits R prefix (Fit R prefix) (Fit-tables R prefix) (sees R prefix) id)
          (sync_found-Fit count))
        st fits

  abbrev Stored : PostStore R → Type 0
  Stored st = ShortDb st.db

  lifted-Stored : {A : Type 0} (r : Result A) → Ensures Stored Anything Stored (lift r)
  lifted-Stored (ok a) = record { kept = λ st h. h; answers = λ st h a e. tt }
  lifted-Stored (err x) = record { kept = λ st h. h; answers = λ st h a e. tt }

  sync-Stored :
      (id : Text) (count : ℤ)
      → Ensures Stored Anything Stored (Handlers.sync_comment_count R prefix id count)
  sync-Stored id count = record { kept = sync-fits id count; answers = λ st h a e. tt }

  event-Stored :
      (counts : Bool) (id : Result Text) (count : Result ℤ)
      → Ensures Stored Anything Stored (
          if counts
          then (do
            post_id ← lift id
            count ← lift count
            Handlers.sync_comment_count R prefix post_id count)
          else pure tt)
  event-Stored true id count =
      Ensures-bind (λ st h. h) (lifted-Stored id)
        (λ id' t. Ensures-bind (λ st h. h) (lifted-Stored count) (λ n t. sync-Stored id' n))
  event-Stored false id count = record { kept = λ st h. h; answers = λ st h a e. tt }

  -- An event about comments
  pub comment_event-fits :
      (e : Envelope) (st : PostStore R)
      → ShortDb st.db
      → ShortDb (Handlers.handle_comment_event R prefix e st).1.db
  unfolding Handlers.handle_comment_event
  comment_event-fits e st fits = (event-Stored _ _ _).kept st fits
