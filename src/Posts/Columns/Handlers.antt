-- ===== src/Posts/Columns/Handlers.antt =====
-- What the commands on posts leave in the tables fits.
use myblog.Base.{Text, none, ◌<◌, ◌^◌, length, ◌≡◌, Bool, true, false, list_eq, number_eq, subst}
use myblog.Base.Unicode.{Unicode}
use myblog.Kernel.Errors.{ok, raised, conflict}
use myblog.Kernel.Events.{Stamp}
use myblog.Kernel.Exec.{pure, ◌>>=◌, ◌>>◌}
use myblog.Kernel.Redis.{Redis}
use myblog.Kernel.Steps.{Ensures, Ensures-bind, Ensures-then}
use myblog.Kernel.UnitOfWork.{Tracked, commit, mutate}
use myblog.Posts.Domain
use myblog.Posts.Domain.{Post, Draft, Category, change_slug}
use myblog.Posts.Handlers
use myblog.Posts.Handlers.{
  PostStore, CreatePostCommand, UpdatePostCommand, CreateCategoryCommand, publish_if, create_body,
  update_body, invalidate, sync_found,
}
use myblog.Posts.Repository
use myblog.Posts.Repository.{
  Db, post_aggregate, post_schema, post_key, category_key, post_slug, category_slug, tagged,
  to_model,
}
use myblog.Posts.Columns.{Fits, ShortDb, FitsObject}
use myblog.Posts.Columns.Session
use myblog.Posts.Columns.Objects
use myblog.Posts.Columns.Objects.{FitsDraft, FitsWithSlug, deleted-fits, change_slug-fits}
use myblog.Posts.Columns.Steps.{
  Fit, FitFew, Anything, Fit-tables, FitFew-tables, sees, sees_few, drop_few, same, delete-Fit,
  add-Fit, commit-Fit, ok-fits, get_post-Fit, mutate-Fit, invalidate-Fit, save-Fit, run-fits,
  run_few-fits,
}

module _ (R : Redis) (prefix : Text) where
  -- The commands on a post that is there
  pub publish-fits :
      (s : Stamp) (id : Text) (st : PostStore R)
      → ShortDb st.db
      → ShortDb (Handlers.publish R prefix s id st).1.db
  unfolding Handlers.publish
  publish-fits s id st fits =
      run-fits R prefix _
        (Ensures-bind (same R prefix) (get_post-Fit R prefix id) (λ p o.
          Ensures-bind (same R prefix)
            (mutate-Fit R prefix p (Domain.publish s p.1) (λ q h. Objects.publish-fits s p.1 q o h))
            (λ p' o'. (save-Fit R prefix) p' o')))
        st fits

  pub unpublish-fits :
      (s : Stamp) (id : Text) (st : PostStore R)
      → ShortDb st.db
      → ShortDb (Handlers.unpublish R prefix s id st).1.db
  unfolding Handlers.unpublish
  unpublish-fits s id st fits =
      run-fits R prefix _
        (Ensures-bind (same R prefix) (get_post-Fit R prefix id) (λ p o.
          Ensures-bind (same R prefix)
            (mutate-Fit R prefix p (Domain.unpublish s p.1)
              (λ q h. Objects.unpublish-fits s p.1 q o h))
            (λ p' o'. (save-Fit R prefix) p' o')))
        st fits

  pub delete-fits :
      (s : Stamp) (id : Text) (st : PostStore R)
      → ShortDb st.db
      → ShortDb (Handlers.delete R prefix s id st).1.db
  unfolding Handlers.delete
  delete-fits s id st fits =
      run-fits R prefix _
        (Ensures-bind (same R prefix) (get_post-Fit R prefix id) (λ p o.
          Ensures-bind (same R prefix)
            (mutate-Fit R prefix p (ok (Domain.mark_deleted s p.1))
              (λ q h. (ok-fits R prefix) (Domain.mark_deleted s p.1) q (deleted-fits s p.1 o) h))
            (λ p' o'.
              Ensures-then (same R prefix) (delete-Fit R prefix p')
                (Ensures-then (same R prefix) (invalidate-Fit R prefix) (commit-Fit R prefix)))))
        st fits

  pub update-fits :
      (u : Unicode) (s : Stamp) (cmd : UpdatePostCommand) (st : PostStore R)
      → FitsDraft cmd.body
      → ShortDb st.db
      → ShortDb (Handlers.update R prefix u s cmd st).1.db
  unfolding Handlers.update
  update-fits u s cmd st fit fits =
      run-fits R prefix _
        (Ensures-bind (same R prefix) (get_post-Fit R prefix cmd.post_id) (λ p o.
          Ensures-then (same R prefix)
            (Session.reads-fits R prefix (Fit R prefix) (Fit-tables R prefix) (sees R prefix)
              (Handlers.check_category R prefix cmd.body.category_id)
              (Session.check_category-same R prefix cmd.body.category_id))
            (Ensures-bind (same R prefix)
              (mutate-Fit R prefix p (Domain.update u s cmd.body p.1)
                (λ q h. Objects.update-fits u s cmd.body p.1 q o fit h))
              (λ p' o'.
                Ensures-bind (same R prefix)
                  (Session.reads-fits R prefix (Fit R prefix) (Fit-tables R prefix) (sees R prefix)
                    (Handlers.slug_conflict R prefix cmd.body.slug p')
                    (Session.slug_conflict-same R prefix cmd.body.slug p'))
                  (λ taken t.
                    Ensures-then (same R prefix)
                      (Session.throw_if-fits R prefix (Fit R prefix) (Fit-tables R prefix)
                        (sees R prefix) taken (raised conflict))
                      (save-Fit R prefix p' o'))))))
        st fits

  publish_if-Fit :
      (wanted : Bool) (s : Stamp) (p : Tracked Post)
      → FitsObject p.1
      → Ensures
          (FitFew R prefix)
          (Session.FitsTracked R prefix)
          (FitFew R prefix)
          (publish_if R prefix wanted s p)
  publish_if-Fit true s p o =
      Session.mutate-fits R prefix (FitFew R prefix) (FitFew-tables R prefix) (sees_few R prefix) p
        (Domain.publish s p.1) (λ q h. Objects.publish-fits s p.1 q o h)
  publish_if-Fit false s p o = record {
    kept = λ u h. h;
    answers = λ u h q e. let is : p ≡ q = cc in subst (Session.FitsTracked R prefix) is o;
  }

  -- A post that is made, from when its slug is looked for
  insert-Fit :
      (s' : Stamp) (wanted : Bool) (p : Tracked Post)
      → FitsWithSlug p.1
      → Ensures (FitFew R prefix) Anything (Fit R prefix) (do
        slug ← Handlers.unique_slug R prefix p.1.slug none
        p ← mutate p (ok (change_slug slug p.1))
        p ← publish_if R prefix wanted s' p
        Repository.add {W = R.State} p
        invalidate R prefix
        commit
        pure p.1.id)
  insert-Fit s' wanted p (o, short) =
      Ensures-bind (drop_few R prefix) (Session.unique_slug-fits R prefix p.1.slug short)
        (λ slug named.
          Ensures-bind (drop_few R prefix)
            (Session.mutate-fits R prefix (FitFew R prefix) (FitFew-tables R prefix)
              (sees_few R prefix) p (ok (change_slug slug p.1))
              (λ q h.
                (ok-fits R prefix) (change_slug slug p.1) q (change_slug-fits slug p.1 named o) h))
            (λ p1 o1. Ensures-bind (drop_few R prefix) (publish_if-Fit wanted s' p1 o1) (λ p2 o2.
              Ensures-then (same R prefix) (add-Fit R prefix p2 o2) (
                Ensures-then (same R prefix) (invalidate-Fit R prefix) (
                  Ensures-then (same R prefix) (commit-Fit R prefix) (
                    Session.pure-fits R prefix (Fit R prefix) (Fit-tables R prefix) (sees R prefix)
                      p2.1.id))))))

  pub create-fits :
      (u : Unicode) (s s' : Stamp) (cmd : CreatePostCommand) (st : PostStore R)
      → Fits 36 s.new_id
      → Fits 36 cmd.author_id
      → Fits 100 cmd.author_name
      → FitsDraft cmd.body
      → length st.db.posts < 10 ^ 18
      → ShortDb st.db
      → ShortDb (Handlers.create R prefix u s s' cmd st).1.db
  unfolding Handlers.create
  create-fits u s s' cmd st short author named fit few fits =
      let made = Domain.create u s cmd.author_id cmd.author_name cmd.body in
      run_few-fits R prefix _
        (Ensures-then (drop_few R prefix)
          (Session.reads-fits R prefix (FitFew R prefix) (FitFew-tables R prefix)
            (sees_few R prefix) (Handlers.check_category R prefix cmd.body.category_id)
            (Session.check_category-same R prefix cmd.body.category_id))
          (Ensures-bind (drop_few R prefix)
            (Session.lift-fits R prefix (FitFew R prefix) (FitFew-tables R prefix)
              (sees_few R prefix) FitsWithSlug made
              (λ p h.
                Objects.create-fits u s cmd.author_id cmd.author_name cmd.body p short author named
                  fit h))
            (λ p o.
              Ensures-bind (drop_few R prefix)
                (Session.new_object-fits R prefix (FitFew R prefix) (FitFew-tables R prefix)
                  (sees_few R prefix) FitsWithSlug p o)
                (λ p' o'. insert-Fit s' cmd.publish p' o'))))
        st fits few
