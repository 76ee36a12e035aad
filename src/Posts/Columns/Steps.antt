-- ===== src/Posts/Columns/Steps.antt =====
-- What the methods of the repository and the ends of the commands leave in the tables fits.
use myblog.Base.{
  Text, Option, none, some, ◌<◌, ◌^◌, length, All-append, [], ◌∷◌, ◌≡◌, Bool-cases, inl, inr, refl,
  list_eq, number_eq, ◌||◌, has_key, subst,
}
use myblog.Base.AllTables.{All-update_at, All-delete_at}
use myblog.Kernel.Errors.{ok, Result}
use myblog.Kernel.Exec.{Exec, required, ◌>>=◌, ◌>>◌}
use myblog.Kernel.Redis.{Redis}
use myblog.Kernel.Steps.{Ensures, Ensures-bind, Ensures-then}
use myblog.Kernel.UnitOfWork.{Tracked, commit, with_uow, mutate, enter}
use myblog.Posts.Domain.{Post, Category}
use myblog.Posts.Handlers.{PostStore, invalidate}
use myblog.Posts.Repository
use myblog.Posts.Repository.{
  Db, post_aggregate, post_schema, post_key, category_key, post_slug, category_slug, tagged,
  to_model,
}
use myblog.Posts.Columns.{ShortPost, ShortTag, ShortCategory, ShortDb, FitsObject}
use myblog.Posts.Columns.Writes.{replaced_tags-fits, write_fields-fits}
use myblog.Posts.Columns.Session

abbrev pub Anything : {A : Type 0} → A → Type 0
Anything a = Unit

module _ (R : Redis) (prefix : Text) where
  abbrev pub UnitOf : Type 0
  UnitOf = Session.UnitOf R prefix

  abbrev pub Fit : UnitOf → Type 0
  Fit = Session.Fit R prefix

  abbrev pub FitFew : UnitOf → Type 0
  FitFew = Session.FitFew R prefix

  pub Fit-tables : (u w : UnitOf) → w.session ≡ u.session → w.store ≡ u.store → Fit u → Fit w
  Fit-tables u w seen stored h = (rw seen h.0, rw stored h.1)

  pub FitFew-tables :
      (u w : UnitOf) → w.session ≡ u.session → w.store ≡ u.store → FitFew u → FitFew w
  FitFew-tables u w seen stored (h, few) = (Fit-tables u w seen stored h, rw seen few)

  pub sees : (u : UnitOf) → Fit u → ShortDb u.session × ShortDb u.store.db
  sees u h = h

  pub sees_few : (u : UnitOf) → FitFew u → ShortDb u.session × ShortDb u.store.db
  sees_few u h = h.0

  pub drop_few : (u : UnitOf) → FitFew u → Fit u
  drop_few u h = h.0

  pub same : (u : UnitOf) → Fit u → Fit u
  same u h = h

  pub same_few : (u : UnitOf) → FitFew u → FitFew u
  same_few u h = h

  pub update-Fit :
      (p : Tracked Post)
      → FitsObject p.1
      → Ensures Fit Anything Fit (Repository.update {W = R.State} p)
  update-Fit p o = record {
    kept = λ u (h, stored). (
      record {
        posts =
            All-update_at ShortPost post_key p.1.id (Repository.write_fields (p.1)) u.session.posts
              (write_fields-fits (p.1) o) h.posts;
        post_tags = replaced_tags-fits (p.1) u.session.post_tags o h.post_tags;
        categories = h.categories;
      },
      stored,
    );
    answers = λ u h a e. tt;
  }

  pub delete-Fit : (p : Tracked Post) → Ensures Fit Anything Fit (Repository.delete {W = R.State} p)
  delete-Fit p = record {
    kept = λ u (h, stored). (
      record {
        posts = All-delete_at ShortPost post_key p.1.id u.session.posts h.posts;
        post_tags = All-delete_at ShortTag tagged p.1.id u.session.post_tags h.post_tags;
        categories = h.categories;
      },
      stored,
    );
    answers = λ u h a e. tt;
  }

  pub add-Fit :
      (p : Tracked Post)
      → FitsObject p.1
      → Ensures FitFew Anything Fit (Repository.add {W = R.State} p)
  add-Fit p o = record {
    kept = λ u ((h, stored), few).
        elim (Bool-cases
          (has_key post_key p.1.id u.session.posts || has_key post_slug p.1.slug u.session.posts)) [
            | inl taken ↦ rw (taken, Repository.add) (h, stored)
            | inr fresh ↦
                rw (fresh, Repository.add)
                  (
                    record {
                      posts =
                          All-append ShortPost u.session.posts (to_model (p.1) ∷ []) h.posts
                            (o.row, tt);
                      post_tags = replaced_tags-fits (p.1) u.session.post_tags o h.post_tags;
                      categories = h.categories;
                    },
                    stored,
                  )
          ];
    answers = λ u h a e. tt;
  }

  pub commit-Fit : Ensures Fit Anything Fit (commit {D = Db} {A = Post} {W = R.State})
  commit-Fit = record {
    kept = λ u (h, stored). elim (Bool-cases (post_schema.constraints u.session)) [
      | inl fine ↦ rw (fine, commit) (h, h)
      | inr violated ↦ rw (violated, commit) (h, stored)
    ];
    answers = λ u h a e. tt;
  }

  pub add_category-Fit :
      (c : Category)
      → ShortCategory c
      → Ensures Fit Anything Fit (Repository.add_category {W = R.State} c)
  add_category-Fit c o = record {
    kept = λ u (h, stored). (
      record {
        posts = h.posts;
        post_tags = h.post_tags;
        categories = All-append ShortCategory u.session.categories (c ∷ []) h.categories (o, tt);
      },
      stored,
    );
    answers = λ u h a e. tt;
  }

  pub delete_category-Fit :
      (c : Category) → Ensures Fit Anything Fit (Repository.delete_category {W = R.State} c)
  delete_category-Fit c = record {
    kept = λ u (h, stored). (
      record {
        posts = h.posts;
        post_tags = h.post_tags;
        categories =
            All-delete_at ShortCategory category_key c.id u.session.categories h.categories;
      },
      stored,
    );
    answers = λ u h a e. tt;
  }

  pub required-same : (o : Option Category) (u : UnitOf) → (required o u).1 ≡ u
  required-same none u = refl
  required-same (some c) u = refl

  pub ok-fits : (p q : Post) → FitsObject p → ok p ≡ ok q → FitsObject q
  ok-fits p q o h = let is : p ≡ q = cc in subst FitsObject is o

  pub get_post-Fit :
      (id : Text)
      → Ensures Fit
          (Session.FitsTracked R prefix)
          Fit
          (do found ← Repository.get {W = R.State} id; required found)
  get_post-Fit id =
      Ensures-bind same (Session.get-fits R prefix Fit Fit-tables sees id)
        (Session.required-fits R prefix Fit Fit-tables sees)

  pub mutate-Fit :
      (p : Tracked Post) (r : Result Post)
      → ((q : Post) → r ≡ ok q → FitsObject q)
      → Ensures Fit (Session.FitsTracked R prefix) Fit (mutate p r)
  mutate-Fit = Session.mutate-fits R prefix Fit Fit-tables sees

  pub invalidate-Fit : Ensures Fit Anything Fit (invalidate R prefix)
  invalidate-Fit = Session.invalidate-fits R prefix Fit Fit-tables sees

  -- The lines that end a command on one post
  pub save-Fit :
      (p : Tracked Post)
      → FitsObject p.1
      → Ensures Fit Anything Fit (do Repository.update {W = R.State} p; invalidate R prefix; commit)
  save-Fit p o = Ensures-then same (update-Fit p o) (Ensures-then same invalidate-Fit commit-Fit)

  pub run-fits :
      {A : Type 0} {Q : A → Type 0} (body : Exec UnitOf A)
      → Ensures Fit Q Fit body
      → (st : PostStore R) → ShortDb st.db
      → ShortDb (with_uow body st).1.db
  run-fits body h st fits = (h.kept (enter st) (fits, fits)).1

  pub run_few-fits :
      {A : Type 0} {Q : A → Type 0} (body : Exec UnitOf A)
      → Ensures FitFew Q Fit body
      → (st : PostStore R) → ShortDb st.db
      → length st.db.posts < 10 ^ 18
      → ShortDb (with_uow body st).1.db
  run_few-fits body h st fits few = (h.kept (enter st) ((fits, fits), few)).1
