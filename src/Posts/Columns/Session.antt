-- ===== src/Posts/Columns/Session.antt =====
-- What the steps of a transaction read fits, and they leave it so.
use myblog.Base.{
  Text, Option, none, some, ◌≤◌, ◌<◌, ◌^◌, length, [], ◌∷◌, arith, ◌≡◌, Bool, Option-cases, inl,
  inr, true, false, refl, row_at, list_eq, number_eq, subst,
}
use myblog.Base.AllTables.{row_at-All}
use myblog.Kernel.Errors.{ok, err, Result, Exc}
use myblog.Kernel.Exec.{Exec, pure, lift, throw_if, required}
use myblog.Kernel.Redis.{Redis}
use myblog.Kernel.Steps.{Ensures}
use myblog.Kernel.UnitOfWork.{UnitOfWork, Tracked, mutate, new_object}
use myblog.Posts.Domain.{Post}
use myblog.Posts.Handlers.{invalidate, unique_slug, check_category, slug_conflict}
use myblog.Posts.Repository
use myblog.Posts.Repository.{
  PostModel, Db, post_aggregate, post_schema, post_key, category_key, post_slug, to_model, to_post,
  tags_of,
}
use myblog.Posts.UniqueSlug.{free_slug, free_slug-length}
use myblog.Posts.Columns.{Fits, ShortPost, ShortDb, FitsObject}
use myblog.Posts.Columns.Writes.{to_post-fits}

module _ (R : Redis) (prefix : Text) where
  abbrev pub UnitOf : Type 0
  UnitOf = UnitOfWork Db Post R.State

  -- What is committed and what the session sees fits.
  abbrev pub Fit : UnitOf → Type 0
  Fit u = ShortDb u.session × ShortDb u.store.db

  -- There is room for another number behind a slug.
  abbrev pub FitFew : UnitOf → Type 0
  FitFew u = Fit u × (length u.session.posts < 10 ^ 18)

  abbrev pub Anything : {A : Type 0} → A → Type 0
  Anything a = Unit

  abbrev pub FitsTracked : Tracked Post → Type 0
  FitsTracked p = FitsObject p.1

  abbrev pub FitsFound : Option (Tracked Post) → Type 0
  FitsFound none = Unit
  FitsFound (some p) = FitsObject p.1

  get_same :
      (id : Text) (u : UnitOf)
      → ((Repository.get {W = R.State} id u).1.session ≡ u.session)
        × ((Repository.get {W = R.State} id u).1.store ≡ u.store)
  get_same id u = elim (Option-cases (row_at post_key id u.session.posts)) [
    | inl missing ↦ rw (missing, Repository.get) (refl, refl)
    | inr (m, found) ↦ rw (found, Repository.get) (refl, refl)
  ]

  get_found :
      (id : Text) (u : UnitOf) (p : Tracked Post)
      → (Repository.get {W = R.State} id u).0 ≡ ok (some p)
      → (m : PostModel) × (row_at post_key id u.session.posts ≡ some m)
        × (p.1 ≡ to_post m (tags_of id u.store.db.post_tags))
  get_found id u p h = elim (Option-cases (row_at post_key id u.session.posts)) [
    | inl missing ↦ let bad = rw (missing, Repository.get) at h in cc
    | inr (m, found) ↦
        let made : ok (some (u.next_ref, to_post m (tags_of id u.store.db.post_tags)))
            ≡ ok (some p) =
          rw (found, Repository.get) at h in
        (m, found, cc)
  ]

  found_fits :
      (id : Text) (u : UnitOf) (o : Option (Tracked Post))
      → ShortDb u.session
      → ShortDb u.store.db
      → (Repository.get {W = R.State} id u).0 ≡ ok o
      → FitsFound o
  found_fits id u none h stored e = tt
  found_fits id u (some p) h stored e =
      let (m, found, made) = get_found id u p e in
      rw made (
        to_post-fits u.store.db stored id m
          (row_at-All ShortPost post_key id u.session.posts m h.posts found))

  -- What holds of the tables only
  module _ (P : UnitOf → Type 0)
      (tables : (u w : UnitOf) → w.session ≡ u.session → w.store ≡ u.store → P u → P w)
      (fit : (u : UnitOf) → P u → ShortDb u.session × ShortDb u.store.db) where
    pub get-fits : (id : Text) → Ensures P FitsFound P (Repository.get {W = R.State} id)
    get-fits id = record {
      kept = λ u h.
          let (seen, stored) = get_same id u in
          tables u (Repository.get {W = R.State} id u).1 seen stored h;
      answers = λ u h o e. found_fits id u o (fit u h).0 (fit u h).1 e;
    }

    pub required-fits :
        (o : Option (Tracked Post)) → FitsFound o → Ensures P FitsTracked P (required o)
    required-fits none h = record { kept = λ u k. k; answers = λ u k p e. cc }
    required-fits (some q) h = record {
      kept = λ u k. k;
      answers = λ u k p e. let is : q ≡ p = cc in subst FitsTracked is h;
    }

    pub lift-fits :
        {A : Type 0} (Q : A → Type 0) (r : Result A)
        → ((a : A) → r ≡ ok a → Q a)
        → Ensures P Q P (lift r)
    lift-fits Q r h = record { kept = λ u k. k; answers = λ u k a e. h a e }

    pub mutate-fits :
        (p : Tracked Post) (r : Result Post)
        → ((q : Post) → r ≡ ok q → FitsObject q)
        → Ensures P FitsTracked P (mutate p r)
    mutate-fits p (ok q) h = record {
      kept = λ u k. tables u (mutate p (ok q) u).1 refl refl k;
      answers = λ u k t e. let is : (p.0, q) ≡ t = cc in subst FitsTracked is (h q refl);
    }
    mutate-fits p (err x) h = record { kept = λ u k. k; answers = λ u k t e. cc }

    pub new_object-fits :
        (Q : Post → Type 0) (q : Post) → Q q → Ensures P (λ p. Q p.1) P (new_object q)
    new_object-fits Q q h = record {
      kept = λ u k. tables u (new_object q u).1 refl refl k;
      answers = λ u k t e. let is : (u.next_ref, q) ≡ t = cc in subst (λ p. Q p.1) is h;
    }

    pub throw_if-fits : (b : Bool) (x : Exc) → Ensures P Anything P (throw_if b x)
    throw_if-fits true x = record { kept = λ u k. k; answers = λ u k t e. tt }
    throw_if-fits false x = record { kept = λ u k. k; answers = λ u k t e. tt }

    pub pure-fits : {A : Type 0} (a : A) → Ensures P Anything P (pure a)
    pure-fits a = record { kept = λ u k. k; answers = λ u k t e. tt }

    pub reads-fits :
        {A : Type 0} (m : Exec UnitOf A) → ((u : UnitOf) → (m u).1 ≡ u) → Ensures P Anything P m
    reads-fits m h = record { kept = λ u k. rw (h u) k; answers = λ u k t e. tt }

    pub invalidate-fits : Ensures P Anything P (invalidate R prefix)
    invalidate-fits = record {
      kept = λ u k. tables u (invalidate R prefix u).1 refl refl k;
      answers = λ u k t e. tt;
    }

  pub check_category-same : (c : Option Text) (u : UnitOf) → (check_category R prefix c u).1 ≡ u
  unfolding check_category
  check_category-same none u = refl
  check_category-same (some []) u = refl
  check_category-same (some (c ∷ t)) u = ground arith

  pub slug_conflict-same :
      (c : Option Text) (p : Tracked Post) (u : UnitOf) → (slug_conflict R prefix c p u).1 ≡ u
  unfolding slug_conflict
  slug_conflict-same none p u = refl
  slug_conflict-same (some []) p u = refl
  slug_conflict-same (some (c ∷ t)) p u = refl

  unique_slug-same : (base : Text) (u : UnitOf) → (unique_slug R prefix base none u).1 ≡ u
  unfolding unique_slug
  unique_slug-same base u = ground arith

  unique_slug-answer :
      (base s : Text) (u : UnitOf)
      → (unique_slug R prefix base none u).0 ≡ ok s
      → free_slug base none u.session.posts ≡ some s
  unfolding unique_slug
  unique_slug-answer base s u h = ground arith

  pub unique_slug-fits :
      (base : Text)
      → length base ≤ 180
      → Ensures FitFew (Fits 200) FitFew (unique_slug R prefix base none)
  unique_slug-fits base short = record {
    kept = λ u k. rw (unique_slug-same base u) k;
    answers = λ u k s e.
        free_slug-length base none u.session.posts s short (k.1) (unique_slug-answer base s u e);
  }
