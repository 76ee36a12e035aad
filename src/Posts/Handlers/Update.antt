-- ===== src/Posts/Handlers/Update.antt =====
-- Updating a post, on every branch.
use myblog.Posts.Handlers
use myblog.Base.{
  list_eq, number_eq, string_eq, option_eq, Text, Option, Bool, List, true, ◌≡◌, some, ◌∷◌, is_some,
  if◌then◌else◌, row_at, ◌&&◌, false, none, arith, [], refl, Bool-cases, inr, inl,
}
use myblog.Kernel.Redis.{Redis}
use myblog.Posts.Domain
use myblog.Posts.Repository.{
  post_aggregate, post_schema, category_key, slug_taken, PostModel, Db, post_key,
}
use myblog.Posts.Handlers.{PostStore, update_body, slug_conflict, check_category}
use myblog.Posts.Handlers.Saved.{saved, IsValid, loaded, slug_taken_own, write_back, write_back_lem}
use myblog.Base.Unicode.{Unicode}
use myblog.Kernel.Events.{Stamp}
use myblog.Posts.Domain.{Category, Draft, Post}
use myblog.Kernel.Errors.{Result, err, raised, ok, business_rule_violation, conflict, Result-cases}
use myblog.Base.Python.{or_none}
use myblog.Kernel.UnitOfWork.{Tracked, UnitOfWork, with_uow}
use myblog.Kernel.Exec.{◌>>◌, throw_if}

-- The category that a command names exists, if it names one.
abbrev pub category_known : Option Text → List Category → Bool
category_known none categories = true
category_known (some []) categories = true
category_known (some (c ∷ t)) categories = is_some (row_at category_key (c ∷ t) categories)

slug_taken-none-some :
    (s id : Text) (rows : List PostModel)
    → slug_taken s none rows ≡ false
    → slug_taken s (some id) rows ≡ false
slug_taken-none-some s id [] h = refl
slug_taken-none-some s id (m ∷ rows) h = ground (arith, slug_taken-none-some s id rows)

slug_taken-or_none :
    (s id : Text) (rows : List PostModel)
    → slug_taken s (or_none (some id)) rows ≡ false
    → slug_taken s (some id) rows ≡ false
slug_taken-or_none s [] rows h = slug_taken-none-some s [] rows h
slug_taken-or_none s (c ∷ t) rows h = h

module _ (R : Redis) (prefix : Text) (u : Unicode) where
  -- The answer to an update of the post `m`.
  abbrev pub checked :
      Bool → Option Text → Result Post → PostStore R → Result (Unit {0}) × PostStore R
  checked false slug r st = (err (raised business_rule_violation), st)
  checked true slug (err e) st = (err e, st)
  checked true slug (ok p) st =
      if is_some (or_none slug) && slug_taken p.slug (or_none (some p.id)) st.db.posts
      then (err (raised conflict), st)
      else (ok tt, saved R prefix p st)

  pub check_category_lem :
      (cat : Option Text) (w : UnitOfWork Db Post R.State)
      → check_category R prefix cat w ≡ (
          if category_known cat w.session.categories
          then (ok tt, w)
          else (err (raised business_rule_violation), w))
  unfolding check_category
  check_category_lem none w = refl
  check_category_lem (some []) w = refl
  check_category_lem (some (c ∷ t)) w = ground arith

  slug_conflict_lem :
      (slug : Option Text) (p : Tracked Post) (w : UnitOfWork Db Post R.State)
      → slug_conflict R prefix slug p w ≡ (
        ok (is_some (or_none slug) && slug_taken p.1.slug (or_none (some p.1.id)) w.session.posts),
        w,
      )
  unfolding slug_conflict
  slug_conflict_lem none p w = refl
  slug_conflict_lem (some []) p w = refl
  slug_conflict_lem (some (c ∷ t)) p w = refl

  update-slug :
      (s : Stamp) (d : Draft) (q p : Post)
      → Domain.update u s d q ≡ ok p
      → (p.id ≡ q.id) × (is_some (or_none d.slug) ≡ false → p.slug ≡ q.slug)
  unfolding Domain.update
  update-slug s d q p h = ground arith

  -- A slug that was not given stays, and no other post has it.
  slug_free_own :
      (d : Draft) (m : PostModel) (p : Post) (st : PostStore R)
      → IsValid st.db
      → row_at post_key m.id st.db.posts ≡ some m
      → (p.id ≡ m.id) × (is_some (or_none d.slug) ≡ false → p.slug ≡ m.slug)
      → is_some (or_none d.slug) ≡ false
      → slug_taken p.slug (some p.id) st.db.posts ≡ false
  slug_free_own d m p st v found same none_given =
      rw (same.0, same.1 none_given) (slug_taken_own m.id st.db.posts m v.ids v.slugs found)

  -- The end of an update: the slug is checked, then the post is saved.
  saved_or_refused :
      (d : Draft) (m : PostModel) (p : Post) (st : PostStore R)
      → IsValid st.db
      → (is_some (or_none d.slug) ≡ false → slug_taken p.slug (some p.id) st.db.posts ≡ false)
      → let (r, w) =
          (do
            throw_if
                (is_some (or_none d.slug) && slug_taken p.slug (or_none (some p.id)) st.db.posts)
                (raised conflict)
            write_back R prefix (0, p))
            (record {
              store = st;
              session = st.db;
              seen = (0, p) ∷ [];
              next_ref = 1;
              after_commit = [];
            }) in
        ◌≡◌ {A = Result (Unit {0}) × PostStore R} (r, w.store) (checked true d.slug (ok p) st)
  saved_or_refused d m p st v own = elim (Bool-cases (is_some (or_none d.slug))) [
    | inr absent ↦ rw absent (write_back_lem R prefix p st v (own absent))
    | inl given ↦ elim (Bool-cases (slug_taken p.slug (or_none (some p.id)) st.db.posts)) [
      | inl taken ↦ rw (given, taken)
      | inr free ↦
          rw (given, free)
            (write_back_lem R prefix p st v (slug_taken-or_none p.slug p.id st.db.posts free))
    ]
  ]

  update_found :
      (s : Stamp) (d : Draft) (m : PostModel) (st : PostStore R)
      → IsValid st.db
      → row_at post_key m.id st.db.posts ≡ some m
      → with_uow (update_body R prefix u s (record { post_id = m.id; body = d })) st
        ≡ checked
            (category_known d.category_id st.db.categories)
            d.slug
            (Domain.update u s d (loaded R prefix m st))
            st
  unfolding update_body
  update_found s d m st v found =
      elim (Bool-cases (category_known d.category_id st.db.categories)) [
        | inr unknown ↦ rw (found, check_category_lem, unknown)
        | inl known ↦ elim (Result-cases (Domain.update u s d (loaded R prefix m st))) [
          | inr (e, refused) ↦ rw (found, check_category_lem, known, refused)
          | inl (p, changed) ↦
              rw (found, check_category_lem, known, changed, slug_conflict_lem)
                (saved_or_refused d m p st v (
                  slug_free_own d m p st v found
                    (update-slug s d (loaded R prefix m st) p changed)))
        ]
      ]

  -- On a store with unique keys, an update of a post that is there is answered as `checked` tells: an
  -- unknown category, a refusal of `Post.update` and a slug that was given and another post has each
  -- leave the store as it is, and else the changed post is saved.
  pub update_lem :
      (s : Stamp) (d : Draft) (m : PostModel) (st : PostStore R)
      → IsValid st.db
      → row_at post_key m.id st.db.posts ≡ some m
      → Handlers.update R prefix u s (record { post_id = m.id; body = d }) st
        ≡ checked
            (category_known d.category_id st.db.categories)
            d.slug
            (Domain.update u s d (loaded R prefix m st))
            st
  update_lem s d m st v found = unfold Handlers.update in update_found s d m st v found
