-- ===== src/Posts/Columns/Routes.antt =====
-- What the routes of app/api/routers/admin.py leave in the tables fits, behind the schemas of
-- app/api/schemas.py.
use myblog.Base.{
  ℕ, Text, Option, none, some, ◌<◌, ◌^◌, length, Bool-cases, inl, inr, true, ◌≡◌, refl, leb→le,
  subst, arith, [], ◌∷◌, list_eq, number_eq, string_eq, option_eq,
}
use myblog.Base.Python.{or_text}
use myblog.Base.Unicode.{Unicode}
use myblog.Kernel.Errors.{Result-cases}
use myblog.Kernel.Events.{Stamp}
use myblog.Kernel.Exec.{Exec, pure, ◌>>=◌}
use myblog.Kernel.Redis.{Redis}
use myblog.Web.Security.{Principal}
use myblog.Posts.Domain.{Draft}
use myblog.Posts.Handlers
use myblog.Posts.Handlers.{PostStore, CreateCategoryCommand}
use myblog.Posts.ReadModel.{Collation}
use myblog.Web.Fields.{at_most}
use myblog.Posts.Schemas.{
  accepts_write, write_request, category_request, accepts_category, empty_to_none,
}
use myblog.Posts.Api.{
  AdminRequest, get_stats, list_all, get_one, post_post, put_post, post_publish, post_unpublish,
  delete_post, post_category, remove_category, route, Reply, with_body, create_command,
  accepts_list, of_id, no_content,
}
use myblog.Posts.Columns.{Fits, FitsNullable, ShortDb}
use myblog.Posts.Columns.Objects.{FitsDraft}
use myblog.Posts.Columns.Handlers.{
  publish-fits, unpublish-fits, delete-fits, update-fits, create-fits,
}
use myblog.Posts.Columns.Others.{create_category-fits, delete_category-fits}

-- The images that a request names. Nothing in the schemas says how long their URLs may be.
abbrev pub FitsImages : AdminRequest → Type 0
FitsImages (post_post d publish) = FitsNullable 500 d.cover_image_url
FitsImages (put_post id d) = FitsNullable 500 d.cover_image_url
FitsImages (post_category c) = FitsNullable 500 c.image_url
FitsImages request = Unit

-- What the tokens of identity-service say of a user.
pub record FitsPrincipal (p : Principal) : Type 0 where
  pub user_id : Fits 36 p.user_id
  pub username : Fits 100 p.username
  pub display_name : Fits 100 p.display_name

named : (a b : Text) → Fits 100 a → Fits 100 b → Fits 100 (or_text a b)
named [] b short short' = short'
named (c ∷ a) b short short' = short

author_name-fits : (p : Principal) → FitsPrincipal p → Fits 100 (or_text p.display_name p.username)
author_name-fits p h = named p.display_name p.username h.display_name h.username

accepted_category : (n : ℕ) (o : Option Text) → at_most n o ≡ true → FitsNullable n o
accepted_category n none h = tt
accepted_category n (some t) h = leb→le (length t) n h

accepted_write :
    (body d : Draft)
    → FitsNullable 500 body.cover_image_url
    → write_request body ≡ some d
    → FitsDraft d
unfolding write_request
accepted_write body d image h = elim (Bool-cases (accepts_write (empty_to_none body))) [
  | inr refused ↦ let bad = rw refused at h in cc
  | inl fine ↦
      let same : empty_to_none body ≡ d = (let r = rw fine at h in cc) in
      subst FitsDraft same
        (record { category_id = accepted_category 36 _ (ground arith); cover_image_url = image })
]

accepted_category_request :
    (c d : CreateCategoryCommand)
    → FitsNullable 500 c.image_url
    → category_request c ≡ some d
    → FitsNullable 500 d.image_url
unfolding category_request
accepted_category_request c d image h = elim (Bool-cases (accepts_category c)) [
  | inr refused ↦ let bad = rw refused at h in cc
  | inl fine ↦
      let same : c ≡ d = (let r = rw fine at h in cc) in
      subst (λ x. FitsNullable 500 x.image_url) same image
]

module _ (R : Redis) (prefix : Text) where
  -- A route that goes on with what the schema makes of the body
  with_body-fits :
      {A : Type 0} (o : Option A) (f : A → Exec (PostStore R) Reply) (st : PostStore R)
      → ((a : A) → o ≡ some a → ShortDb (f a st).1.db)
      → ShortDb st.db
      → ShortDb (with_body o f st).1.db
  with_body-fits none f st h fits = fits
  with_body-fits (some a) f st h fits = h a refl

  -- What follows a command in a route changes nothing.
  then-fits :
      {A B : Type 0} (m : Exec (PostStore R) A) (f : A → B) (st : PostStore R)
      → ShortDb (m st).1.db
      → ShortDb ((m >>= λ a. pure (f a)) st).1.db
  then-fits m f st h = elim (Result-cases (m st).0) [
    | inl (a, fine) ↦ rw fine h
    | inr (e, raised) ↦ rw raised h
  ]

  module _ (u : Unicode) (col : Collation) (s s' : Stamp) where
    pub route-fits :
        (request : AdminRequest) (p : Principal) (st : PostStore R)
        → Fits 36 s.new_id
        → FitsPrincipal p
        → FitsImages request
        → length st.db.posts < 10 ^ 18
        → ShortDb st.db
        → ShortDb (route R prefix u col s s' request p st).1.db
    route-fits get_stats p st short who image few fits = fits
    route-fits (list_all page size status q) p st short who image few fits =
        elim (Bool-cases (accepts_list page size status q)) [
          | inl fine ↦ rw fine fits
          | inr refused ↦ rw refused fits
        ]
    route-fits (get_one id) p st short who image few fits = fits
    route-fits (post_post body publish) p st short who image few fits =
        with_body-fits (write_request body) _ st
          (λ d accepted.
            then-fits (Handlers.create R prefix u s s' (create_command p d publish)) of_id st (
              create-fits R prefix u s s' (create_command p d publish) st short who.user_id
                (author_name-fits p who) (accepted_write body d image accepted) few fits))
          fits
    route-fits (put_post id body) p st short who image few fits =
        with_body-fits (write_request body) _ st
          (λ d accepted.
            then-fits (Handlers.update R prefix u s (record { post_id = id; body = d }))
              (λ t. no_content) st
              (update-fits R prefix u s (record { post_id = id; body = d }) st
                (accepted_write body d image accepted) fits))
          fits
    route-fits (post_publish id) p st short who image few fits =
        then-fits (Handlers.publish R prefix s id) (λ t. no_content) st
          (publish-fits R prefix s id st fits)
    route-fits (post_unpublish id) p st short who image few fits =
        then-fits (Handlers.unpublish R prefix s id) (λ t. no_content) st
          (unpublish-fits R prefix s id st fits)
    route-fits (delete_post id) p st short who image few fits =
        then-fits (Handlers.delete R prefix s id) (λ t. no_content) st
          (delete-fits R prefix s id st fits)
    route-fits (post_category c) p st short who image few fits =
        with_body-fits (category_request c) _ st
          (λ d accepted. then-fits (Handlers.create_category R prefix u s d) of_id st (
            create_category-fits R prefix u s d st short
              (accepted_category_request c d image accepted) fits))
          fits
    route-fits (remove_category id) p st short who image few fits =
        then-fits (Handlers.delete_category R prefix id) (λ t. no_content) st
          (delete_category-fits R prefix id st fits)
