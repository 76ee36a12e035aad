-- ===== src/Posts/Handlers/Create.antt =====
-- Creating a post: the slug is made unique, and no constraint of the database is violated.
use myblog.Base.{
  list_eq, number_eq, string_eq, option_eq, Text, Bool, ◌++◌, ◌≡◌, true, false, some, arith, ◌∷◌,
  none, [], has_key, length, sym, Bool-cases, inr, ◌∙◌, inl, subst, unique-append,
}
use myblog.Kernel.Redis.{Redis}
use myblog.Posts.Domain
use myblog.Posts.Repository
use myblog.Posts.Repository.{
  post_aggregate, post_schema, Db, to_model, replaced_tags, post_key, post_slug,
}
use myblog.Posts.Handlers
use myblog.Posts.Handlers.{
  PostStore, CreatePostCommand, posts_ns, create_body, unique_slug, invalidate,
}
use myblog.Posts.Handlers.Saved.{IsValid, slug_taken-none}
use myblog.Posts.Handlers.Update.{category_known, check_category_lem}
use myblog.Posts.Columns.Units.{FitsPost}
use myblog.Kernel.Events.{Stamp}
use myblog.Base.Unicode.{Unicode}
use myblog.Posts.Domain.{Post, Draft, noted, is_published, published, first_published, change_slug}
use myblog.Kernel.Errors.{ok, Result}
use myblog.Posts.UniqueSlug.{free_slug, free_slug_total, free_slug-free}
use myblog.Kernel.UnitOfWork.{outbox_rows, UnitOfWork, with_uow, commit}
use myblog.Cache.{bump}
use myblog.Kernel.Exec.{◌>>◌, pure}

-- The post after `if cmd.publish: post.publish()`, for a draft.
abbrev pub finished : Bool → Stamp → Post → Post
finished false s p = p
finished true s p = noted s "post.published" (record p {
  status = published;
  published_at = some (first_published p.published_at s.now);
  updated_at = s.now;
})

publish_draft :
    (s : Stamp) (p : Post) → is_published p ≡ false → Domain.publish s p ≡ ok (finished true s p)
unfolding Domain.publish
publish_draft s p h = rw h

create-draft :
    (u : Unicode) (s : Stamp) (author_id author_name : Text) (d : Draft) (p : Post)
    → Domain.create u s author_id author_name d ≡ ok p
    → (p.id ≡ s.new_id) × (is_published p ≡ false)
unfolding Domain.create
create-draft u s a n d p h = ground arith

module _ (R : Redis) (prefix : Text) (u : Unicode) where
  -- The store after a new post is committed.
  abbrev pub inserted : Post → PostStore R → PostStore R
  inserted p st = record st {
    db = record (st.db) {
      posts = st.db.posts ++ to_model p ∷ [];
      post_tags = replaced_tags p st.db.post_tags;
    };
    outbox =
        st.outbox
        ++ outbox_rows (length st.outbox) st.correlation_id "post-service" (p.events ++ []);
    world = (bump R prefix posts_ns st.world).1;
  }

  -- The transaction of a handler that has made one object and stored nothing.
  abbrev one_object : PostStore R → UnitOfWork Db Post R.State
  one_object st = record { store = st; session = st.db; seen = []; next_ref = 1; after_commit = [] }

  unique_slug_lem :
      (base slug : Text) (st : PostStore R)
      → free_slug base none st.db.posts ≡ some slug
      → unique_slug R prefix base none (one_object st) ≡ (ok slug, one_object st)
  unfolding unique_slug
  unique_slug_lem base slug st h = rw (h, unique_slug)

  -- The last lines of `create`.
  insert_lem :
      (p : Post) (st : PostStore R)
      → IsValid st.db
      → has_key post_key p.id st.db.posts ≡ false
      → has_key post_slug p.slug st.db.posts ≡ false
      → let (r, w) =
          (do Repository.add (0, p); invalidate R prefix; commit; pure p.id) (one_object st) in
        ◌≡◌ {A = Result Text × PostStore R} (r, w.store) (ok p.id, inserted p st)
  insert_lem p st v fresh free = rw (
    fresh,
    free,
    unique-append post_key st.db.posts (to_model p) v.ids fresh,
    unique-append post_slug st.db.posts (to_model p) v.slugs free,
    v.category_ids,
    v.category_slugs,
  )

  module _ (s s' : Stamp) (cmd : CreatePostCommand) (st : PostStore R) (v : IsValid st.db) where
    create_made :
        (p : Post) (slug : Text)
        → category_known cmd.body.category_id st.db.categories ≡ true
        → Domain.create u s cmd.author_id cmd.author_name cmd.body ≡ ok p
        → free_slug p.slug none st.db.posts ≡ some slug
        → has_key post_key p.id st.db.posts ≡ false
        → has_key post_slug slug st.db.posts ≡ false
        → with_uow (create_body R prefix u s s' cmd) st
          ≡ (ok p.id, inserted (finished cmd.publish s' (change_slug slug p)) st)
    unfolding create_body
    create_made p slug known made free fresh unused = elim (Bool-cases cmd.publish) [
      | inr kept_draft ↦
          rw
            (
              check_category_lem R prefix u,
              known,
              made,
              unique_slug_lem p.slug slug st free,
              kept_draft,
            )
            (insert_lem (change_slug slug p) st v fresh unused)
      | inl wanted ↦
          rw
            (
              check_category_lem R prefix u,
              known,
              made,
              unique_slug_lem p.slug slug st free,
              wanted,
              publish_draft s' (change_slug slug p) (create-draft u s _ _ _ p made).1,
            )
            (insert_lem (finished true s' (change_slug slug p)) st v fresh unused)
    ]

    -- On a store with unique keys, a draft with a known category, which `Post.create` accepts, whose
    -- identifier is fresh and whose row, under the slug that the loop finds, fits its columns, is
    -- stored under a slug that no post had, published if the command asks for it, and the answer is
    -- its identifier: the loop over slugs ends, no key is there twice, and the new row fits.
    pub create_lem :
        (p : Post)
        → category_known cmd.body.category_id st.db.categories ≡ true
        → Domain.create u s cmd.author_id cmd.author_name cmd.body ≡ ok p
        → has_key post_key s.new_id st.db.posts ≡ false
        → ((slug : Text)
            → free_slug p.slug none st.db.posts ≡ some slug
            → FitsPost (to_model (finished cmd.publish s' (change_slug slug p))))
        → (slug : Text) × (has_key post_slug slug st.db.posts ≡ false)
          × (Handlers.create R prefix u s s' cmd st
              ≡ (ok s.new_id, inserted (finished cmd.publish s' (change_slug slug p)) st))
          × FitsPost (to_model (finished cmd.publish s' (change_slug slug p)))
    create_lem p known made fresh fits =
        let (slug, free) = free_slug_total p.slug none st.db.posts in
        let unused =
          sym (slug_taken-none slug st.db.posts)
          ∙ free_slug-free p.slug none st.db.posts slug free in
        let named = (create-draft u s _ _ _ p made).0 in
        (
          slug,
          unused,
          subst
              (λ i.
                Handlers.create R prefix u s s' cmd st
                ≡ (ok i, inserted (finished cmd.publish s' (change_slug slug p)) st))
              named
              (unfold Handlers.create in
                create_made p slug known made free (rw named fresh) unused),
          fits slug free,
        )
