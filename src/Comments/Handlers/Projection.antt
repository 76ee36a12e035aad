-- ===== src/Comments/Handlers/Projection.antt =====
-- The projection of the posts: what the service knows of a post after an event about it.
use myblog.Base.{
  Text, some, true, ◌≡◌, arith, ◌==◌, List, false, row_at, unique, Option-cases, inl, unique-append,
  update_at-append_self, row_at-append_self, has_key-none, inr, unique-update_at, update_at_twice,
  row_at-update_at_self, row_at-update_at_ne, append-nil, ◌∷◌, row_at-key, list_eq, number_eq,
  string_eq, option_eq, refl, ◌++◌, [],
}
use myblog.Kernel.Redis.{Redis}
use myblog.Kernel.Events
use myblog.Comments.Handlers.{
  CommentStore, is_post_change, is_published_value, handle_post_event, cache_ns,
}
use myblog.Comments.Handlers.Counts.{IsValid}
use myblog.Comments.Domain.{KnownPost}
use myblog.Kernel.Events.{Envelope, text_at, payload_or_empty, text_or_empty}
use myblog.Comments.Repository.{upserted, known_post_key, write_post}
use myblog.Kernel.Errors.{ok}
use myblog.Cache.{bump}

row_at-upserted :
    (p : KnownPost) (rows : List KnownPost)
    → row_at known_post_key p.post_id (upserted p rows) ≡ some p
row_at-upserted p rows = elim (Option-cases (row_at known_post_key p.post_id rows)) [
  | inl absent ↦ rw absent (row_at-append_self known_post_key rows p absent)
  | inr (q, found) ↦
      rw
        (
          found,
          row_at-update_at_self known_post_key p.post_id (write_post p) (λ r. refl) rows q found,
        )
        (ground (arith, row_at-key known_post_key p.post_id rows q found))
]

pub upserted_twice :
    (p : KnownPost) (rows : List KnownPost) → upserted p (upserted p rows) ≡ upserted p rows
upserted_twice p rows = elim (Option-cases (row_at known_post_key p.post_id rows)) [
  | inl absent ↦
      rw (row_at-upserted p rows, absent)
        (update_at-append_self known_post_key (write_post p) rows p absent)
  | inr (q, found) ↦
      rw (row_at-upserted p rows, found)
        (update_at_twice known_post_key p.post_id (write_post p) (λ r. refl) (λ r. refl) rows)
]

row_at-append_ne :
    (rows : List KnownPost) (p : KnownPost) (k : Text)
    → (p.post_id == k) ≡ false
    → row_at known_post_key k (rows ++ p ∷ []) ≡ row_at known_post_key k rows
row_at-append_ne [] p k other = rw other refl
row_at-append_ne (x ∷ rows) p k other = ground (arith, row_at-append_ne rows p k)

row_at-upserted_ne :
    (p : KnownPost) (k : Text) (rows : List KnownPost)
    → (p.post_id == k) ≡ false
    → row_at known_post_key k (upserted p rows) ≡ row_at known_post_key k rows
row_at-upserted_ne p k rows other = elim (Option-cases (row_at known_post_key p.post_id rows)) [
  | inl absent ↦ rw absent (row_at-append_ne rows p k other)
  | inr (q, found) ↦
      rw found
        (row_at-update_at_ne known_post_key p.post_id k (write_post p) (λ r. refl) rows other)
]

unique-upserted :
    (p : KnownPost) (rows : List KnownPost)
    → unique known_post_key rows ≡ true
    → unique known_post_key (upserted p rows) ≡ true
unique-upserted p rows u = elim (Option-cases (row_at known_post_key p.post_id rows)) [
  | inl absent ↦
      rw absent
        (unique-append known_post_key rows p u (has_key-none known_post_key p.post_id rows absent))
  | inr (q, found) ↦
      rw (found, unique-update_at known_post_key p.post_id (write_post p) (λ r. refl) rows) u
]

module _ (R : Redis) (prefix : Text) (e : Envelope) (p : KnownPost) where
  module _ (not_deleted : (e.event_type == some "post.deleted") ≡ false)
      (change : is_post_change e.event_type ≡ true)
      (has_id : text_at "post_id" (payload_or_empty e) ≡ ok p.post_id)
      (has_slug : text_or_empty "slug" (payload_or_empty e) ≡ ok p.slug)
      (has_title : text_or_empty "title" (payload_or_empty e) ≡ ok p.title)
      (has_status : is_published_value (Events.get "status" (payload_or_empty e))
        ≡ p.is_published) where
    handled :
        (st : CommentStore R)
        → IsValid st.db
        → handle_post_event R prefix e st ≡ (
          ok tt,
          record st {
            db = record (st.db) { known_posts = upserted p st.db.known_posts };
            outbox = st.outbox ++ [];
            world = (bump R prefix cache_ns st.world).1;
          },
        )
    unfolding handle_post_event
    handled st v =
        rw (not_deleted, change, has_id, has_slug, has_title, has_status)
          (rw (v.0, unique-upserted p _ (v.1)))

    -- On a store with unique identifiers, an event that a post was published, updated or unpublished,
    -- whose payload names the post, its slug, title and status as `p` has them, succeeds: `p` is what
    -- is then known of the post, whether a row was there or not, what is known of every other post
    -- is as it was, and so are the comments; the keys stay unique and no event is put into the
    -- outbox.
    pub handle-change :
        (st : CommentStore R)
        → IsValid st.db
        → let (r, st') = handle_post_event R prefix e st in
          (r ≡ ok tt)
          × (row_at known_post_key p.post_id st'.db.known_posts ≡ some p)
          × ((k : Text)
              → (p.post_id == k) ≡ false
              → row_at known_post_key k st'.db.known_posts
                ≡ row_at known_post_key k st.db.known_posts)
          × (st'.db.comments ≡ st.db.comments)
          × IsValid st'.db
          × (st'.outbox ≡ st.outbox)
    handle-change st v = rw (handled st v) (
      refl,
      row_at-upserted p st.db.known_posts,
      λ k other. row_at-upserted_ne p k st.db.known_posts other,
      refl,
      (v.0, unique-upserted p st.db.known_posts (v.1)),
      append-nil st.outbox,
    )
