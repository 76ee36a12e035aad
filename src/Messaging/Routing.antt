-- ===== src/Messaging/Routing.antt =====
-- Which events each consumer is sent.
use myblog.Base.{
  list_eq, number_eq, string_eq, String, codes, ◌≡◌, some, ◌||◌, ◌==◌, true, refl, option_eq, Bool,
  false, arith, some_==,
}
use myblog.Messaging.Topology.{Topic, reaches, declare_topology, events_exchange}
use myblog.Posts.Handlers.{is_count_event}
use myblog.Comments.Handlers.{is_post_change}

three : (a b c : Bool) → (a || (b || (c || false))) ≡ ((a || b) || c)
three a b c = ground arith

four : (a b c d : Bool) → (a || (b || (c || (d || false)))) ≡ (((a || b) || c) || d)
four a b c d = ground arith

-- With the matching of topic exchanges, the broker sends post-service the events that its handler
-- acts on and no others, and the same for comment-service; activity-worker is sent every event.
pub routing_lem :
    (T : Topic) (event_type : String)
    → (reaches T declare_topology events_exchange event_type (codes "post-service.comment-events")
        ≡ is_count_event (some event_type))
      × (reaches T declare_topology events_exchange event_type (codes "comment-service.post-events")
          ≡ (is_post_change (some event_type) || event_type == "post.deleted"))
      × (reaches T declare_topology events_exchange event_type (codes "activity-worker.all-events")
          ≡ true)
unfolding list_eq number_eq string_eq
routing_lem T t = (
  rw
      (
        T.plain "comment.approved" t refl,
        T.plain "comment.rejected" t refl,
        T.plain "comment.deleted" t refl,
        some_== t "comment.approved",
        some_== t "comment.rejected",
        some_== t "comment.deleted",
      )
      (three (t == "comment.approved") (t == "comment.rejected") (t == "comment.deleted")),
  rw
      (
        T.plain "post.published" t refl,
        T.plain "post.updated" t refl,
        T.plain "post.unpublished" t refl,
        T.plain "post.deleted" t refl,
        some_== t "post.published",
        some_== t "post.updated",
        some_== t "post.unpublished",
      )
      (four (t == "post.published") (t == "post.updated") (t == "post.unpublished")
        (t == "post.deleted")),
  rw (T.hash t) refl,
)
