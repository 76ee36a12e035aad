-- ===== src/Posts/Columns/Writes.antt =====
-- What the repositories write fits, if the object does.
use myblog.Base.{
  Text, All, All-append, List, [], ◌∷◌, list_eq, number_eq, Bool-cases, inl, inr, ◌==◌,
}
use myblog.Base.AllTables.{All-delete_at, All-sorted}
use myblog.Posts.Domain.{Post}
use myblog.Posts.Repository.{
  PostModel, PostTagModel, Db, to_post, tags_of, write_fields, replaced_tags, tag_rows, tagged,
}
use myblog.Posts.Columns.{Fits, ShortPost, ShortTag, ShortDb, FitsObject}

All-tags_of :
    (id : Text) (rows : List PostTagModel) → All ShortTag rows → All (Fits 30) (tags_of id rows)
All-tags_of id [] h = tt
All-tags_of id (t ∷ rows) (p, h) = elim (Bool-cases (t.post_id == id)) [
  | inl same ↦ rw same (p.tag, All-tags_of id rows h)
  | inr other ↦ rw other (All-tags_of id rows h)
]

-- The object that is made of a row
pub to_post-fits :
    (db : Db)
    → ShortDb db
    → (id : Text) (m : PostModel) → ShortPost m
    → FitsObject (to_post m (tags_of id db.post_tags))
to_post-fits db h id m p = record {
  row = p;
  tags = All-sorted (Fits 30) (tags_of id db.post_tags) (All-tags_of id db.post_tags h.post_tags);
}

All-tag_rows :
    (id : Text)
    → Fits 36 id
    → (tags : List Text) → All (Fits 30) tags
    → All ShortTag (tag_rows id tags)
All-tag_rows id short [] h = tt
All-tag_rows id short (t ∷ tags) (p, h) =
    (record { post_id = short; tag = p }, All-tag_rows id short tags h)

pub replaced_tags-fits :
    (p : Post) (rows : List PostTagModel)
    → FitsObject p
    → All ShortTag rows
    → All ShortTag (replaced_tags p rows)
replaced_tags-fits p rows o h =
    All-append ShortTag _ (tag_rows p.id p.tags) (All-delete_at ShortTag tagged p.id rows h)
      (All-tag_rows p.id o.row.id p.tags o.tags)

pub write_fields-fits :
    (p : Post) → FitsObject p → (m : PostModel) → ShortPost m → ShortPost (write_fields p m)
write_fields-fits p o m h = record {
  id = h.id;
  title = o.row.title;
  slug = o.row.slug;
  summary = o.row.summary;
  author_id = o.row.author_id;
  author_name = o.row.author_name;
  category_id = o.row.category_id;
  cover_image_url = o.row.cover_image_url;
}
