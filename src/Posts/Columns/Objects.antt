-- ===== src/Posts/Columns/Objects.antt =====
-- What the operations on posts and categories make, fits.
use myblog.Base.{
  Text, Option, none, some, ◌≤◌, length, All, List, [], ◌∷◌, arith, ◌≡◌, Bool-cases, inl, inr, true,
  length-take-le, leb, subst, ◌&&◌,
}
use myblog.Base.Unicode.{Unicode}
use myblog.Base.Int.{ℤ}
use myblog.Base.Python.{strip, is_empty}
use myblog.Kernel.Events.{Stamp}
use myblog.Kernel.Errors.{ok}
use myblog.Posts.Domain
use myblog.Posts.Domain.{Post, Draft, Category, accepted, slug_source, new_slug, change_slug}
use myblog.Posts.Slug.{slugify, normalize_tags, default_length}
use myblog.Posts.Slug.Shape.{slugify-IsSlug}
use myblog.Posts.Slug.Tags.{normalize_tags_lem, IsTag}
use myblog.Posts.Columns.{Fits, FitsNullable, ShortCategory, FitsObject}

-- What a request says of other rows and of images
pub record FitsDraft (d : Draft) : Type 0 where
  pub category_id : FitsNullable 36 d.category_id
  pub cover_image_url : FitsNullable 500 d.cover_image_url

short_tags : (tags : List Text) → All IsTag tags → All (Fits 30) tags
short_tags [] h = tt
short_tags (t ∷ tags) (p, h) = (p.short, short_tags tags h)

tags-fit : (u : Unicode) (tags : List Text) → All (Fits 30) (normalize_tags u tags)
tags-fit u tags = short_tags (normalize_tags u tags) (normalize_tags_lem u tags).0

ok-only {ℓ} : {A : Type 0} (Q : A → Type ℓ) (a p : A) → Q a → ok a ≡ ok p → Q p
ok-only Q a p q h = let same : a ≡ p = cc in subst Q same q

accepted-fits :
    (title summary content : Text)
    → accepted title summary content ≡ true
    → Fits 200 (strip title) × Fits 500 (strip summary)
unfolding accepted
accepted-fits title summary content h = ground arith

-- A post whose slug leaves room for a number
abbrev pub FitsWithSlug : Post → Type 0
FitsWithSlug p = FitsObject p × (length p.slug ≤ 180)

-- A new post
pub create-fits :
    (u : Unicode) (s : Stamp) (author_id author_name : Text) (d : Draft) (p : Post)
    → Fits 36 s.new_id
    → Fits 36 author_id
    → Fits 100 author_name
    → FitsDraft d
    → Domain.create u s author_id author_name d ≡ ok p
    → FitsWithSlug p
unfolding Domain.create
create-fits u s a n d p short author named fit h =
    let slug = slugify-IsSlug u (slug_source d) default_length in
    elim (Bool-cases (accepted d.title d.summary d.content)) [
      | inr refused ↦ let bad = rw refused at h in cc
      | inl fine ↦ elim (Bool-cases (is_empty (slugify u (slug_source d) default_length))) [
        | inl empty ↦ let bad = rw (fine, empty) at h in cc
        | inr there ↦
            let (titled, summed) = accepted-fits d.title d.summary d.content fine in
            ok-only FitsWithSlug _ p
              (
                record {
                  row = record {
                    id = short;
                    title = titled;
                    slug = omega (arith, slug.1);
                    summary = summed;
                    author_id = author;
                    author_name = named;
                    category_id = fit.category_id;
                    cover_image_url = fit.cover_image_url;
                  };
                  tags = tags-fit u d.tags;
                },
                slug.1,
              )
              (rw (fine, there) at h)
      ]
    ]

new_slug-fits :
    (u : Unicode) (given : Option Text) (old : Text)
    → Fits 200 old
    → Fits 200 (new_slug u given old)
new_slug-fits u none old h = h
new_slug-fits u (some []) old h = h
new_slug-fits u (some (c ∷ t)) old h = omega (arith, (slugify-IsSlug u (c ∷ t) default_length).1)

-- A changed post
pub update-fits :
    (u : Unicode) (s : Stamp) (d : Draft) (q p : Post)
    → FitsObject q
    → FitsDraft d
    → Domain.update u s d q ≡ ok p
    → FitsObject p
unfolding Domain.update
update-fits u s d q p o fit h = elim (Bool-cases (accepted d.title d.summary d.content)) [
  | inr refused ↦ let bad = rw refused at h in cc
  | inl fine ↦
      let (titled, summed) = accepted-fits d.title d.summary d.content fine in
      ok-only FitsObject _ p
        (record {
          row = record {
            id = o.row.id;
            title = titled;
            slug = new_slug-fits u d.slug q.slug o.row.slug;
            summary = summed;
            author_id = o.row.author_id;
            author_name = o.row.author_name;
            category_id = fit.category_id;
            cover_image_url = fit.cover_image_url;
          };
          tags = tags-fit u d.tags;
        })
        (rw fine at h)
]

-- The other operations write none of these columns.
same-fits :
    (q p : Post)
    → FitsObject q
    → (p.id ≡ q.id)
      × (p.title ≡ q.title)
      × (p.slug ≡ q.slug)
      × (p.summary ≡ q.summary)
      × (p.author_id ≡ q.author_id)
      × (p.author_name ≡ q.author_name)
      × (p.category_id ≡ q.category_id)
      × (p.cover_image_url ≡ q.cover_image_url)
      × (p.tags ≡ q.tags)
    → FitsObject p
same-fits q p o (a, b, c, d, e, f, g, i, j) = record {
  row = record {
    id = rw a o.row.id;
    title = rw b o.row.title;
    slug = rw c o.row.slug;
    summary = rw d o.row.summary;
    author_id = rw e o.row.author_id;
    author_name = rw f o.row.author_name;
    category_id = rw g o.row.category_id;
    cover_image_url = rw i o.row.cover_image_url;
  };
  tags = rw j o.tags;
}

pub publish-fits :
    (s : Stamp) (q p : Post) → FitsObject q → Domain.publish s q ≡ ok p → FitsObject p
unfolding Domain.publish
publish-fits s q p o h = same-fits q p o (ground arith)

pub unpublish-fits :
    (s : Stamp) (q p : Post) → FitsObject q → Domain.unpublish s q ≡ ok p → FitsObject p
unfolding Domain.unpublish
unpublish-fits s q p o h = same-fits q p o (ground arith)

pub sync-fits :
    (count : ℤ) (q : Post) → FitsObject q → FitsObject (Domain.sync_comment_count count q)
sync-fits count q o =
    same-fits q (Domain.sync_comment_count count q) o (cc, cc, cc, cc, cc, cc, cc, cc, cc)

pub deleted-fits : (s : Stamp) (q : Post) → FitsObject q → FitsObject (Domain.mark_deleted s q)
deleted-fits s q o = same-fits q (Domain.mark_deleted s q) o (cc, cc, cc, cc, cc, cc, cc, cc, cc)

pub change_slug-fits :
    (slug : Text) (q : Post) → Fits 200 slug → FitsObject q → FitsObject (change_slug slug q)
change_slug-fits slug q short o = record {
  row = record {
    id = o.row.id;
    title = o.row.title;
    slug = short;
    summary = o.row.summary;
    author_id = o.row.author_id;
    author_name = o.row.author_name;
    category_id = o.row.category_id;
    cover_image_url = o.row.cover_image_url;
  };
  tags = o.tags;
}

pub create_category-fits :
    (u : Unicode) (s : Stamp) (name description : Text) (image_url : Option Text) (c : Category)
    → Fits 36 s.new_id
    → FitsNullable 500 image_url
    → Domain.create_category u s name description image_url ≡ ok c
    → ShortCategory c
unfolding Domain.create_category
create_category-fits u s name description image_url c short image h =
    elim (Bool-cases (leb 2 (length (strip name)) && leb (length (strip name)) 60)) [
      | inr refused ↦ let bad = rw refused at h in cc
      | inl fine ↦
          ok-only ShortCategory _ c
            (record {
              id = short;
              name = ground arith;
              slug = (slugify-IsSlug u name 80).1;
              description = length-take-le 300 (strip description);
              image_url = image;
            })
            (rw fine at h)
    ]
