-- ===== src/Posts/Schemas.antt =====
-- services/post-service/app/api/schemas.py: what pydantic checks of the bodies, with their defaults
-- filled in. A URL is the text that pydantic makes of it.
use myblog.Base.{Option, Bool, none, some, ◌&&◌, leb, length, if◌then◌else◌}
use myblog.Base.Python.{or_none}
use myblog.Web.Fields.{at_most, between}
use myblog.Posts.Domain.{Draft}
use myblog.Posts.Handlers.{CreateCategoryCommand}

-- `_empty_to_none`, which runs before the checks
abbrev pub empty_to_none : Draft → Draft
empty_to_none d = record d { slug = or_none d.slug; category_id = or_none d.category_id }

-- The fields of `PostWriteRequest`
abbrev pub accepts_write : Draft → Bool
accepts_write d =
    between 3 200 d.title
    && (leb (length d.summary) 500
        && (between 10 200000 d.content
            && (at_most 180 d.slug && (at_most 36 d.category_id && leb (length d.tags) 10))))

unfoldable pub write_request : Draft → Option Draft
write_request d = if accepts_write (empty_to_none d) then some (empty_to_none d) else none

-- The fields of `CategoryRequest`
abbrev pub accepts_category : CreateCategoryCommand → Bool
accepts_category c = between 2 60 c.name && leb (length c.description) 300

unfoldable pub category_request : CreateCategoryCommand → Option CreateCategoryCommand
category_request c = if accepts_category c then some c else none
