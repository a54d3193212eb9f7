-- ===== src/Web/Notices.antt =====
-- web/handlers/notices.go and `Sorted` of roomdb/types.go: the public pages of the notices.
pub mod Laws
use go_ssb_room.Base.{
  ℕ, Bool, Option, none, some, List, [], ◌∷◌, ◌++◌, map, Text, text_eq, codes, if◌then◌else◌,
}
use go_ssb_room.Roomdb.{Error}
use go_ssb_room.Sqlite.Notices.{Notice, PinnedNotice, list, get_by_id}
use go_ssb_room.Room.State.{before}
use go_ssb_room.Web.Errors.{
  Write, WebError, plain, from_db, bad_request, json_error, plain_error, handle, status_internal,
}
use go_ssb_room.Web.Request.{
  Request, Site, Serving, PageHandler, page, respond, refuse, with_some, calling,
}
use go_ssb_room.Web.Invites.{Responder, json_responder, html_responder}
use go_ssb_room.Web.Aliases.{responder_of}

-- `SortedPinnedNotices` under `sort.Sort`, by insertion; `Less` compares the names.
unfoldable pub insert_pinned : PinnedNotice → List PinnedNotice → List PinnedNotice
insert_pinned p [] = p ∷ []
insert_pinned p (q ∷ rest) =
    let later = insert_pinned p rest in if before q.name p.name then q ∷ later else p ∷ q ∷ rest

-- `Sorted`
unfoldable pub sorted : List PinnedNotice → List PinnedNotice
unfolding insert_pinned
sorted [] = []
sorted (p ∷ rest) = insert_pinned p (sorted rest)

-- What `list` sends: the notices under each name, as JSON or as a page, or an error.
pub data Listing : Type 0 where
  all_notices : Responder → List PinnedNotice → Listing
  list_failed : List Write → Listing

-- `RenderError`, which for JSON writes the status 500 first.
unfoldable pub render_error : Responder → WebError → List Write
render_error json_responder e = plain_error status_internal ∷ json_error (codes "error") e ∷ []
render_error html_responder e = handle status_internal e

-- `list`
unfoldable pub list_notices : Site → Request → Serving Listing
unfolding responder_of render_error sorted
list_notices site req =
    calling (list (site.io 0))
      (λ e. respond (list_failed (render_error (responder_of req) (from_db e))))
      λ pinned. respond (all_notices (responder_of req) (sorted pinned))

-- `show`; `render` is the markdown renderer.
unfoldable pub show : (Text → Text) → Site → Request → PageHandler
show render site req =
    with_some (site.parse_id (req.query (codes "id")))
      (refuse (bad_request (codes "notice ID") (plain [])))
      λ id.
        calling (get_by_id (site.io 0) id) (λ e. refuse (from_db e))
          λ n. respond (page (n.title ∷ n.language ∷ render n.content ∷ []))
