-- ===== src/Web/Invites.antt =====
-- web/handlers/invites.go: the pages of an invite, its consumption, and the invites that anybody may
-- make in an open room.
pub mod Laws
use go_ssb_room.Base.{
  ℕ, Bool, true, false, not, Option, none, some, List, [], ◌∷◌, ◌++◌, Text, text_eq, codes,
  if◌then◌else◌,
}
use go_ssb_room.Roomdb.{FeedRef, Error, not_found, Result, ok, err}
use go_ssb_room.Sqlite.Db.{Db, Faults}
use go_ssb_room.Sqlite.Tokens.{Codec}
use go_ssb_room.Sqlite.Denied.{has_feed}
use go_ssb_room.Sqlite.Invites as Invites
use go_ssb_room.Sqlite.Notices.{notice_description, get}
use go_ssb_room.Web.Errors.{
  Write, WebError, plain, wrapping, from_db, denied, bad_request, plain_error, json, json_error,
  html, handle, status_bad_request, status_internal,
}
use go_ssb_room.Web.Request.{
  Request, Site, is_post, Serving, Handler, PageHandler, Outcome, page, failed, respond, refuse,
  error_page, unless, with_some, calling, reading, parse_form,
}
use go_ssb_room.Web.Admin.Invites.{invite_error}
use go_ssb_room.Web.Admin.Settings.{writing}

-- `newinviteConsumeJSONResponder` and `newinviteConsumeHTMLResponder`
pub data Responder : Type 0 where
  json_responder html_responder : Responder

-- `SendError`
unfoldable pub send_error : Responder → WebError → List Write
send_error json_responder e = json_error (codes "error") e ∷ []
send_error html_responder e = handle status_internal e

-- `SendSuccess`, after `UpdateMultiserverAddr`
unfoldable pub send_success : Responder → Text → List Write
send_success json_responder address = json (codes "successful") (address ∷ []) ∷ []
send_success html_responder address = html (codes "invite/consumed.tmpl") (address ∷ []) ∷ []

-- What `consume` does once it has read whom to let in and by which invite.
unfoldable pub consume_for : Codec → Site → Text → Responder → FeedRef → Text → Handler
unfolding send_error send_success invite_error
consume_for c site address resp new_member token =
    reading (has_feed (site.io 0) new_member) λ banned.
      unless (not banned) (respond (send_error resp denied)) (
        calling (Invites.consume c (site.io 1) token new_member)
          (λ e. respond (send_error resp (invite_error e)))
          λ inv. respond (send_success resp address))

-- The JSON branch of `consume`; `body` is the payload as the decoder reads it.
unfoldable pub consume_json : Codec → Site → Text → Result (FeedRef × Text) → Handler
unfolding consume_for send_error
consume_json c site address (ok (id, invite)) = consume_for c site address json_responder id invite
consume_json c site address (err e) =
    respond (
      send_error json_responder
        (wrapping (codes "consume body contained invalid json") (from_db e)))

-- The branch of the HTML form.
unfoldable pub consume_form : Codec → Site → Text → Request → Handler
unfolding consume_for send_error
consume_form c site address req =
    parse_form req (λ e. respond (send_error html_responder (bad_request (codes "form data") e)))
      (with_some (c.parse (req.form (codes "id")))
        (respond (send_error html_responder (bad_request (codes "id") (plain []))))
        λ id. consume_for c site address html_responder id (req.form (codes "invite")))

-- `consume`
unfoldable pub consume : Codec → Site → Text → Result (FeedRef × Text) → Request → Handler
unfolding consume_json consume_form
consume c site address body req =
    if text_eq (req.header (codes "Content-Type")) (codes "application/json")
    then consume_json c site address body
    else if text_eq (req.header (codes "Content-Type")) (codes "application/x-www-form-urlencoded")
    then consume_form c site address req
    else respond (plain_error status_bad_request ∷ [])

-- `presentFacadeAsJSON`
unfoldable pub present_facade_json : Codec → Site → Request → Handler
present_facade_json c site req =
    calling (Invites.get_by_token c (site.io 0) (req.query (codes "token")))
      (λ e. respond (json_error (codes "failed") (from_db e) ∷ []))
      λ inv. respond (
        json (codes "success")
          (req.query (codes "token") ∷ site.url_to (codes "complete:invite:consume") [] ∷ [])
        ∷ [])

-- `presentFacadeAsHTML`; `draw` makes the QR code of the page's own URL, and may fail.
unfoldable pub present_facade_html :
    Codec → Site → (Request → Result Text) → (Text → Text) → Request → PageHandler
unfolding invite_error
present_facade_html c site draw join_uri req =
    let token = req.query (codes "token") in
    calling (Invites.get_by_token c (site.io 0) token) (λ e. refuse (invite_error e))
      λ inv.
        calling (get (site.io 1) notice_description (codes "en-GB"))
          (λ e. refuse (wrapping (codes "failed to find room's description") (from_db e)))
          λ notice. drawn notice.title (draw req)
  where
    drawn : Text → Result Text → PageHandler
    drawn title (err e) = refuse (from_db e)
    drawn title (ok qr) = respond (
        page (
          title
          ∷ join_uri (req.query (codes "token"))
          ∷ site.url_to (codes "complete:invite:accept:fallback") (req.query (codes "token"))
          ∷ qr
          ∷ []))

-- `presentFacadeFallback`
unfoldable pub present_facade_fallback : Codec → Site → Request → PageHandler
unfolding invite_error
present_facade_fallback c site req =
    calling (Invites.get_by_token c (site.io 0) (req.query (codes "token")))
      (λ e. refuse (invite_error e))
      λ inv.
        respond
          (page (site.url_to (codes "complete:invite:insert-id") (req.query (codes "token")) ∷ []))

-- `presentInsert`
unfoldable pub present_insert : Codec → Site → Request → PageHandler
unfolding invite_error
present_insert c site req =
    calling (Invites.get_by_token c (site.io 0) (req.query (codes "token")))
      (λ e. refuse (invite_error e)) λ inv. respond (page (req.query (codes "token") ∷ []))

-- `createOpenModeHTML`
unfoldable pub create_open_html : Codec → Site → PageHandler
create_open_html c site =
    calling (Invites.create c site.random (site.io 0) Invites.Creator.visitor site.now)
      (λ e. refuse (from_db e))
      λ token. respond (page (site.url_to (codes "complete:invite:accept") token ∷ []))

-- `createOpenModeJSON`
unfoldable pub create_open_json : Codec → Site → Handler
create_open_json c site =
    calling (Invites.create c site.random (site.io 0) Invites.Creator.visitor site.now)
      (λ e. respond (plain_error status_internal ∷ json_error (codes "failed") (from_db e) ∷ []))
      λ token. respond (json [] (site.url_to (codes "complete:invite:accept") token ∷ []) ∷ [])

-- `createOpenMode`, which goes on after it has refused the method. The renderer answers with what
-- the HTML branch leaves.
unfoldable pub create_open_mode : Codec → Site → Request → Handler
unfolding create_open_json create_open_html writing
create_open_mode c site req =
    if text_eq (req.header (codes "Accept")) (codes "application/json")
    then writing (complaint (is_post req)) (create_open_json c site)
    else writing (complaint (text_eq req.method (codes "GET")))
        (λ db. (made (create_open_html c site db).0, (create_open_html c site db).1))
  where
    complaint : Bool → List Write
    complaint true = []
    complaint false = handle status_bad_request (plain (codes "invalid method"))

    made : Outcome → List Write
    made (page shown) = html (codes "admin/invite-created.tmpl") shown ∷ []
    made (failed e) = handle status_internal e
