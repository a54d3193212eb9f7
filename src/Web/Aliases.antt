-- ===== src/Web/Aliases.antt =====
-- web/handlers/aliases.go: the public page of an alias. The URI of the HTML page is made by `uri`.
pub mod Laws
use go_ssb_room.Base.{ℕ, Bool, not, ◌&&◌, ◌==◌, List, [], ◌∷◌, Text, text_eq, codes}
use go_ssb_room.Roomdb.{Error, mode_restricted, PrivacyMode}
use go_ssb_room.Sqlite.Members.{Alias}
use go_ssb_room.Sqlite.Aliases as Aliases
use go_ssb_room.Sqlite.Config.{get_privacy_mode}
use go_ssb_room.Room.Aliases.{is_valid}
use go_ssb_room.Web.Errors.{
  Write, WebError, plain, wrapping, from_db, json, json_error, html, handle, status_internal,
}
use go_ssb_room.Web.Request.{Request, Site, Handler, respond, unless, calling}
use go_ssb_room.Web.Invites.{Responder, json_responder, html_responder}
use go_ssb_room.Base.{if◌then◌else◌}

-- What the responders are made with: the room's id and address, two encodings of a signature.
pub record Room : Type 0 where
  pub room_id : Text
  pub address : Text
  pub encode : Text → Text
  pub uri : Alias → Text

-- `newAliasJSONResponder` or `newAliasHTMLResponder`
unfoldable pub responder_of : Request → Responder
responder_of req =
    if text_eq (req.query (codes "encoding")) (codes "json") then json_responder else html_responder

-- `SendConfirmation`
unfoldable pub send_confirmation : Responder → Room → Alias → List Write
send_confirmation json_responder room a =
    json (codes "successful")
      (room.address ∷ room.room_id ∷ a.feed ∷ a.name ∷ room.encode a.signature ∷ [])
    ∷ []
send_confirmation html_responder room a =
    html (codes "alias.tmpl") (a.name ∷ a.feed ∷ room.uri a ∷ []) ∷ []

-- `SendError`
unfoldable pub send_error : Responder → WebError → List Write
send_error json_responder e = json_error (codes "error") e ∷ []
send_error html_responder e = handle status_internal e

-- `resolve`; `name` is the alias in the path.
unfoldable pub resolve : Site → Room → Request → Text → Handler
unfolding responder_of send_confirmation send_error
resolve site room req name =
    let resp = responder_of req in
    calling (get_privacy_mode (site.io 0))
      (λ e. respond (send_error resp (plain (codes "room is running an unknown privacy mode"))))
      λ pm.
        unless (not (pm == mode_restricted))
          (respond (
            send_error resp
              (plain (codes "this room is restricted, alias resolving is turned off"))))
          (unless (not (text_eq name [] && not (is_valid site.byte_length name)))
            (respond (send_error resp (plain (codes "invalid alias"))))
            (calling (Aliases.resolve (site.io 1) name)
              (λ e.
                respond (
                  send_error resp (wrapping (codes "aliases: failed to resolve name") (from_db e))))
              λ a. respond (send_confirmation resp room a)))
