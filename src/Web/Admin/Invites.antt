-- ===== src/Web/Admin/Invites.antt =====
-- web/handlers/admin/invites.go.
use go_ssb_room.Base.{Text, codes, [], ◌∷◌}
use go_ssb_room.Roomdb.{Error}
use go_ssb_room.Sqlite.Tokens.{Codec}
use go_ssb_room.Sqlite.Invites as Invites
use go_ssb_room.Room.Actions.{check_allowed, action_invite}
use go_ssb_room.Web.Errors.{
  WebError, plain, from_db, item_not_found, bad_request, flash_message, see_other,
}
use go_ssb_room.Web.Request.{
  Request, Site, is_post, Handler, PageHandler, page, respond, refuse, flash, deferring, unless,
  with_some, calling, reading, parse_form, if_allowed,
}
use go_ssb_room.Web.Admin.Members.{bad_method, bad_form}

abbrev pub redirect_to_invites : Text
redirect_to_invites = codes "/admin/invites"

-- `if errors.Is(err, roomdb.ErrNotFound) { err = weberrors.ErrNotFound{What: "invite"} }`
unfoldable pub invite_error : Error → WebError
invite_error Error.not_found = item_not_found (codes "invite")
invite_error e = from_db e

-- `create`; the page shows the facade's URL.
unfoldable pub create : Codec → Site → Request → PageHandler
create c site req = unless (is_post req) (refuse bad_method) (
    parse_form req (λ e. refuse (bad_form e))
      (reading (check_allowed (site.io 0) req.member action_invite) λ verdict.
        if_allowed verdict refuse λ m.
          calling (Invites.create c site.random (site.io 1) (Invites.Creator.member m.id) site.now)
            (λ e. refuse (from_db e))
            λ token. respond (page (site.url_to (codes "complete:invite:accept") token ∷ []))))

-- `revokeConfirm`
unfoldable pub revoke_confirm : Site → Request → PageHandler
unfolding invite_error
revoke_confirm site req =
    with_some (site.parse_id (req.query (codes "id")))
      (refuse (bad_request (codes "ID") (plain [])))
      λ id.
        calling (Invites.get_by_id (site.io 0) id) (λ e. refuse (invite_error e))
          λ invite. respond (page (site.itoa invite.id ∷ []))

-- `revoke`
unfoldable pub revoke : Site → Request → Handler
unfolding invite_error
revoke site req = deferring (see_other redirect_to_invites ∷ []) (
    reading (check_allowed (site.io 0) req.member action_invite) λ verdict.
      if_allowed verdict flash λ m.
        parse_form req (λ e. flash (bad_form e))
          (with_some (site.parse_id (req.form (codes "id")))
            (flash (bad_request (codes "ID") (plain [])))
            λ id.
              calling (Invites.revoke (site.io 1) id) (λ e. flash (invite_error e))
                λ done. respond (flash_message (codes "InviteRevoked") ∷ [])))
