-- ===== src/Web/Admin/Denied.antt =====
-- web/handlers/admin/denied_keys.go.
use go_ssb_room.Base.{Text, codes, [], ◌∷◌}
use go_ssb_room.Sqlite.Tokens.{Codec}
use go_ssb_room.Sqlite.Denied as Denied
use go_ssb_room.Room.Actions.{check_allowed, action_change_denied_keys}
use go_ssb_room.Web.Errors.{
  not_authorized, plain, from_db, bad_request, redirect_to, flash_message, see_other,
}
use go_ssb_room.Web.Request.{
  Request, Site, is_post, Handler, PageHandler, page, respond, refuse, flash, deferring, unless,
  with_some, calling, reading, parse_form, if_allowed,
}
use go_ssb_room.Web.Admin.Members.{bad_method, bad_form}

abbrev pub redirect_to_denied_keys : Text
redirect_to_denied_keys = codes "/admin/denied"

-- `add`
unfoldable pub add : Codec → Site → Request → Handler
add c site req = deferring (see_other redirect_to_denied_keys ∷ []) (
    reading (check_allowed (site.io 0) req.member action_change_denied_keys) λ verdict.
      if_allowed verdict (λ e. flash not_authorized)
        λ m. unless (is_post req) (flash bad_method) (
          parse_form req (λ e. flash (bad_form e))
            (with_some (c.parse (req.form (codes "pub_key")))
              (flash (bad_request (codes "Public Key") (plain [])))
              λ key.
                calling (Denied.add c.parse (site.io 1) key (req.form (codes "comment")) site.now)
                  (λ e. flash (from_db e))
                  λ done. respond (flash_message (codes "AdminDeniedKeysAdded") ∷ []))))

-- `removeConfirm`
unfoldable pub remove_confirm : Site → Request → PageHandler
remove_confirm site req =
    with_some (site.parse_id (req.query (codes "id")))
      (refuse (bad_request (codes "ID") (plain [])))
      λ id.
        calling (Denied.get_by_id (site.io 0) id)
          (λ e. refuse (redirect_to redirect_to_denied_keys (from_db e)))
          λ entry. respond (page (entry.pub_key ∷ entry.comment ∷ []))

-- `remove`
unfoldable pub remove : Site → Request → Handler
remove site req = deferring (see_other redirect_to_denied_keys ∷ []) (
    reading (check_allowed (site.io 0) req.member action_change_denied_keys) λ verdict.
      if_allowed verdict (λ e. flash not_authorized)
        λ m.
          parse_form req (λ e. flash (bad_form e))
            (with_some (site.parse_id (req.form (codes "id")))
              (flash (bad_request (codes "ID") (plain [])))
              λ id.
                calling (Denied.remove_id (site.io 1) id) (λ e. flash (from_db e))
                  λ done. respond (flash_message (codes "AdminDeniedKeysRemoved") ∷ [])))
