-- ===== src/Web/Admin/Aliases.antt =====
-- web/handlers/admin/aliases.go.
use go_ssb_room.Base.{ℕ, Bool, ◌||◌, text_eq, codes, [], ◌∷◌, ◌==◌}
use go_ssb_room.Roomdb.{FeedRef, role_admin}
use go_ssb_room.Sqlite.Members.{Member}
use go_ssb_room.Sqlite.Aliases as Aliases
use go_ssb_room.Web.Errors.{
  plain, from_db, forbidden, bad_request, redirect_to, flash_message, see_other,
}
use go_ssb_room.Web.Request.{
  Request, Site, is_post, Handler, PageHandler, page, respond, refuse, error_page, flash, deferring,
  unless, with_some, calling, parse_form,
}
use go_ssb_room.Web.Admin.Members.{redirect_to_members, bad_form}

abbrev pub status_method_not_allowed : ℕ
status_method_not_allowed = 405

-- `revokeConfirm`
unfoldable pub revoke_confirm : Site → Request → PageHandler
revoke_confirm site req =
    unless (text_eq req.method (codes "GET"))
      (refuse (bad_request (codes "HTTP Method") (plain [])))
      (with_some (site.parse_id (req.query (codes "id")))
        (refuse (bad_request (codes "ID") (plain [])))
        λ id.
          calling (Aliases.get_by_id (site.io 0) id)
            (λ e. refuse (redirect_to redirect_to_members (from_db e)))
            λ entry. respond (page (entry.name ∷ entry.feed ∷ [])))

-- The owner of the alias, or an admin.
unfoldable pub may_revoke : FeedRef → Member → Bool
may_revoke owner m = text_eq owner m.pub_key || (m.role == role_admin)

-- `revoke`
unfoldable pub revoke : Site → Request → Handler
unfolding may_revoke
revoke site req =
    unless (is_post req)
      (error_page status_method_not_allowed (bad_request (codes "HTTP Method") (plain [])))
      (parse_form req (λ e. error_page 400 (redirect_to redirect_to_members (bad_form e)))
        (deferring (see_other redirect_to_members ∷ []) (
          calling (Aliases.resolve (site.io 0) (req.form (codes "name"))) (λ e. flash (from_db e))
            λ entry. with_some req.member (flash (forbidden (codes "not an member"))) λ current.
              unless (may_revoke entry.feed current)
                (flash (forbidden (codes "not your alias or not an admin")))
                (calling (Aliases.revoke (site.io 1) (req.form (codes "name")))
                  (λ e. flash (from_db e))
                  λ done. respond (flash_message (codes "AdminMemberDetailsAliasRevoked") ∷ [])))))
