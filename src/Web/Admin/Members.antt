-- ===== src/Web/Admin/Members.antt =====
-- web/handlers/admin/members.go.
use go_ssb_room.Base.{Option, some, none, Text, codes, ◌==◌, [], ◌∷◌, if◌then◌else◌}
use go_ssb_room.Roomdb.{role_member, role_admin, unmarshal_role}
use go_ssb_room.Sqlite.Tokens.{Codec}
use go_ssb_room.Sqlite.Members.{Member}
use go_ssb_room.Sqlite.Members as Members
use go_ssb_room.Sqlite.Fallback as Fallback
use go_ssb_room.Room.Actions.{check_allowed, action_remove_member}
use go_ssb_room.Web.Errors.{
  WebError, plain, from_db, forbidden, bad_request, redirect_to, database_error, flash_message,
  see_other, status_bad_request, status_forbidden, status_internal,
}
use go_ssb_room.Web.Request.{
  Request, Site, is_post, Handler, PageHandler, page, respond, refuse, error_page, flash, deferring,
  unless, with_some, with_result, calling, reading, parse_form, if_allowed,
}

abbrev pub redirect_to_members : Text
redirect_to_members = codes "/admin/members"

-- `ErrBadRequest` for a wrong method.
abbrev pub bad_method : WebError
bad_method = bad_request (codes "HTTP Method") (plain [])

abbrev pub bad_form : WebError → WebError
bad_form e = bad_request (codes "Form data") e

-- The member who is logged in, if they are an admin.
unfoldable pub admin_of : Option Member → Option Member
admin_of none = none
admin_of (some m) = if m.role == role_admin then some m else none

-- `add`
unfoldable pub add : Codec → Site → Request → Handler
add c site req = unless (is_post req) (error_page status_bad_request bad_method) (
    parse_form req (λ e. error_page status_bad_request (bad_form e))
      (deferring (see_other redirect_to_members ∷ []) (
        with_some (c.parse (req.form (codes "pub_key")))
          (flash (bad_request (codes "Public Key") (plain [])))
          λ key.
            calling (Members.add c.parse (site.io 0) key role_member) (λ e. flash (from_db e))
              λ id. respond (flash_message (codes "AdminMemberAdded") ∷ []))))

-- `changeRole`
unfoldable pub change_role : Site → Request → Handler
unfolding admin_of
change_role site req = unless (is_post req) (error_page status_bad_request bad_method) (
    parse_form req (λ e. error_page status_bad_request (bad_form e))
      (with_some (admin_of req.member)
        (error_page status_forbidden (forbidden (codes "not an admin")))
        λ current.
          (with_some (site.parse_id (req.query (codes "id")))
            (error_page status_bad_request (bad_request (codes "id") (plain [])))
            λ id.
              with_result (unmarshal_role (req.form (codes "role")))
                (λ e. error_page status_bad_request (bad_request (codes "role") (from_db e)))
                λ role.
                  calling (Members.set_role (site.io 0) id role)
                    (λ e. error_page status_internal (database_error e))
                    λ done. respond (
                      flash_message (codes "AdminMemberUpdated")
                      ∷ see_other (site.url_to (codes "admin:member:details") (site.itoa id))
                      ∷ []))))

-- `remove`
unfoldable pub remove : Site → Request → Handler
remove site req = unless (is_post req) (error_page status_bad_request bad_method) (
    parse_form req (λ e. error_page status_bad_request (bad_form e))
      (deferring (see_other redirect_to_members ∷ []) (
        reading (check_allowed (site.io 0) req.member action_remove_member) λ verdict.
          if_allowed verdict flash λ m.
            with_some (site.parse_id (req.form (codes "id")))
              (flash (bad_request (codes "ID") (plain [])))
              λ id.
                calling (Members.remove_id (site.io 1) id) (λ e. flash (from_db e))
                  λ done. respond (flash_message (codes "AdminMemberRemoved") ∷ []))))

-- `createPasswordResetToken`; the page shows the form's URL.
unfoldable pub create_password_reset_token : Codec → Site → Request → PageHandler
unfolding admin_of
create_password_reset_token c site req = unless (is_post req) (refuse bad_method) (
    parse_form req (λ e. refuse (bad_form e))
      (with_some (site.parse_id (req.form (codes "member_id")))
        (refuse (redirect_to redirect_to_members (bad_request (codes "Member ID") (plain []))))
        λ for_member.
          with_some (admin_of req.member)
            (refuse (redirect_to redirect_to_members (forbidden (codes "not an admin"))))
            λ creator.
              calling
                (Fallback.create_reset_token c site.random (site.io 0) creator.id for_member
                  site.now)
                (λ e. refuse (redirect_to redirect_to_members (from_db e)))
                λ token.
                  respond (page (site.url_to (codes "members:change-password:form") token ∷ []))))
