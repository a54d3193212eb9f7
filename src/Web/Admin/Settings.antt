-- ===== src/Web/Admin/Settings.antt =====
-- web/handlers/admin/settings.go. Neither setter returns after an error that it reports.
use go_ssb_room.Base.{Option, none, some, codes, [], ◌∷◌, ◌++◌, List, ◌==◌, if◌then◌else◌}
use go_ssb_room.Roomdb.{role_admin, mode_unknown, parse_privacy_mode}
use go_ssb_room.Sqlite.Members.{Member}
use go_ssb_room.Sqlite.Config as Config
use go_ssb_room.Web.Errors.{
  Write, plain, wrapping, from_db, forbidden, see_other, handle, status_bad_request,
  status_internal,
}
use go_ssb_room.Web.Request.{
  Request, Site, is_post, Handler, respond, error_page, unless, calling, parse_form,
}
use go_ssb_room.Web.Admin.Members.{bad_method, bad_form}

-- `verifyPostRequirements`, around what follows it
unfoldable pub verify_post_requirements : Request → Handler → Handler
verify_post_requirements req next =
    unless (is_post req) (error_page status_bad_request bad_method)
      (parse_form req (λ e. error_page status_bad_request (bad_form e)) next)

-- `getMember`, around what follows it
unfoldable pub get_member : Option Member → Handler → Handler
get_member none next = error_page status_internal (forbidden (codes "not a registered member"))
get_member (some m) next =
    unless (m.role == role_admin)
      (error_page status_internal (forbidden (codes "yr not an admin! naughty naughty"))) next

-- `redirect`, to the overview of the settings
abbrev pub to_settings : Site → Write
to_settings site = see_other (site.url_to (codes "admin:settings:overview") [])

-- What was written before, with what follows.
unfoldable pub writing : List Write → Handler → Handler
writing before next db = (before ++ (next db).0, (next db).1)

-- `setLanguage`
unfoldable pub set_language : Site → Request → Handler
unfolding verify_post_requirements get_member
set_language site req = verify_post_requirements req (
    get_member req.member (
      calling (Config.set_default_language (site.io 0) (req.form (codes "lang")))
        (λ e. respond (
          handle status_bad_request
            (wrapping (codes "something went wrong when setting the default language") (from_db e))
          ++ to_settings site ∷ []))
        λ done. respond (to_settings site ∷ [])))

-- `setPrivacy`
unfoldable pub set_privacy : Site → Request → Handler
unfolding verify_post_requirements get_member writing
set_privacy site req =
    let pm = parse_privacy_mode (req.form (codes "privacy_mode")) in
    verify_post_requirements req (
      get_member req.member (
        writing
          (if pm == mode_unknown
            then handle status_bad_request (plain (codes "unknown privacy mode was being set"))
            else [])
          (calling (Config.set_privacy_mode (site.io 0) pm)
            (λ e. respond (
              handle status_bad_request
                (wrapping (codes "something went wrong when setting the privacy mode") (from_db e))
              ++ to_settings site ∷ []))
            λ done. respond (to_settings site ∷ []))))
