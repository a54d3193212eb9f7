-- ===== src/Web/Admin/Notices.antt =====
-- web/handlers/admin/notices.go.
use go_ssb_room.Base.{ℕ, Bool, not, ◌==◌, ◌&&◌, Text, text_eq, codes, List, [], ◌∷◌, if◌then◌else◌}
use go_ssb_room.Sqlite.Notices.{Notice, is_valid}
use go_ssb_room.Sqlite.Notices as Notices
use go_ssb_room.Room.Actions.{check_allowed, action_change_notice}
use go_ssb_room.Web.Errors.{
  WebError, Write, plain, from_db, bad_request, add_error, flash_message, see_other,
  status_internal,
}
use go_ssb_room.Web.Request.{
  Request, Site, is_post, Serving, Handler, Outcome, page, failed, respond, error_page, flash,
  deferring, unless, with_some, calling, reading, parse_form, if_allowed,
}
use go_ssb_room.Web.Admin.Aliases.{status_method_not_allowed}

-- `strings.Replace(content, "\r\n", "\n", -1)`
unfoldable pub fix_newlines : Text → Text
fix_newlines [] = []
fix_newlines (a ∷ []) = a ∷ []
fix_newlines (a ∷ b ∷ rest) =
    let joined = fix_newlines rest in
    let apart = fix_newlines (b ∷ rest) in if (a == 13) && (b == 10) then 10 ∷ joined else a ∷ apart

abbrev is_filled : Text → Bool
is_filled t = not (text_eq t [])

-- Where the form goes back to.
unfoldable pub redirect_of : Site → Request → Text
redirect_of site req =
    if text_eq (req.form (codes "redirect")) []
    then site.url_to (codes "complete:notice:list") []
    else req.form (codes "redirect")

abbrev pub missing : Text → WebError
missing part = bad_request part (plain [])

-- The checks of `addTranslation` and `save` on the texts of the form, and the notice they make.
unfoldable pub with_notice : ℕ → Request → (Notice → Handler) → Handler
unfolding fix_newlines
with_notice id req next =
    unless (is_filled (req.form (codes "title"))) (flash (missing (codes "title"))) (
      unless (is_filled (req.form (codes "language"))) (flash (missing (codes "language"))) (
        unless (is_filled (req.form (codes "content"))) (flash (missing (codes "content"))) (
          next (record {
            id = id;
            title = req.form (codes "title");
            content = fix_newlines (req.form (codes "content"));
            language = req.form (codes "language");
          }))))

abbrev pub updated : List Write
updated = flash_message (codes "NoticeUpdated") ∷ []

-- The page and what was written to the response before: where the action is not allowed, both
-- handlers redirect and return the error all the same.
abbrev pub Drafting : Type 0
Drafting = Serving (List Write × Outcome)

abbrev turned_away : Site → WebError → Drafting
turned_away site e =
    respond (add_error e ∷ see_other (site.url_to (codes "complete:notice:list") []) ∷ [], failed e)

-- `draftTranslation`
unfoldable pub draft_translation : Site → Request → Drafting
draft_translation site req =
    reading (check_allowed (site.io 0) req.member action_change_notice) λ verdict.
      if_allowed verdict (turned_away site) λ m.
        unless (is_valid (req.query (codes "name")))
          (respond ([], failed (missing (codes "pinnedName"))))
          (respond ([], page (req.query (codes "name") ∷ [])))

-- `addTranslation`
unfoldable pub add_translation : Site → Request → Handler
unfolding redirect_of with_notice
add_translation site req =
    unless (is_post req) (error_page status_method_not_allowed (missing (codes "http method type")))
      (parse_form req (λ e. error_page status_internal (bad_request (codes "form data") e))
        (deferring (see_other (redirect_of site req) ∷ []) (
          reading (check_allowed (site.io 0) req.member action_change_notice) λ verdict.
            if_allowed verdict flash λ m.
              unless (is_valid (req.form (codes "name"))) (flash (missing (codes "name"))) (
                with_notice 0 req λ n.
                  calling (Notices.save (site.io 1 0) n) (λ e. flash (from_db e))
                    λ saved.
                      calling (Notices.set (site.io 2) (req.form (codes "name")) saved.id)
                        (λ e. flash (from_db e)) λ done. respond updated))))

-- `edit`; `render` is the markdown of the preview.
unfoldable pub edit : (Text → Text) → Site → Request → Drafting
unfolding fix_newlines
edit render site req =
    reading (check_allowed (site.io 0) req.member action_change_notice) λ verdict.
      if_allowed verdict (turned_away site) λ m.
        with_some (site.parse_id (req.query (codes "id")))
          (respond ([], failed (missing (codes "ID"))))
          λ id.
            calling (Notices.get_by_id (site.io 1) id) (λ e. respond ([], failed (from_db e)))
              λ n.
                respond (
                  [],
                  page (n.title ∷ n.language ∷ n.content ∷ render (fix_newlines n.content) ∷ []),
                )

-- `save`
unfoldable pub save : Site → Request → Handler
unfolding redirect_of with_notice
save site req =
    unless (is_post req) (error_page status_method_not_allowed (missing (codes "http method type")))
      (parse_form req (λ e. error_page status_internal (bad_request (codes "form data") e))
        (deferring (see_other (redirect_of site req) ∷ []) (
          reading (check_allowed (site.io 0) req.member action_change_notice) λ verdict.
            if_allowed verdict flash λ m.
              with_some (site.parse_id (req.form (codes "id"))) (flash (missing (codes "id"))) λ id.
                with_notice id req λ n.
                  calling (Notices.save (site.io 1 0) n) (λ e. flash (from_db e))
                    λ saved. respond updated)))
