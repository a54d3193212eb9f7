-- ===== src/Web/Password.antt =====
-- web/handlers/members_password.go: a password is set by the member who is logged in, or with a
-- reset token. `leaked` is the lookup of leaked passwords, which may fail.
pub mod Laws
use go_ssb_room.Base.{
  ℕ, Bool, true, false, not, Option, none, some, List, [], ◌∷◌, ◌++◌, Text, text_eq, codes, ltb,
  leb, if◌then◌else◌,
}
use go_ssb_room.Roomdb.{Error, foreign_key_violation, hash_failed, Result, ok, err}
use go_ssb_room.Sqlite.Db.{
  PasswordRow, Db, Faults, Action, done, fail, ◌>>=◌, ◌>>◌, found, statement, query, transact,
}
use go_ssb_room.Sqlite.Tokens.{Codec}
use go_ssb_room.Sqlite.Members.{Member}
use go_ssb_room.Sqlite.Fallback.{set_password, set_password_with_token}
use go_ssb_room.Web.Errors.{
  Write, WebError, plain, wrapping, from_db, not_authorized, generic_localized, plain_error,
  flash_message, see_other, handle, add_error, status_bad_request, status_internal,
}
use go_ssb_room.Web.Request.{
  Request, Site, is_post, Handler, PageHandler, page, respond, refuse, error_page, unless,
  with_some, with_result, calling, parse_form,
}

abbrev pub min_password_length : ℕ
min_password_length = 10

-- `SetPassword` for the id -1, which is no member's: the row is not found, and the foreign key
-- refuses to insert it.
unfoldable pub set_password_of_nobody : Codec → Faults → Text → Action (Unit {0})
set_password_of_nobody c io password = do
  hash ← found (c.bcrypt password) hash_failed
  transact io
      (do _ ← query (io 3) (λ db. db.next_password); statement (io 4) (fail foreign_key_violation))

-- The service that is called: by the token if there is one, else for the member who is logged in.
unfoldable pub update_password : Codec → Faults → Option Member → Text → Text → Action (Unit {0})
unfolding set_password_of_nobody
update_password c io logged_in token password =
    if text_eq token []
    then elim logged_in [
      | none ↦ set_password_of_nobody c io password
      | some m ↦ set_password c io m.id password
    ]
    else set_password_with_token c io token password

-- A logged in member with a token in the form.
unfoldable pub both_present : Option Member → Text → Bool
both_present none token = false
both_present (some m) token = not (text_eq token [])

-- A flash message, and back to the form.
abbrev complain : Request → Text → Handler
complain req label =
    respond (add_error (generic_localized label) ∷ see_other (req.header (codes "Referer")) ∷ [])

-- `changePasswordForm`
unfoldable pub change_password_form : Request → PageHandler
change_password_form req = show req.member
  where
    show : Option Member → PageHandler
    show (some m) = respond (page (req.query (codes "token") ∷ []))
    show none =
        unless (not (text_eq (req.query (codes "token")) [])) (refuse not_authorized)
          (respond (page (req.query (codes "token") ∷ [])))

-- `changePassword`
unfoldable pub change_password : Codec → (Text → Result Bool) → Site → Request → Handler
unfolding update_password both_present
change_password c leaked site req =
    let token = req.form (codes "reset-token") in
    let new = req.form (codes "new-password") in
    let login = site.url_to (codes "auth:fallback:login") [] in
    unless (not (text_eq (req.header (codes "Referer")) []))
      (respond (plain_error status_internal ∷ []))
      (unless (is_post req) (error_page status_bad_request (plain (codes "expected POST method"))) (
        parse_form req (λ e. error_page status_bad_request e)
          (unless (not (both_present req.member token))
            (error_page status_bad_request
              (plain (codes "can't have logged in user and reset-token present")))
            (unless (text_eq new (req.form (codes "repeat-password")))
              (complain req (codes "ErrorPasswordDidntMatch"))
              (unless (not (ltb (site.byte_length new) min_password_length))
                (complain req (codes "ErrorPasswordTooShort"))
                (with_result (leaked new)
                  (λ e.
                    error_page status_internal
                      (wrapping (codes "have-i-been-pwned client failed") (from_db e)))
                  λ pwned. unless (not pwned) (complain req (codes "ErrorPasswordLeaked")) (
                    calling (update_password c (site.io 0) req.member token new)
                      (λ e. respond (add_error (from_db e) ∷ see_other login ∷ []))
                      λ done. respond (
                        flash_message (codes "AuthFallbackPasswordUpdated")
                        ∷ see_other login
                        ∷ []))))))))
