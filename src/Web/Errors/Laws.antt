-- ===== src/Web/Errors/Laws.antt =====
-- web/errors: which status an error is answered with, however it is wrapped.
use go_ssb_room.Base.{◌≡◌, false, Text, arith}
use go_ssb_room.Web.Errors.{
  WebError, wrapping, is_not_authorized, is_bad_login, as_generic, is_not_found, as_already_added,
  as_page_not_found, as_bad_request, as_forbidden, localize_error,
}

-- An error that is wrapped by `%w` is answered with the status that it would be answered with
-- itself, unless it is one of the two that are compared by `==`, which then lose theirs.
pub localize_error-wrapping :
    (t : Text) (e : WebError)
    → is_not_authorized e ≡ false
    → is_bad_login e ≡ false
    → (localize_error (wrapping t e)).code ≡ (localize_error e).code
unfolding localize_error is_not_authorized is_bad_login as_generic is_not_found as_already_added
    as_page_not_found as_bad_request as_forbidden
localize_error-wrapping t e n b = ground arith
