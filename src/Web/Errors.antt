-- ===== src/Web/Errors.antt =====
-- web/errors: the errors of the pages, what they say and with which status they are answered.
pub mod Laws
use go_ssb_room.Base.{
  ℕ, Bool, true, false, Option, none, some, List, [], ◌∷◌, Text, codes, if◌then◌else◌,
}
use go_ssb_room.Roomdb.{FeedRef, Error, not_found, already_added, bad_login}

-- The errors that reach a page. One with another inside is looked through by `errors.Is` and
-- `errors.As` where it has `Unwrap`: `ErrBadRequest`, `ErrRedirect` and what `%w` wraps.
pub data WebError : Type 0 where
  -- `errors.New` and `fmt.Errorf` without `%w`
  plain : Text → WebError
  wrapping : Text → WebError → WebError
  from_db : Error → WebError
  not_authorized denied : WebError
  generic_localized item_not_found forbidden page_not_found : Text → WebError
  bad_request : Text → WebError → WebError
  redirect_to : Text → WebError → WebError
  database_error : Error → WebError

-- A localized label with the data that it is filled with, or the error's own text.
pub data Message : Type 0 where
  label : Text → Message
  label_with : Text → Text → Message
  own_text : WebError → Message

pub record Localized : Type 0 where
  pub code : ℕ
  pub message : Message

abbrev pub status_see_other : ℕ
status_see_other = 303

abbrev pub status_bad_request : ℕ
status_bad_request = 400

abbrev pub status_forbidden : ℕ
status_forbidden = 403

abbrev pub status_not_found : ℕ
status_not_found = 404

abbrev pub status_internal : ℕ
status_internal = 500

-- `err == ErrNotAuthorized` and `err == auth.ErrBadLogin` look at the outermost error only.
unfoldable pub is_not_authorized : WebError → Bool
is_not_authorized not_authorized = true
is_not_authorized _ = false

unfoldable pub is_bad_login : WebError → Bool
is_bad_login (from_db bad_login) = true
is_bad_login _ = false

-- `errors.As(err, &gl)`
unfoldable pub as_generic : WebError → Option Text
as_generic (generic_localized l) = some l
as_generic (wrapping t e) = as_generic e
as_generic (bad_request w e) = as_generic e
as_generic (redirect_to p e) = as_generic e
as_generic _ = none

-- `errors.Is(err, roomdb.ErrNotFound)`
unfoldable pub is_not_found : WebError → Bool
is_not_found (from_db not_found) = true
is_not_found (wrapping t e) = is_not_found e
is_not_found (bad_request w e) = is_not_found e
is_not_found (redirect_to p e) = is_not_found e
is_not_found _ = false

-- `errors.As(err, &aa)`
unfoldable pub as_already_added : WebError → Option FeedRef
as_already_added (from_db (already_added key)) = some key
as_already_added (wrapping t e) = as_already_added e
as_already_added (bad_request w e) = as_already_added e
as_already_added (redirect_to p e) = as_already_added e
as_already_added _ = none

-- `errors.As(err, &pnf)`
unfoldable pub as_page_not_found : WebError → Option Text
as_page_not_found (page_not_found p) = some p
as_page_not_found (wrapping t e) = as_page_not_found e
as_page_not_found (bad_request w e) = as_page_not_found e
as_page_not_found (redirect_to p e) = as_page_not_found e
as_page_not_found _ = none

-- `errors.As(err, &br)`, by its `Where`
unfoldable pub as_bad_request : WebError → Option Text
as_bad_request (bad_request w e) = some w
as_bad_request (wrapping t e) = as_bad_request e
as_bad_request (redirect_to p e) = as_bad_request e
as_bad_request _ = none

-- `errors.As(err, &f)`, by its details
unfoldable pub as_forbidden : WebError → Option Text
as_forbidden (forbidden d) = some d
as_forbidden (wrapping t e) = as_forbidden e
as_forbidden (bad_request w e) = as_forbidden e
as_forbidden (redirect_to p e) = as_forbidden e
as_forbidden _ = none

-- `errors.As(err, &redirectErr)`, with its path and its reason
unfoldable pub as_redirect : WebError → Option (Text × WebError)
as_redirect (redirect_to p e) = some (p, e)
as_redirect (wrapping t e) = as_redirect e
as_redirect (bad_request w e) = as_redirect e
as_redirect _ = none

-- The cases of the switch in `localizeError`: the first that applies.
abbrev case_of : {A : Type 0} → Option A → (A → Localized) → Localized → Localized
case_of none f later = later
case_of (some a) f later = f a

abbrev localized : ℕ → Message → Localized
localized code message = record { code = code; message = message }

-- `localizeError`
unfoldable pub localize_error : WebError → Localized
unfolding is_not_authorized is_bad_login as_generic is_not_found as_already_added as_page_not_found
    as_bad_request as_forbidden
localize_error e =
    if is_not_authorized e
    then localized status_forbidden (label (codes "ErrorNotAuthorized"))
    else if is_bad_login e
    then localized status_internal (label (codes "ErrorAuthBadLogin"))
    else case_of (as_generic e) (λ l. localized status_internal (label l))
        (if is_not_found e
          then localized status_not_found (label (codes "ErrorNotFound"))
          else case_of (as_already_added e)
              (λ key. localized status_internal (label_with (codes "ErrorAlreadyAdded") key))
              (case_of (as_page_not_found e)
                (λ path. localized status_not_found (label_with (codes "ErrorPageNotFound") path))
                (case_of (as_bad_request e)
                  (λ part. localized status_bad_request (label_with (codes "ErrorBadRequest") part))
                  (case_of (as_forbidden e)
                    (λ why. localized status_forbidden (label_with (codes "ErrorForbidden") why))
                    (localized status_internal (own_text e))))))

-- What a handler does to the response, in order.
pub data Write : Type 0 where
  error_page : Localized → Write
  -- `http.Error`, with the status
  plain_error : ℕ → Write
  flash_error : Message → Write
  flash_message : Text → Write
  -- `http.Redirect` with 303 See Other
  see_other : Text → Write
  -- `http.Redirect` with 307 Temporary Redirect
  temporary_redirect : Text → Write
  -- a JSON object, by its status and the fields that vary
  json : Text → List Text → Write
  json_error : Text → WebError → Write
  -- a template that is rendered with 200 OK, by its name and its data
  html : Text → List Text → Write

-- `FlashHelper.AddError`
unfoldable pub add_error : WebError → Write
unfolding localize_error
add_error e = flash_error (localize_error e).message

unfoldable pub handle_as : Option (Text × WebError) → WebError → List Write
unfolding add_error localize_error
handle_as (some (path, reason)) e = add_error reason ∷ see_other path ∷ []
handle_as none e = error_page (localize_error e) ∷ []

-- `ErrorHandler.Handle`. The status that the caller asks for is not used.
unfoldable pub handle : ℕ → WebError → List Write
unfolding handle_as as_redirect
handle code e = handle_as (as_redirect e) e
