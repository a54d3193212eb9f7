-- ===== src/Web/Request.antt =====
-- What the handlers of web/handlers read of a request, and how they answer: a list of writes to the
-- response, and the database after it.
pub mod Guards
pub mod Answers
use go_ssb_room.Base.{
  ℕ, Bool, true, false, Option, none, some, List, [], ◌∷◌, ◌++◌, Text, codes, text_eq,
}
use go_ssb_room.Roomdb.{Error, Result, ok, err}
use go_ssb_room.Sqlite.Db.{Db, Faults, Action}
use go_ssb_room.Sqlite.Members.{Member}
use go_ssb_room.Room.Actions.{Verdict, allowed, config_failed}
use go_ssb_room.Web.Errors.{WebError, plain, wrapping, from_db, Write, handle, add_error}

-- `form` is `req.FormValue` after a `ParseForm` that succeeded, `query` is `req.URL.Query().Get`.
-- `member` is what `members.FromContext` reads.
pub record Request : Type 0 where
  pub method : Text
  pub form_error : Option Text
  pub form : Text → Text
  pub query : Text → Text
  pub header : Text → Text
  pub member : Option Member

abbrev pub is_post : Request → Bool
is_post req = text_eq req.method (codes "POST")

-- What the handlers take from elsewhere: `strconv.ParseInt` on a row id (negative ids are left out),
-- `len` of a string, the urls of the router, by route and parameter, the faults of each call of a service, by its
-- number in the handler, the time and the random bytes.
pub record Site : Type 0 where
  pub parse_id : Text → Option ℕ
  pub byte_length : Text → ℕ
  pub url_to : Text → Text → Text
  pub itoa : ℕ → Text
  pub io : ℕ → Faults
  pub now : ℕ
  pub random : ℕ → Text

abbrev pub Serving : Type 0 → Type 0
Serving O = Db → O × Db

-- A handler that writes to the response.
abbrev pub Handler : Type 0
Handler = Serving (List Write)

-- A handler that hands the data of its template, or an error, to the renderer that wraps it.
pub data Outcome : Type 0 where
  page : List Text → Outcome
  failed : WebError → Outcome

abbrev pub PageHandler : Type 0
PageHandler = Serving Outcome

abbrev pub respond : {O : Type 0} → O → Serving O
respond o db = (o, db)

-- `h.r.Error(w, req, code, err)`
abbrev pub error_page : ℕ → WebError → Handler
error_page code e = respond (handle code e)

-- `h.flashes.AddError(w, req, err)`
abbrev pub flash : WebError → Handler
flash e = respond (add_error e ∷ [])

-- `return nil, err`
abbrev pub refuse : WebError → PageHandler
refuse e = respond (failed e)

unfoldable pub add_writes : List Write → List Write × Db → List Write × Db
add_writes writes (before, db) = (before ++ writes, db)

-- `defer`: what is written when the handler returns.
abbrev pub deferring : List Write → Handler → Handler
deferring writes h db = add_writes writes (h db)

module _ {O : Type 0} where
  -- `if !ok { ...; return }`
  unfoldable pub unless : Bool → Serving O → Serving O → Serving O
  unless true bad good = good
  unless false bad good = bad

  -- A value that was computed, or the error for its absence.
  unfoldable pub with_some : {A : Type 0} → Option A → Serving O → (A → Serving O) → Serving O
  with_some none bad good = bad
  with_some (some a) bad good = good a

  unfoldable pub with_result :
      {A : Type 0} → Result A → (Error → Serving O) → (A → Serving O) → Serving O
  with_result (ok a) bad good = good a
  with_result (err e) bad good = bad e

  -- One call of a service, by how it ended.
  unfoldable pub on_call :
      {A : Type 0} → (Error → Serving O) → (A → Serving O) → Result A × Db → O × Db
  on_call bad good (ok a, db) = good a db
  on_call bad good (err e, db) = bad e db

  abbrev pub calling : {A : Type 0} → Action A → (Error → Serving O) → (A → Serving O) → Serving O
  calling m bad good db = on_call bad good (m db)

  -- A read of the database whose outcome is not an error.
  abbrev pub reading : {A : Type 0} → (Db → A) → (A → Serving O) → Serving O
  reading f k db = k (f db) db

  -- `ParseForm`
  unfoldable pub parsed : Option Text → (WebError → Serving O) → Serving O → Serving O
  parsed none bad good = good
  parsed (some t) bad good = bad (plain t)

  abbrev pub parse_form : Request → (WebError → Serving O) → Serving O → Serving O
  parse_form req bad good = parsed req.form_error bad good

-- The error of `CheckAllowed`.
unfoldable pub verdict_error : Verdict → WebError
verdict_error (Verdict.allowed m) = plain []
verdict_error Verdict.not_authorized = WebError.not_authorized
verdict_error Verdict.unknown_action = wrapping (codes "unknown action") WebError.not_authorized
verdict_error (Verdict.config_failed e) = from_db e

-- `if _, err := members.CheckAllowed(...); err != nil { ...; return }`
unfoldable pub if_allowed :
    {O : Type 0} → Verdict → (WebError → Serving O) → (Member → Serving O) → Serving O
unfolding verdict_error
if_allowed (Verdict.allowed m) bad good = good m
if_allowed v bad good = bad (verdict_error v)
