-- ===== src/Web/Login.antt =====
-- web/handlers/auth/withssb.go and web/members/helper.go: how a request comes to be a member's, and
-- how a browser is signed in with ssb or signed out. Times are seconds since 1970.
pub mod Laws
use go_ssb_room.Base.{
  ℕ, ◌+◌, ◌-◌, Bool, true, false, not, ltb, Option, none, some, List, [], ◌∷◌, ◌++◌, Text, text_eq,
  codes, if◌then◌else◌,
}
use go_ssb_room.Roomdb.{FeedRef, Error, not_found, Result, ok, err}
use go_ssb_room.Sqlite.Db.{Db, Faults}
use go_ssb_room.Sqlite.Members.{Member}
use go_ssb_room.Sqlite.Members as Members
use go_ssb_room.Sqlite.Aliases as Aliases
use go_ssb_room.Sqlite.Sessions.{session_timeout, check_token, remove_token, create_token}
use go_ssb_room.Room.SignIn.{ClientPayload, Library, validate, trimmed}
use go_ssb_room.Room.Aliases.{trim_suffix, sig_suffix}
use go_ssb_room.Web.Errors.{
  Write, WebError, plain, wrapping, from_db, forbidden, plain_error, temporary_redirect, handle,
  html, status_forbidden, status_internal,
}
use go_ssb_room.Web.Request.{
  Request, Site, Serving, Handler, respond, error_page, unless, with_some, with_result, calling,
}

-- A value of the cookie session, which may be of another type than the handler expects.
pub data Value (A : Type 0) : Type 0 where
  absent : Value A
  other_type : Value A
  held : A → Value A

-- The session that `cookieStore.Get` loads.
pub record Cookie : Type 0 where
  pub is_new : Bool
  pub member_token : Value Text
  pub user_timeout : Value ℕ

-- `sessionLifetime`
abbrev pub session_lifetime : ℕ
session_lifetime = session_timeout

unfoldable pub of_result : Result Member → Option Member
of_result (ok m) = some m
of_result (err e) = none

-- The member that a token signs in: `CheckToken`, then `GetByID`.
unfoldable pub load_member : Site → Result ℕ × Db → Option Member × Db
unfolding of_result
load_member site (err e, db) = (none, db)
load_member site (ok id, db) =
    (of_result (Members.get_by_id (site.io 1) id db).0, (Members.get_by_id (site.io 1) id db).1)

unfoldable pub check_member : Site → Text → Serving (Option Member)
unfolding load_member
check_member site token db = load_member site (check_token (site.io 0) token site.now db)

-- The token of a cookie that is not new, whose time is not over.
unfoldable pub token_in_time : ℕ → Value Text → Value ℕ → Option Text
token_in_time now (held token) (held timeout) = if ltb timeout now then none else some token
token_in_time now _ _ = none

unfoldable pub live_token : ℕ → Option Cookie → Option Text
unfolding token_in_time
live_token now none = none
live_token now (some c) = if c.is_new then none else token_in_time now c.member_token c.user_timeout

-- `AuthenticateRequest`, without its error; `cookie` is none where the store fails.
unfoldable pub authenticate_request : Site → Option Cookie → Serving (Option Member)
unfolding live_token check_member
authenticate_request site cookie =
    with_some (live_token site.now cookie) (respond none) (check_member site)

-- The outcome of the password sign-in: no session, a session without an id, or an id.
pub data Passed : Type 0 where
  not_passed without_id : Passed
  passed_as : ℕ → Passed

-- What the middleware puts into the context, by the member of the password and that of the token.
unfoldable pub latest : Option Member → Option Member × Db → Option Member × Db
latest by_password (some m, db) = (some m, db)
latest by_password (none, db) = (by_password, db)

-- `ContextInjecter`; the call that loads the member of the password has the faults `io 2`.
unfoldable pub inject_context : Site → Passed → Option Cookie → Serving (Option Member)
unfolding authenticate_request latest
inject_context site without_id cookie db = (none, db)
inject_context site not_passed cookie db = latest none (authenticate_request site cookie db)
inject_context site (passed_as id) cookie db =
    calling (Members.get_by_id (site.io 2) id) (λ e. respond none)
      (λ m db'. latest (some m) (authenticate_request site cookie db')) db

-- `Logout`: whether it reports no error, and whether the cookie was invalidated. `saved` says
-- whether the store can save the cookie.
pub data LoggedOut : Type 0 where
  logout_failed nothing_to_do cookie_cleared : LoggedOut

unfoldable pub clear_cookie : Bool → LoggedOut
clear_cookie true = cookie_cleared
clear_cookie false = logout_failed

unfoldable pub logout_token : Site → Bool → Value Text → Serving LoggedOut
unfolding clear_cookie
logout_token site saved absent = respond nothing_to_do
logout_token site saved other_type = respond logout_failed
logout_token site saved (held token) =
    calling (remove_token (site.io 0) token) (λ e. respond logout_failed)
      λ done. respond (clear_cookie saved)

unfoldable pub logout : Site → Bool → Option Cookie → Serving LoggedOut
unfolding logout_token
logout site saved none = respond logout_failed
logout site saved (some c) = logout_token site saved c.member_token

-- `saveCookie`, where the store works: the cookie that the browser then has.
abbrev pub saved_cookie : ℕ → Text → Cookie
saved_cookie now token = record {
  is_new = false;
  member_token = held token;
  user_timeout = held (now + session_lifetime);
}

-- An answer, and the cookie that is set with it.
abbrev pub SigningIn : Type 0
SigningIn = Serving (List Write × Option Cookie)

unfoldable pub set_cookie : Bool → ℕ → Text → List Write → List Write → List Write × Option Cookie
set_cookie true now token good bad = (good, some (saved_cookie now token))
set_cookie false now token good bad = (bad, none)

-- `finalizeCookie`
unfoldable pub finalize_cookie : Site → Bool → Request → SigningIn
unfolding set_cookie
finalize_cookie site saved req =
    calling (check_token (site.io 0) (req.query (codes "token")) site.now)
      (λ e. respond (plain_error status_forbidden ∷ [], none))
      λ id. respond (
        set_cookie saved site.now (req.query (codes "token")) (temporary_redirect (codes "/") ∷ [])
          (plain_error status_internal ∷ []))

-- What `clientInitiated` takes from outside: the room's id, whether the client is connected, the
-- challenge that the server rolls, and what the client answers to it.
pub record Peer : Type 0 where
  pub room_id : FeedRef
  pub connected : Bool
  pub challenge : Text
  pub solution : Result Text

-- An error of `clientInitiated` is shown by `DecideMethod`.
abbrev pub give_up : WebError → SigningIn
give_up e = respond (handle status_internal e, none)

unfoldable pub not_member : Error → WebError
not_member Error.not_found = forbidden (codes "ssb http auth: client isn't a member")
not_member e = from_db e

abbrev pub payload_of : Peer → FeedRef → Text → ClientPayload
payload_of peer client cc = record {
  client = client;
  server = peer.room_id;
  client_challenge = cc;
  server_challenge = peer.challenge;
}

-- `clientInitiated`
unfoldable pub client_initiated : Library → Site → Bool → Peer → Request → FeedRef → SigningIn
unfolding validate trimmed trim_suffix set_cookie not_member
client_initiated l site saved peer req client =
    calling (Members.get_by_feed (site.io 0) client) (λ e. give_up (not_member e))
      λ member.
        unless peer.connected
          (give_up (forbidden (codes "ssb http auth: client not connected to room")))
          (with_result peer.solution
            (λ e. give_up (
              wrapping (codes "ssb http auth: could not request solution from client") (from_db e)))
            λ answer.
              with_some (l.decode (trimmed (trim_suffix sig_suffix answer) answer))
                (give_up (wrapping (codes "ssb http auth: failed to decode solution") (plain [])))
                λ signature.
                  unless (validate l (payload_of peer client (req.query (codes "cc"))) signature)
                    (give_up (plain (codes "ssb http auth: validation of client solution failed")))
                    (calling (create_token site.random (site.io 1) member.id site.now)
                      (λ e.
                        give_up
                          (wrapping (codes "ssb http auth: could not create token") (from_db e)))
                      λ token. respond (
                        set_cookie saved site.now token
                          (temporary_redirect (codes "/admin/dashboard") ∷ [])
                          (handle status_internal
                            (plain (codes "ssb http auth: failed to update cookie session"))))))

-- The landing page of the sign-in: an error, a sign-in by the client, or the page of
-- `serverInitiated`, with the challenge that a remote device solves, if it is one's.
pub data Landing : Type 0 where
  turned_away : List Write → Landing
  by_client : FeedRef → Landing
  by_server : Text → Landing

-- `?cid=` of a key that parses must be a member's.
unfoldable pub of_cid : Error → Landing
of_cid Error.not_found = turned_away (handle status_forbidden (forbidden (codes "not found")))
of_cid e = turned_away (handle status_internal (from_db e))

unfoldable pub branch : Request → Option FeedRef → Landing
branch req none = by_server (req.query (codes "sc"))
branch req (some cid) =
    if text_eq (req.query (codes "cc")) []
    then by_server (req.query (codes "sc"))
    else by_client cid

-- `DecideMethod`; `parse` is `refs.ParseFeedRef`.
unfoldable pub decide_method : (Text → Option FeedRef) → Site → Request → Serving Landing
unfolding branch of_cid
decide_method parse site req =
    if text_eq (req.query (codes "cid")) []
    then (calling (Aliases.resolve (site.io 0) (req.query (codes "alias")))
        (λ e. respond (branch req none)) λ a. respond (branch req (some a.feed)))
    else with_some (parse (req.query (codes "cid"))) (respond (branch req none)) (λ cid.
      calling (Members.get_by_feed (site.io 0) cid) (λ e. respond (of_cid e))
        λ m. respond (branch req (some cid)))
