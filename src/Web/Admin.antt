-- ===== src/Web/Admin.antt =====
-- web/handlers/admin/handler.go: the paths of the forms by which members change the room, behind
-- `members.AuthenticateFromContext`, as web/handlers/http.go mounts them.
pub mod Members
pub mod Invites
pub mod Denied
pub mod Settings
pub mod Aliases
pub mod Notices
pub mod Translations
pub mod Guards
pub mod Performed
pub mod Handling
pub mod Answers
pub mod Dashboard
use go_ssb_room.Base.{ℕ, Option, none, some, List, [], ◌∷◌}
use go_ssb_room.Sqlite.Db.{Db}
use go_ssb_room.Sqlite.Tokens.{Codec}
use go_ssb_room.Sqlite.Members.{Member}
use go_ssb_room.Web.Errors.{Write, not_authorized}
use go_ssb_room.Web.Request.{Request, Site, Serving, Handler, PageHandler, Outcome, error_page}

-- The paths under /admin/ whose handlers write to the database.
pub data Route : Type 0 where
  set_privacy set_language aliases_revoke denied_add denied_remove members_add : Route
  members_change_role members_remove members_reset_link : Route
  invites_create invites_revoke notice_add_translation notice_save : Route

-- What a handler leaves to be sent: its own writes, or the outcome that its renderer answers with.
pub data Reply : Type 0 where
  written : List Write → Reply
  rendered : Outcome → Reply

unfoldable pub replying : {O : Type 0} → (O → Reply) → Serving O → Serving Reply
replying f h db = (f (h db).0, (h db).1)

-- `Handler`: what each path is answered by.
unfoldable pub dispatch : Codec → Site → Route → Request → Serving Reply
unfolding replying
dispatch c site set_privacy req = replying written (Settings.set_privacy site req)
dispatch c site set_language req = replying written (Settings.set_language site req)
dispatch c site aliases_revoke req = replying written (Aliases.revoke site req)
dispatch c site denied_add req = replying written (Denied.add c site req)
dispatch c site denied_remove req = replying written (Denied.remove site req)
dispatch c site members_add req = replying written (Members.add c site req)
dispatch c site members_change_role req = replying written (Members.change_role site req)
dispatch c site members_remove req = replying written (Members.remove site req)
dispatch c site members_reset_link req =
    replying rendered (Members.create_password_reset_token c site req)
dispatch c site invites_create req = replying rendered (Invites.create c site req)
dispatch c site invites_revoke req = replying written (Invites.revoke site req)
dispatch c site notice_add_translation req = replying written (Notices.add_translation site req)
dispatch c site notice_save req = replying written (Notices.save site req)

-- `AuthenticateFromContext`
unfoldable pub authenticate_from_context : Option Member → Serving Reply → Serving Reply
authenticate_from_context none next = replying written (error_page 401 not_authorized)
authenticate_from_context (some m) next = next

-- A request for a path under /admin/.
unfoldable pub serve : Codec → Site → Route → Request → Serving Reply
unfolding dispatch authenticate_from_context
serve c site route req = authenticate_from_context req.member (dispatch c site route req)
