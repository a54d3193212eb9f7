-- ===== src/Web/Admin/Answers.antt =====
-- The forms under /admin/ answer truly: what each has done where it tells no error, and that it has
-- done nothing where it tells one.
use go_ssb_room.Base.{◌≡◌, inl, refl, Bool, true, false, Option, none, some}
use go_ssb_room.Sqlite.Db.{Db}
use go_ssb_room.Sqlite.Tokens.{Codec}
use go_ssb_room.Sqlite.Members.{Member}
use go_ssb_room.Web.Request.{Request, Site, Serving, Handler, Outcome}
use go_ssb_room.Web.Request.Answers.{Answers, is_clean, is_page, Answers-error_page}
use go_ssb_room.Web.Admin.{
  Route, Reply, written, rendered, replying, dispatch, authenticate_from_context, serve,
}
use go_ssb_room.Web.Admin.Performed.{Performed, Undone}
use go_ssb_room.Web.Admin.Handling.{
  members_remove-Answers, members_add-Answers, members_change_role-Answers,
  members_reset_link-Answers, denied_add-Answers, denied_remove-Answers, invites_create-Answers,
  invites_revoke-Answers, aliases_revoke-Answers, settings_set_language-Answers,
  notices_save-Answers, settings_set_privacy-Answers, notices_add_translation-Answers,
}

-- A reply tells no error.
abbrev pub is_success : Reply → Bool
is_success (written ws) = is_clean ws
is_success (rendered o) = is_page o

written-Answers :
    (Q R : Db → Type 0) (db : Db) (h : Handler)
    → Answers is_clean Q R db h
    → Answers is_success Q R db (replying written h)
unfolding replying
written-Answers Q R db h k = record { good = k.good; bad = k.bad }

rendered-Answers :
    (Q R : Db → Type 0) (db : Db) (h : Serving Outcome)
    → Answers is_page Q R db h
    → Answers is_success Q R db (replying rendered h)
unfolding replying
rendered-Answers Q R db h k = record { good = k.good; bad = k.bad }

dispatch-Answers :
    (c : Codec) (site : Site) (route : Route) (req : Request) (db : Db)
    → Answers is_success
        (Undone site route req db)
        (Performed c site route req db)
        db
        (dispatch c site route req)
unfolding dispatch
dispatch-Answers c site Route.set_privacy req db =
    written-Answers _ _ db _ (settings_set_privacy-Answers c site req db)
dispatch-Answers c site Route.set_language req db =
    written-Answers _ _ db _ (settings_set_language-Answers c site req db)
dispatch-Answers c site Route.aliases_revoke req db =
    written-Answers _ _ db _ (aliases_revoke-Answers c site req db)
dispatch-Answers c site Route.denied_add req db =
    written-Answers _ _ db _ (denied_add-Answers c site req db)
dispatch-Answers c site Route.denied_remove req db =
    written-Answers _ _ db _ (denied_remove-Answers c site req db)
dispatch-Answers c site Route.members_add req db =
    written-Answers _ _ db _ (members_add-Answers c site req db)
dispatch-Answers c site Route.members_change_role req db =
    written-Answers _ _ db _ (members_change_role-Answers c site req db)
dispatch-Answers c site Route.members_remove req db =
    written-Answers _ _ db _ (members_remove-Answers c site req db)
dispatch-Answers c site Route.members_reset_link req db =
    rendered-Answers _ _ db _ (members_reset_link-Answers c site req db)
dispatch-Answers c site Route.invites_create req db =
    rendered-Answers _ _ db _ (invites_create-Answers c site req db)
dispatch-Answers c site Route.invites_revoke req db =
    written-Answers _ _ db _ (invites_revoke-Answers c site req db)
dispatch-Answers c site Route.notice_add_translation req db =
    written-Answers _ _ db _ (notices_add_translation-Answers c site req db)
dispatch-Answers c site Route.notice_save req db =
    written-Answers _ _ db _ (notices_save-Answers c site req db)

same-Undone : (site : Site) (route : Route) (req : Request) (db : Db) → Undone site route req db db
same-Undone site Route.notice_add_translation req db = inl refl
same-Undone site _ req db = refl

authenticated-Answers :
    (Q R : Db → Type 0) (db : Db) (member : Option Member) (next : Serving Reply)
    → Q db
    → Answers is_success Q R db next
    → Answers is_success Q R db (authenticate_from_context member next)
unfolding authenticate_from_context
authenticated-Answers Q R db none next q k =
    written-Answers Q R db _ (Answers-error_page Q R db _ _ q)
authenticated-Answers Q R db (some m) next q k = k

-- A path under /admin/ answers truly. Where its reply tells no error, the one call that its form asks
-- for was made with what the form holds, succeeded, and left the database as it is then; for a new
-- translation these are the two calls that save and that pin it. Where the reply tells an error, on
-- whatever branch, the database is as it was, but for a translation that was saved and then not
-- pinned.
pub serve-Answers :
    (c : Codec) (site : Site) (route : Route) (req : Request) (db : Db)
    → let r = serve c site route req db in
      (is_success r.0 ≡ true → Performed c site route req db r.1)
      × (is_success r.0 ≡ false → Undone site route req db r.1)
unfolding serve
serve-Answers c site route req db =
    let k =
      authenticated-Answers (Undone site route req db) (Performed c site route req db) db req.member
        _ (same-Undone site route req db) (dispatch-Answers c site route req db) in
    (k.good, k.bad)
