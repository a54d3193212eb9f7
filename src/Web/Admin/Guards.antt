-- ===== src/Web/Admin/Guards.antt =====
-- Who may change the database by a form under /admin/.
use go_ssb_room.Base.{
  ℕ, List, ◌==◌, ==_iff, inl, inr, ◌≡◌, ◌≢◌, refl, true, text_eq, Option, none, some, Text, codes,
  arith,
}
use go_ssb_room.Roomdb.{Result-cases, role_admin, PrivacyMode, ok}
use go_ssb_room.Sqlite.Db.{done, Db, Faults}
use go_ssb_room.Sqlite.Tokens.{Codec}
use go_ssb_room.Sqlite.Members.{Member, Alias}
use go_ssb_room.Sqlite.Aliases.{resolve, find_one}
use go_ssb_room.Sqlite.Config.{get_privacy_mode}
use go_ssb_room.Sqlite.Keeps.{IsRead, IsRead-bind, query-IsRead, found-IsRead}
use go_ssb_room.Room.Actions.{
  AllowedFunc, check_allowed, in_mode, decide, allowed_actions, Verdict, may_invite,
  may_change_denied_keys, may_remove_member, may_change_notice, action_invite,
  action_change_denied_keys, action_remove_member, action_change_notice,
}
use go_ssb_room.Web.Request.{Request, Site, Serving, Handler}
use go_ssb_room.Web.Request.Guards.{
  Guards, guarding, Guards-always, Guards-read, Guards-respond, Guards-unless,
}
use go_ssb_room.Web.Admin.{Route, Reply, replying, dispatch, authenticate_from_context, serve}
use go_ssb_room.Web.Errors.{Write}
use go_ssb_room.Sqlite.Notices.{Notice}
use go_ssb_room.Web.Admin.Members as Members
use go_ssb_room.Web.Admin.Invites as Invites
use go_ssb_room.Web.Admin.Denied as Denied
use go_ssb_room.Web.Admin.Settings as Settings
use go_ssb_room.Web.Admin.Aliases as Aliases
use go_ssb_room.Web.Admin.Notices as Notices

-- The member who is logged in, with a permission that the privacy mode and their role give.
abbrev pub Entitled : AllowedFunc → Faults → Option Member → Db → Type 0
Entitled may io logged_in db =
    (m : Member) × (pm : PrivacyMode) × (logged_in ≡ some m)
    × ((get_privacy_mode io db).0 ≡ ok pm)
    × (may pm m.role ≡ true)

abbrev pub IsAdmin : Option Member → Type 0
IsAdmin logged_in = (m : Member) × (logged_in ≡ some m) × (m.role ≡ role_admin)

check_allowed-Entitled :
    (may : AllowedFunc) (action : Text) (io : Faults) (logged_in : Option Member) (db : Db)
    (m : Member)
    → allowed_actions action ≡ some may
    → check_allowed io logged_in action db ≡ Verdict.allowed m
    → Entitled may io logged_in db
unfolding check_allowed in_mode decide
check_allowed-Entitled may action io none db m named h = absurd (ground arith)
check_allowed-Entitled may action io (some n) db m named h =
    elim (Result-cases (get_privacy_mode io db).0) [
      | inr (e, k) ↦ absurd (ground arith)
      | inl (pm, k) ↦ (n, pm, refl, k, ground arith)
    ]

-- What the guard of each kind of handler gives.
module _ (io : Faults) (logged_in : Option Member) (db : Db) (m : Member) where
  invite-Entitled :
      check_allowed io logged_in action_invite db ≡ Verdict.allowed m
      → Entitled may_invite io logged_in db
  unfolding allowed_actions text_eq
  invite-Entitled = check_allowed-Entitled may_invite action_invite io logged_in db m refl

  denied_keys-Entitled :
      check_allowed io logged_in action_change_denied_keys db ≡ Verdict.allowed m
      → Entitled may_change_denied_keys io logged_in db
  unfolding allowed_actions text_eq
  denied_keys-Entitled =
      check_allowed-Entitled may_change_denied_keys action_change_denied_keys io logged_in db m refl

  remove_member-Entitled :
      check_allowed io logged_in action_remove_member db ≡ Verdict.allowed m
      → Entitled may_remove_member io logged_in db
  unfolding allowed_actions text_eq
  remove_member-Entitled =
      check_allowed-Entitled may_remove_member action_remove_member io logged_in db m refl

  notice-Entitled :
      check_allowed io logged_in action_change_notice db ≡ Verdict.allowed m
      → Entitled may_change_notice io logged_in db
  unfolding allowed_actions text_eq
  notice-Entitled =
      check_allowed-Entitled may_change_notice action_change_notice io logged_in db m refl

admin_of-IsAdmin :
    (logged_in : Option Member) (m : Member)
    → Members.admin_of logged_in ≡ some m
    → IsAdmin logged_in
unfolding Members.admin_of
admin_of-IsAdmin none m h = absurd (ground arith)
admin_of-IsAdmin (some n) m h = (n, refl, ground arith)

done-IsRead : {A : Type 0} (a : A) → IsRead (done a)
done-IsRead a = record { apply = λ db. refl }

pub resolve-IsRead : (io : Faults) (name : Text) → IsRead (resolve io name)
unfolding resolve find_one
resolve-IsRead io name = search (IsRead-bind, query-IsRead, found-IsRead, done-IsRead) depth 8

module _ (Q : Type 0) (db : Db) where
  get_member-Guards :
      (logged_in : Option Member) (next : Handler)
      → (IsAdmin logged_in → Guards Q db next)
      → Guards Q db (Settings.get_member logged_in next)
  unfolding Settings.get_member
  get_member-Guards none next k = Guards-respond Q db _
  get_member-Guards (some m) next k =
      Guards-unless Q db (m.role == role_admin) _ next (Guards-respond Q db _)
        λ h. k (m, refl, ground (arith, ==_iff m.role role_admin))

  writing-Guards :
      (ws : List Write) (next : Handler) → Guards Q db next → Guards Q db (Settings.writing ws next)
  unfolding Settings.writing
  writing-Guards ws next k = record { apply = λ other. k.apply other }

  with_notice-Guards :
      (id : ℕ) (req : Request) (next : Notice → Handler)
      → ((n : Notice) → Guards Q db (next n))
      → Guards Q db (Notices.with_notice id req next)
  unfolding Notices.with_notice
  with_notice-Guards id req next k = search guarding depth 8

ruleset permissions = (
  guarding, Guards-always, invite-Entitled, denied_keys-Entitled, remove_member-Entitled,
  notice-Entitled, admin_of-IsAdmin, get_member-Guards, writing-Guards, with_notice-Guards,
)

-- The alias that was asked for is the member's own, or they are an admin.
abbrev pub OwnsAlias : Site → Request → Db → Type 0
OwnsAlias site req db =
    (m : Member) × (a : Alias) × (req.member ≡ some m)
    × ((resolve (site.io 0) (req.form (codes "name")) db).0 ≡ ok a)
    × (Aliases.may_revoke a.feed m ≡ true)

owned :
    (site : Site) (req : Request) (db : Db) (a : Alias) (m : Member)
    → (resolve (site.io 0) (req.form (codes "name")) db).0 ≡ ok a
    → req.member ≡ some m
    → Aliases.may_revoke a.feed m ≡ true
    → OwnsAlias site req db
owned site req db a m found same own = (m, a, same, found, own)

aliases_revoke-Guards :
    (site : Site) (req : Request) (db : Db)
    → Guards (OwnsAlias site req db) db (Aliases.revoke site req)
unfolding Aliases.revoke
aliases_revoke-Guards site req db =
    search (guarding, resolve-IsRead, Guards-read, Guards-always, owned) depth 14

members_change_role-Guards :
    (site : Site) (req : Request) (db : Db)
    → Guards (IsAdmin req.member) db (Members.change_role site req)
unfolding Members.change_role
members_change_role-Guards site req db = search permissions depth 14

members_remove-Guards :
    (site : Site) (req : Request) (db : Db)
    → Guards (Entitled may_remove_member (site.io 0) req.member db) db (Members.remove site req)
unfolding Members.remove
members_remove-Guards site req db = search permissions depth 14

members_create_password_reset_token-Guards :
    (c : Codec) (site : Site) (req : Request) (db : Db)
    → Guards (IsAdmin req.member) db (Members.create_password_reset_token c site req)
unfolding Members.create_password_reset_token
members_create_password_reset_token-Guards c site req db = search permissions depth 14

invites_create-Guards :
    (c : Codec) (site : Site) (req : Request) (db : Db)
    → Guards (Entitled may_invite (site.io 0) req.member db) db (Invites.create c site req)
unfolding Invites.create
invites_create-Guards c site req db = search permissions depth 14

invites_revoke-Guards :
    (site : Site) (req : Request) (db : Db)
    → Guards (Entitled may_invite (site.io 0) req.member db) db (Invites.revoke site req)
unfolding Invites.revoke
invites_revoke-Guards site req db = search permissions depth 14

denied_add-Guards :
    (c : Codec) (site : Site) (req : Request) (db : Db)
    → Guards (Entitled may_change_denied_keys (site.io 0) req.member db) db (Denied.add c site req)
unfolding Denied.add
denied_add-Guards c site req db = search permissions depth 14

denied_remove-Guards :
    (site : Site) (req : Request) (db : Db)
    → Guards (Entitled may_change_denied_keys (site.io 0) req.member db) db (Denied.remove site req)
unfolding Denied.remove
denied_remove-Guards site req db = search permissions depth 14

settings_set_language-Guards :
    (site : Site) (req : Request) (db : Db)
    → Guards (IsAdmin req.member) db (Settings.set_language site req)
unfolding Settings.set_language Settings.verify_post_requirements
settings_set_language-Guards site req db = search permissions depth 14

settings_set_privacy-Guards :
    (site : Site) (req : Request) (db : Db)
    → Guards (IsAdmin req.member) db (Settings.set_privacy site req)
unfolding Settings.set_privacy Settings.verify_post_requirements
settings_set_privacy-Guards site req db = search permissions depth 14

notices_add_translation-Guards :
    (site : Site) (req : Request) (db : Db)
    → Guards
        (Entitled may_change_notice (site.io 0) req.member db)
        db
        (Notices.add_translation site req)
unfolding Notices.add_translation
notices_add_translation-Guards site req db = search permissions depth 14

notices_save-Guards :
    (site : Site) (req : Request) (db : Db)
    → Guards (Entitled may_change_notice (site.io 0) req.member db) db (Notices.save site req)
unfolding Notices.save
notices_save-Guards site req db = search permissions depth 14

-- What each path asks of the member before it writes.
abbrev pub Permitted : Site → Route → Request → Db → Type 0
Permitted site Route.set_privacy req db = IsAdmin req.member
Permitted site Route.set_language req db = IsAdmin req.member
Permitted site Route.members_change_role req db = IsAdmin req.member
Permitted site Route.members_reset_link req db = IsAdmin req.member
Permitted site Route.members_remove req db = Entitled may_remove_member (site.io 0) req.member db
Permitted site Route.members_add req db = (m : Member) × (req.member ≡ some m)
Permitted site Route.denied_add req db = Entitled may_change_denied_keys (site.io 0) req.member db
Permitted site Route.denied_remove req db =
    Entitled may_change_denied_keys (site.io 0) req.member db
Permitted site Route.invites_create req db = Entitled may_invite (site.io 0) req.member db
Permitted site Route.invites_revoke req db = Entitled may_invite (site.io 0) req.member db
Permitted site Route.notice_add_translation req db =
    Entitled may_change_notice (site.io 0) req.member db
Permitted site Route.notice_save req db = Entitled may_change_notice (site.io 0) req.member db
Permitted site Route.aliases_revoke req db = OwnsAlias site req db

dispatch-guard :
    (c : Codec) (site : Site) (route : Route) (req : Request) (db : Db) (m : Member)
    → req.member ≡ some m
    → (dispatch c site route req db).1 ≢ db
    → Permitted site route req db
unfolding dispatch replying
dispatch-guard c site Route.set_privacy req db m e = (settings_set_privacy-Guards site req db).apply
dispatch-guard c site Route.set_language req db m e =
    (settings_set_language-Guards site req db).apply
dispatch-guard c site Route.aliases_revoke req db m e = (aliases_revoke-Guards site req db).apply
dispatch-guard c site Route.denied_add req db m e = (denied_add-Guards c site req db).apply
dispatch-guard c site Route.denied_remove req db m e = (denied_remove-Guards site req db).apply
dispatch-guard c site Route.members_add req db m e = λ other. (m, e)
dispatch-guard c site Route.members_change_role req db m e =
    (members_change_role-Guards site req db).apply
dispatch-guard c site Route.members_remove req db m e = (members_remove-Guards site req db).apply
dispatch-guard c site Route.members_reset_link req db m e =
    (members_create_password_reset_token-Guards c site req db).apply
dispatch-guard c site Route.invites_create req db m e = (invites_create-Guards c site req db).apply
dispatch-guard c site Route.invites_revoke req db m e = (invites_revoke-Guards site req db).apply
dispatch-guard c site Route.notice_add_translation req db m e =
    (notices_add_translation-Guards site req db).apply
dispatch-guard c site Route.notice_save req db m e = (notices_save-Guards site req db).apply

authenticated-changes :
    (member : Option Member) (next : Serving Reply) (db : Db)
    → (authenticate_from_context member next db).1 ≢ db
    → (m : Member) × (member ≡ some m) × ((next db).1 ≢ db)
unfolding authenticate_from_context replying
authenticated-changes none next db other = absurd (other refl)
authenticated-changes (some m) next db other = (m, refl, other)

-- A path under /admin/ changes the database only for a member who is logged in, and only as the
-- path asks: the settings, the roles and the reset links for an admin; removing a member, the
-- denied keys, the invites and the notices by the privacy mode that is read and the role; an alias
-- for its owner or an admin; adding a member for every member.
pub serve-guard :
    (c : Codec) (site : Site) (route : Route) (req : Request) (db : Db)
    → (serve c site route req db).1 ≢ db
    → (m : Member) × (req.member ≡ some m) × Permitted site route req db
unfolding serve
serve-guard c site route req db other =
    let (m, e, wrote) = authenticated-changes req.member (dispatch c site route req) db other in
    (m, e, dispatch-guard c site route req db m e wrote)
