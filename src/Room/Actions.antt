-- ===== src/Room/Actions.antt =====
-- web/members/helper.go: what a logged in member may do on the web side, by their role and the
-- privacy mode of the room. The member is what the request's context holds.
pub mod Laws
use go_ssb_room.Base.{
  ℕ, Bool, true, false, Option, none, some, ltb, leb, ◌==◌, ◌&&◌, ◌||◌, if◌then◌else◌, Text,
  text_eq, codes,
}
use go_ssb_room.Roomdb.{
  Role, role_unknown, role_moderator, role_admin, PrivacyMode, mode_open, mode_community,
  mode_restricted, Error, Result, ok, err,
}
use go_ssb_room.Sqlite.Db.{Db, Faults}
use go_ssb_room.Sqlite.Members.{Member}
use go_ssb_room.Sqlite.Config.{get_privacy_mode}

-- The names of actions.
abbrev pub action_invite : Text
action_invite = codes "invite"

abbrev pub action_change_denied_keys : Text
action_change_denied_keys = codes "change-denied-keys"

abbrev pub action_remove_member : Text
action_remove_member = codes "remove-member"

abbrev pub action_change_notice : Text
action_change_notice = codes "change-notice"

abbrev pub AllowedFunc : Type 0
AllowedFunc = PrivacyMode → Role → Bool

abbrev pub is_elevated : Role → Bool
is_elevated role = (role == role_admin) || (role == role_moderator)

unfoldable pub may_invite : AllowedFunc
may_invite pm role =
    if pm == mode_open
    then true
    else if pm == mode_community
    then ltb role_unknown role && leb role role_admin
    else if pm == mode_restricted
    then is_elevated role
    else false

unfoldable pub may_change_denied_keys : AllowedFunc
may_change_denied_keys pm role =
    if pm == mode_community
    then true
    else if (pm == mode_open) || (pm == mode_restricted)
    then is_elevated role
    else false

unfoldable pub may_remove_member : AllowedFunc
may_remove_member pm role = is_elevated role

unfoldable pub may_change_notice : AllowedFunc
may_change_notice pm role =
    if pm == mode_community
    then true
    else if (pm == mode_open) || (pm == mode_restricted)
    then is_elevated role
    else false

-- `AllowedActions`, a lookup in `allowedActionsMap`.
unfoldable pub allowed_actions : Text → Option AllowedFunc
allowed_actions name =
    if text_eq name action_invite
    then some may_invite
    else if text_eq name action_change_denied_keys
    then some may_change_denied_keys
    else if text_eq name action_remove_member
    then some may_remove_member
    else if text_eq name action_change_notice
    then some may_change_notice
    else none

pub data Verdict : Type 0 where
  allowed : Member → Verdict
  not_authorized unknown_action : Verdict
  config_failed : Error → Verdict

unfoldable pub decide : Option AllowedFunc → PrivacyMode → Member → Verdict
decide none pm member = unknown_action
decide (some f) pm member = if f pm member.role then allowed member else not_authorized

unfoldable pub in_mode : Result PrivacyMode → Text → Member → Verdict
unfolding decide allowed_actions
in_mode (err e) action member = config_failed e
in_mode (ok pm) action member = decide (allowed_actions action) pm member

-- `CheckAllowed`
unfoldable pub check_allowed : Faults → Option Member → Text → Db → Verdict
unfolding in_mode
check_allowed io none action db = not_authorized
check_allowed io (some member) action db = in_mode (get_privacy_mode io db).0 action member
