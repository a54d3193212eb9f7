-- ===== src/Room/Actions/Laws.antt =====
-- web/members/helper.go: what a verdict of CheckAllowed says of the member and the room.
use go_ssb_room.Base.{ℕ, ◌≡◌, Bool, true, Option, none, some, Text, arith}
use go_ssb_room.Roomdb.{mode_restricted, PrivacyMode, ok, check_mode}
use go_ssb_room.Sqlite.Db.{Db, Faults}
use go_ssb_room.Sqlite.Members.{Member}
use go_ssb_room.Sqlite.Config.{get_privacy_mode}
use go_ssb_room.Room.Actions.{
  is_elevated, may_invite, may_change_denied_keys, may_remove_member, may_change_notice,
  allowed_actions, allowed, decide, in_mode, check_allowed,
}

-- In a restricted room, whatever action is allowed, it is allowed to the member who is logged in,
-- who is a moderator or an admin.
check_allowed_restricted :
    (io : Faults) (logged_in : Option Member) (action : Text) (db : Db) (m : Member)
    → (get_privacy_mode io db).0 ≡ ok mode_restricted
    → check_allowed io logged_in action db ≡ allowed m
    → (logged_in ≡ some m) × (is_elevated m.role ≡ true)
unfolding check_allowed in_mode decide allowed_actions may_invite may_change_denied_keys
    may_remove_member may_change_notice
check_allowed_restricted io none action db m e h = absurd (ground arith)
check_allowed_restricted io (some n) action db m e h = (ground arith, ground arith)

-- Moderators and admins are allowed every action on the list, in every valid privacy mode that can
-- be read.
check_allowed_elevated :
    (io : Faults) (m : Member) (action : Text) (db : Db) (pm : PrivacyMode)
    (f : PrivacyMode → ℕ → Bool)
    → (get_privacy_mode io db).0 ≡ ok pm
    → check_mode pm ≡ none
    → allowed_actions action ≡ some f
    → is_elevated m.role ≡ true
    → check_allowed io (some m) action db ≡ allowed m
unfolding check_allowed in_mode decide allowed_actions may_invite may_change_denied_keys
    may_remove_member may_change_notice check_mode
check_allowed_elevated io m action db pm f e valid named high = ground arith
