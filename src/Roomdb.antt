-- ===== src/Roomdb.antt =====
-- roomdb/types.go, with the two generated stringers roomdb/role_string.go and
-- roomdb/privacymode_string.go: roles, privacy modes, and the errors of the storage services.
pub mod Laws
use go_ssb_room.Base.{
  ℕ, ◌≡◌, refl, ◌⊎◌, inl, inr, Bool, true, false, ◌||◌, Option, none, some, List, [], ◌∷◌, ◌++◌,
  ◌==◌, ltb, if◌then◌else◌, Text, text_eq, codes,
}

-- A feed reference, by the text of its `String()`: the code stores, compares and prints that.
abbrev pub FeedRef : Type 0
FeedRef = Text

-- `type Role uint` and its constants.
abbrev pub Role : Type 0
Role = ℕ

abbrev pub role_unknown : Role
role_unknown = 0

abbrev pub role_member : Role
role_member = 1

abbrev pub role_moderator : Role
role_moderator = 2

abbrev pub role_admin : Role
role_admin = 3

-- `type PrivacyMode uint` and its constants.
abbrev pub PrivacyMode : Type 0
PrivacyMode = ℕ

abbrev pub mode_unknown : PrivacyMode
mode_unknown = 0

abbrev pub mode_open : PrivacyMode
mode_open = 1

abbrev pub mode_community : PrivacyMode
mode_community = 2

abbrev pub mode_restricted : PrivacyMode
mode_restricted = 3

-- The errors that the storage services return. An error that the source wraps by `%w` is the
-- error that it wraps, since callers look through the wrapping by `errors.Is` and `errors.As`.
pub data Error : Type 0 where
  -- roomdb/types.go
  not_found unknown_role invalid_role no_such_mode : Error
  already_added : FeedRef → Error
  alias_taken : Text → Error
  unknown_role_text : Text → Error
  -- database/sql and the engine
  no_rows unique_violation foreign_key_violation check_violation driver : Error
  begin_failed commit_failed rollback_failed : Error
  -- roomdb/sqlite
  bad_feed_ref need_other_admin no_admin_for_invite out_of_tries bad_token_encoding : Error
  privacy_not_open : PrivacyMode → Error
  bad_token_length : ℕ → Error
  empty_language no_rows_updated session_expired bad_login : Error
  hash_failed invalid_reset_token reset_token_missing : Error
  invalid_notice_name : Error
  notice_count : ℕ → Error

pub data Result (A : Type 0) : Type 0 where
  ok : A → Result A
  err : Error → Result A

pub Result-cases :
    {A : Type 0} (r : Result A) → ((a : A) × (r ≡ ok a)) ⊎ ((e : Error) × (r ≡ err e))
Result-cases (ok a) = inl (a, refl)
Result-cases (err e) = inr (e, refl)

-- `Role.IsValid`
unfoldable pub check_role : Role → Option Error
check_role r =
    if r == role_unknown
    then some unknown_role
    else if ltb role_admin r
    then some invalid_role
    else none

-- `PrivacyMode.IsValid`
unfoldable pub check_mode : PrivacyMode → Option Error
check_mode pm = if (pm == mode_unknown) || ltb mode_restricted pm then some no_such_mode else none

-- `ParsePrivacyMode`
unfoldable pub parse_privacy_mode : Text → PrivacyMode
parse_privacy_mode val =
    if text_eq val (codes "ModeOpen") || text_eq val (codes "open")
    then mode_open
    else if text_eq val (codes "ModeCommunity") || text_eq val (codes "community")
    then mode_community
    else if text_eq val (codes "ModeRestricted") || text_eq val (codes "restricted")
    then mode_restricted
    else mode_unknown

-- `PrivacyMode.String`; `itoa` is `strconv.FormatInt`.
unfoldable pub privacy_mode_string : (ℕ → Text) → PrivacyMode → Text
privacy_mode_string itoa pm =
    if pm == 0
    then codes "ModeUnknown"
    else if pm == 1
    then codes "ModeOpen"
    else if pm == 2
    then codes "ModeCommunity"
    else if pm == 3
    then codes "ModeRestricted"
    else codes "PrivacyMode(" ++ (itoa pm ++ codes ")")

-- `Role.String`
unfoldable pub role_string : (ℕ → Text) → Role → Text
role_string itoa r =
    if r == 0
    then codes "RoleUnknown"
    else if r == 1
    then codes "RoleMember"
    else if r == 2
    then codes "RoleModerator"
    else if r == 3
    then codes "RoleAdmin"
    else codes "Role(" ++ (itoa r ++ codes ")")

-- `Role.UnmarshalText`
unfoldable pub unmarshal_role : Text → Result Role
unmarshal_role text =
    if text_eq text (codes "RoleAdmin")
    then ok role_admin
    else if text_eq text (codes "RoleModerator")
    then ok role_moderator
    else if text_eq text (codes "RoleMember")
    then ok role_member
    else err (unknown_role_text text)

-- `PrivacyMode.Scan` of an integer column.
unfoldable pub scan_mode : ℕ → Result PrivacyMode
unfolding check_mode
scan_mode value = elim (check_mode value) [ none ↦ ok value | some e ↦ err e ]
