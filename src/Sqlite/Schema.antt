-- ===== src/Sqlite/Schema.antt =====
-- The INSERT and DELETE statements under the constraints of roomdb/sqlite/migrations: UNIQUE
-- columns, CHECK(role > 0), foreign keys (switched on in roomdb/sqlite/new.go), ON DELETE CASCADE.
use go_ssb_room.Base.{
  ℕ, ◌+◌, Bool, true, false, [], ◌∷◌, ◌++◌, ◌==◌, ◌&&◌, ◌||◌, Text, text_eq, if◌then◌else◌,
}
use go_ssb_room.Roomdb.{
  FeedRef, Role, unique_violation, foreign_key_violation, check_violation, ok, err,
}
use go_ssb_room.Sqlite.Rows.{delete_all, update_all, exists}
use go_ssb_room.Sqlite.Db.{
  MemberRow, AliasRow, InviteRow, DeniedRow, SessionRow, PasswordRow, ResetRow, NoticeRow, PinRow,
  PinNoticeRow, Db, Action,
}

abbrev pub has_id : ℕ → MemberRow → Bool
has_id n m = m.id == n

abbrev pub has_key : FeedRef → MemberRow → Bool
has_key k m = text_eq m.pub_key k

abbrev pub is_member : ℕ → Db → Bool
is_member n db = exists (has_id n) db.members

unfoldable pub insert_member : FeedRef → Role → Action ℕ
insert_member key role db =
    if exists (has_key key) db.members
    then (err unique_violation, db)
    else if role == 0
    then (err check_violation, db)
    else (
      ok db.next_member,
      record db { members = db.members ++ row ∷ []; next_member = db.next_member + 1 },
    )
  where
    row : MemberRow
    row = record { id = db.next_member; role = role; pub_key = key }

unfoldable pub insert_alias : Text → ℕ → Text → Action ℕ
insert_alias name member signature db =
    if exists (λ (a : AliasRow). text_eq a.name name) db.aliases
    then (err unique_violation, db)
    else if is_member member db
    then (
      ok db.next_alias,
      record db { aliases = db.aliases ++ row ∷ []; next_alias = db.next_alias + 1 },
    )
    else (err foreign_key_violation, db)
  where
    row : AliasRow
    row = record { id = db.next_alias; name = name; member_id = member; signature = signature }

unfoldable pub insert_invite : Text → ℕ → ℕ → Action ℕ
insert_invite hash creator now db =
    if exists (λ (i : InviteRow). text_eq i.hashed_token hash) db.invites
    then (err unique_violation, db)
    else if is_member creator db
    then (
      ok db.next_invite,
      record db { invites = db.invites ++ row ∷ []; next_invite = db.next_invite + 1 },
    )
    else (err foreign_key_violation, db)
  where
    row : InviteRow
    row = record {
      id = db.next_invite;
      hashed_token = hash;
      created_by = creator;
      created_at = now;
      active = true;
    }

unfoldable pub insert_denied : FeedRef → Text → ℕ → Action ℕ
insert_denied key comment now db =
    if exists (λ (d : DeniedRow). text_eq d.pub_key key) db.denied_keys
    then (err unique_violation, db)
    else (
      ok db.next_denied,
      record db { denied_keys = db.denied_keys ++ row ∷ []; next_denied = db.next_denied + 1 },
    )
  where
    row : DeniedRow
    row = record { id = db.next_denied; pub_key = key; comment = comment; created_at = now }

unfoldable pub insert_session : Text → ℕ → ℕ → Action ℕ
insert_session token member now db =
    if exists (λ (s : SessionRow). text_eq s.token token) db.sessions
    then (err unique_violation, db)
    else if is_member member db
    then (
      ok db.next_session,
      record db { sessions = db.sessions ++ row ∷ []; next_session = db.next_session + 1 },
    )
    else (err foreign_key_violation, db)
  where
    row : SessionRow
    row = record { id = db.next_session; token = token; member_id = member; created_at = now }

unfoldable pub insert_password : Text → ℕ → Action ℕ
insert_password hash member db =
    if exists (λ (p : PasswordRow). p.member_id == member) db.passwords
    then (err unique_violation, db)
    else if is_member member db
    then (
      ok db.next_password,
      record db { passwords = db.passwords ++ row ∷ []; next_password = db.next_password + 1 },
    )
    else (err foreign_key_violation, db)
  where
    row : PasswordRow
    row = record { id = db.next_password; password_hash = hash; member_id = member }

unfoldable pub insert_reset : Text → ℕ → ℕ → ℕ → Action ℕ
insert_reset hash creator for_member now db =
    if exists (λ (t : ResetRow). text_eq t.hashed_token hash) db.reset_tokens
    then (err unique_violation, db)
    else if is_member creator db && is_member for_member db
    then (
      ok db.next_reset,
      record db { reset_tokens = db.reset_tokens ++ row ∷ []; next_reset = db.next_reset + 1 },
    )
    else (err foreign_key_violation, db)
  where
    row : ResetRow
    row = record {
      id = db.next_reset;
      hashed_token = hash;
      created_by = creator;
      created_at = now;
      for_member = for_member;
      active = true;
    }

-- DELETE of the member with this id, and of every row that refers to it.
unfoldable pub delete_member : ℕ → Action (Unit {0})
delete_member n db = (
  ok tt,
  record db {
    members = delete_all (has_id n) db.members;
    aliases = delete_all (λ (a : AliasRow). a.member_id == n) db.aliases;
    invites = delete_all (λ (i : InviteRow). i.created_by == n) db.invites;
    sessions = delete_all (λ (s : SessionRow). s.member_id == n) db.sessions;
    passwords = delete_all (λ (p : PasswordRow). p.member_id == n) db.passwords;
    reset_tokens =
        delete_all (λ (t : ResetRow). (t.created_by == n) || (t.for_member == n)) db.reset_tokens;
  },
)

-- The other writes of the services. Each is one statement.
unfoldable pub update_member_role : ℕ → Role → Action (Unit {0})
update_member_role n role db = if role == 0 then (err check_violation, db) else (
  ok tt,
  record db { members = update_all (has_id n) (λ m. record m { role = role }) db.members },
)

unfoldable pub delete_alias : ℕ → Action (Unit {0})
delete_alias n db =
    (ok tt, record db { aliases = delete_all (λ (a : AliasRow). a.id == n) db.aliases })

unfoldable pub close_invite : ℕ → Action (Unit {0})
close_invite n db = (
  ok tt,
  record db {
    invites =
        update_all (λ (i : InviteRow). i.id == n) (λ i. record i { active = false }) db.invites;
  },
)

unfoldable pub delete_invites : (InviteRow → Bool) → Action (Unit {0})
delete_invites p db = (ok tt, record db { invites = delete_all p db.invites })

unfoldable pub delete_denied : ℕ → Action (Unit {0})
delete_denied n db =
    (ok tt, record db { denied_keys = delete_all (λ (d : DeniedRow). d.id == n) db.denied_keys })

unfoldable pub delete_sessions : (SessionRow → Bool) → Action (Unit {0})
delete_sessions p db = (ok tt, record db { sessions = delete_all p db.sessions })

unfoldable pub update_password : ℕ → Text → Action (Unit {0})
update_password n hash db = (
  ok tt,
  record db {
    passwords =
        update_all (λ (p : PasswordRow). p.id == n) (λ p. record p { password_hash = hash })
          db.passwords;
  },
)

unfoldable pub close_reset : ℕ → Action (Unit {0})
close_reset n db = (
  ok tt,
  record db {
    reset_tokens =
        update_all (λ (t : ResetRow). t.id == n) (λ t. record t { active = false }) db.reset_tokens;
  },
)

unfoldable pub delete_resets : (ResetRow → Bool) → Action (Unit {0})
delete_resets p db = (ok tt, record db { reset_tokens = delete_all p db.reset_tokens })

abbrev pub is_notice : ℕ → NoticeRow → Bool
is_notice n r = r.id == n

abbrev pub is_pin : ℕ → PinRow → Bool
is_pin n r = r.id == n

abbrev pub links : ℕ → ℕ → PinNoticeRow → Bool
links notice pin r = (r.notice_id == notice) && (r.pin_id == pin)

unfoldable pub insert_notice : Text → Text → Text → Action ℕ
insert_notice title content language db = (
  ok db.next_notice,
  record db { notices = db.notices ++ row ∷ []; next_notice = db.next_notice + 1 },
)
  where
    row : NoticeRow
    row = record { id = db.next_notice; title = title; content = content; language = language }

-- UPDATE of a row that is not there writes nothing, and is no error.
unfoldable pub update_notice : ℕ → Text → Text → Text → Action (Unit {0})
update_notice n title content language db = (
  ok tt,
  record db {
    notices =
        update_all (is_notice n)
          (λ r. record r { title = title; content = content; language = language }) db.notices;
  },
)

-- The join table has no cascade: a notice that is pinned cannot be deleted.
unfoldable pub delete_notice : ℕ → Action (Unit {0})
delete_notice n db =
    if exists (λ (p : PinNoticeRow). p.notice_id == n) db.pin_notices
    then (err foreign_key_violation, db)
    else (ok tt, record db { notices = delete_all (is_notice n) db.notices })

unfoldable pub insert_pin_notice : ℕ → ℕ → Action (Unit {0})
insert_pin_notice pin notice db =
    if exists (links notice pin) db.pin_notices
    then (err unique_violation, db)
    else if exists (is_notice notice) db.notices && exists (is_pin pin) db.pins
    then (
      ok tt,
      record db {
        pin_notices = db.pin_notices ++ record { notice_id = notice; pin_id = pin } ∷ [];
      },
    )
    else (err foreign_key_violation, db)
