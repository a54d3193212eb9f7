-- ===== src/Sqlite/Sessions.antt =====
-- roomdb/sqlite/auth_withssb.go: the sessions of sign-in with ssb. Times are seconds since 1970.
pub mod Invariant
pub mod Laws
use Prim.Native.Nat.{◌/◌}
use go_ssb_room.Base.{
  ℕ, zero, suc, ◌+◌, ◌-◌, Bool, Option, none, some, List, ◌==◌, ltb, Text, text_eq, if◌then◌else◌,
}
use go_ssb_room.Roomdb.{
  Error, not_found, unique_violation, out_of_tries, session_expired, Result, ok, err,
}
use go_ssb_room.Sqlite.Rows.{select_one}
use go_ssb_room.Sqlite.Db.{
  SessionRow, Db, Faults, Action, done, fail, ◌>>=◌, ◌>>◌, found, statement, query, transact,
}
use go_ssb_room.Sqlite.Schema.{has_id, insert_session, delete_sessions}

abbrev pub session_timeout : ℕ
session_timeout = 86400

abbrev pub has_token : Text → SessionRow → Bool
has_token token s = text_eq s.token token

-- The loop `trying`: `random` is what `randutil.String` gives in each of the rounds.
unfoldable pub token_attempts : (ℕ → Text) → Faults → ℕ → ℕ → ℕ → Action Text
token_attempts random io member now zero db = (err out_of_tries, db)
token_attempts random io member now (suc tries) db =
    elim (statement (io (tries + 4)) (insert_session (random tries) member now) db).0 [
      | ok id ↦ (
        ok (random tries),
        (statement (io (tries + 4)) (insert_session (random tries) member now) db).1,
      )
      | err unique_violation ↦ token_attempts random io member now tries db
      | err e ↦ (err e, db)
    ]

-- `CreateToken`
unfoldable pub create_token : (ℕ → Text) → Faults → ℕ → ℕ → Action Text
create_token random io member now = transact io (do
  row ← query (io 3) (λ db. select_one (has_id member) db.members)
  _ ← found row not_found
  token_attempts random io member now 100)

-- `time.Since(session.CreatedAt) > sessionTimeout`
abbrev pub is_expired : ℕ → SessionRow → Bool
is_expired now s = ltb session_timeout (now - s.created_at)

unfoldable pub check_age : Faults → ℕ → SessionRow → Action ℕ
check_age io now s =
    if is_expired now s
    then (do
      statement (io 4) (delete_sessions (λ (r : SessionRow). r.id == s.id))
      fail session_expired)
    else done s.member_id

-- `CheckToken`
unfoldable pub check_token : Faults → Text → ℕ → Action ℕ
unfolding check_age
check_token io token now = transact io (do
  row ← query (io 3) (λ db. select_one (has_token token) db.sessions)
  session ← found row not_found
  check_age io now session)

-- `RemoveToken`
unfoldable pub remove_token : Faults → Text → Action (Unit {0})
remove_token io token = statement (io 0) (delete_sessions (has_token token))

-- `WipeTokensForMember`
unfoldable pub wipe_tokens : Faults → ℕ → Action (Unit {0})
wipe_tokens io member =
    transact io (statement (io 3) (delete_sessions (λ (s : SessionRow). s.member_id == member)))

-- `created_at < date('now', '-1 day')` compares a time with a day: the day of the session is before
-- yesterday.
abbrev pub is_stale : ℕ → SessionRow → Bool
is_stale now s = ltb (s.created_at / session_timeout + 1) (now / session_timeout)

-- `deleteExpiredAuthWithSSBSessions`
unfoldable pub delete_expired_sessions : Bool → ℕ → Action (Unit {0})
delete_expired_sessions refused now = statement refused (delete_sessions (is_stale now))
