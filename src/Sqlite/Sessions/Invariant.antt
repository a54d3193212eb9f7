-- ===== src/Sqlite/Sessions/Invariant.antt =====
-- roomdb/sqlite/auth_withssb.go keeps the invariant, and fails without a trace.
use go_ssb_room.Base.{ℕ, zero, suc, ◌+◌, Text, Bool, inl, inr, Bool-cases}
use go_ssb_room.Sqlite.Db.{Faults, SessionRow, Db, statement}
use go_ssb_room.Sqlite.Schema.{insert_session}
use go_ssb_room.Sqlite.Keeps.{Keeps, IsAtomic, keeping, atomicity, Keeps-statement, attempts_round}
use go_ssb_room.Sqlite.Atomic.{delete_sessions-IsAtomic}
use go_ssb_room.Sqlite.Invariant.{IsWellFormed}
use go_ssb_room.Sqlite.Invariant.Writes.{insert_session-Keeps, delete_sessions-Keeps}
use go_ssb_room.Sqlite.Sessions.{
  token_attempts, create_token, check_token, check_age, is_expired, remove_token, wipe_tokens,
  delete_expired_sessions,
}

attempts_kept :
    (random : ℕ → Text) (io : Faults) (member now tries : ℕ) (db : Db)
    → IsWellFormed db
    → IsWellFormed (token_attempts random io member now tries db).1
unfolding token_attempts
attempts_kept random io member now zero db w = w
attempts_kept random io member now (suc tries) db w =
    attempts_round IsWellFormed
      (statement (io (tries + 4)) (insert_session (random tries) member now) db) db (random tries)
      (token_attempts random io member now tries db) w
      ((Keeps-statement IsWellFormed (io (tries + 4)) _
          (insert_session-Keeps (random tries) member now)).apply
        db w)
      (attempts_kept random io member now tries db w)

token_attempts-Keeps :
    (random : ℕ → Text) (io : Faults) (member now tries : ℕ)
    → Keeps IsWellFormed (token_attempts random io member now tries)
token_attempts-Keeps random io member now tries = record {
  apply = attempts_kept random io member now tries;
}

module _ (random : ℕ → Text) (io : Faults) (member now : ℕ) where
  pub create_token-Keeps : Keeps IsWellFormed (create_token random io member now)
  unfolding create_token
  create_token-Keeps = search (keeping, token_attempts-Keeps) depth 12

  pub create_token-IsAtomic : IsAtomic (create_token random io member now)
  unfolding create_token
  create_token-IsAtomic = search atomicity

check_age-Keeps : (io : Faults) (now : ℕ) (s : SessionRow) → Keeps IsWellFormed (check_age io now s)
unfolding check_age
check_age-Keeps io now s = elim (Bool-cases (is_expired now s)) [
  | inl old ↦ rw old (search (keeping, delete_sessions-Keeps) depth 12)
  | inr young ↦ rw young (search keeping)
]

module _ (io : Faults) (token : Text) where
  pub check_token-Keeps : (now : ℕ) → Keeps IsWellFormed (check_token io token now)
  unfolding check_token
  check_token-Keeps now = search (keeping, check_age-Keeps) depth 12

  pub check_token-IsAtomic : (now : ℕ) → IsAtomic (check_token io token now)
  unfolding check_token
  check_token-IsAtomic now = search atomicity

  pub remove_token-Keeps : Keeps IsWellFormed (remove_token io token)
  unfolding remove_token
  remove_token-Keeps = search (keeping, delete_sessions-Keeps) depth 12

  pub remove_token-IsAtomic : IsAtomic (remove_token io token)
  unfolding remove_token
  remove_token-IsAtomic = search (atomicity, delete_sessions-IsAtomic) depth 12

pub wipe_tokens-Keeps : (io : Faults) (member : ℕ) → Keeps IsWellFormed (wipe_tokens io member)
unfolding wipe_tokens
wipe_tokens-Keeps io member = search (keeping, delete_sessions-Keeps) depth 12

pub wipe_tokens-IsAtomic : (io : Faults) (member : ℕ) → IsAtomic (wipe_tokens io member)
unfolding wipe_tokens
wipe_tokens-IsAtomic io member = search atomicity

pub delete_expired_sessions-Keeps :
    (b : Bool) (now : ℕ) → Keeps IsWellFormed (delete_expired_sessions b now)
unfolding delete_expired_sessions
delete_expired_sessions-Keeps b now = search (keeping, delete_sessions-Keeps) depth 12
