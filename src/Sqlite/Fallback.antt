-- ===== src/Sqlite/Fallback.antt =====
-- roomdb/sqlite/auth_fallback.go: passwords, and the tokens that reset them.
pub mod Invariant
pub mod Laws
pub mod Resets
use go_ssb_room.Base.{
  ℕ, zero, suc, ◌+◌, Bool, not, ◌&&◌, Option, none, some, List, ◌==◌, Text, text_eq, if◌then◌else◌,
}
use go_ssb_room.Roomdb.{
  Error, bad_login, hash_failed, invalid_reset_token, reset_token_missing, unique_violation,
  out_of_tries, no_rows, Result, ok, err,
}
use go_ssb_room.Sqlite.Rows.{select_one}
use go_ssb_room.Sqlite.Db.{
  PasswordRow, ResetRow, MemberRow, AliasRow, Db, Faults, Action, done, fail, ◌>>=◌, ◌>>◌, require,
  found, statement, query, transact,
}
use go_ssb_room.Sqlite.Schema.{
  has_key, insert_password, insert_reset, update_password, close_reset, delete_resets,
}
use go_ssb_room.Sqlite.Tokens.{Codec, get_hashed_token}

-- The member of the alias that was found, or else the one whose reference the login is. Where the
-- engine refuses this second query the source reads the id of a nil member, and panics.
unfoldable pub alias_or_key : Bool → Text → Option AliasRow → Action ℕ
alias_or_key refused login (some a) = done a.member_id
alias_or_key refused login none = do
  row ← query refused (λ db. select_one (has_key login) db.members)
  m ← found row bad_login
  done m.id

-- Who logs in: an alias first, then the reference of a member.
unfoldable pub login_member : Faults → Text → Action ℕ
unfolding alias_or_key
login_member io login = do
  alias ← query (io 0) (λ db. select_one (λ (a : AliasRow). text_eq a.name login) db.aliases)
  alias_or_key (io 1) login alias

abbrev pub of_member : ℕ → PasswordRow → Bool
of_member n p = p.member_id == n

-- `Check`
unfoldable pub check_login : Codec → Faults → Text → Text → Action ℕ
unfolding login_member
check_login c io login password = do
  member ← login_member io login
  row ← query (io 2) (λ db. select_one (of_member member) db.passwords)
  entry ← found row bad_login
  require (c.matches entry.password_hash password) bad_login
  done entry.member_id

unfoldable pub write_password : Bool → ℕ → Text → Option PasswordRow → Action (Unit {0})
write_password refused member hash none = do
  _ ← statement refused (insert_password hash member)
  done tt
write_password refused member hash (some p) = statement refused (update_password p.id hash)

-- The upsert that `SetPassword` and `SetPasswordWithToken` share word for word.
unfoldable pub upsert_password : Faults → ℕ → ℕ → Text → Action (Unit {0})
unfolding write_password
upsert_password io n member hash = do
  row ← query (io n) (λ db. select_one (of_member member) db.passwords)
  write_password (io (n + 1)) member hash row

-- `SetPassword`
unfoldable pub set_password : Codec → Faults → ℕ → Text → Action (Unit {0})
unfolding upsert_password
set_password c io member password = do
  hash ← found (c.bcrypt password) hash_failed
  transact io (upsert_password io 3 member hash)

abbrev pub is_open_reset : Text → ResetRow → Bool
is_open_reset hash t = t.active && text_eq t.hashed_token hash

-- A token that cannot be hashed is reported as invalid, for whatever reason.
unfoldable pub hashed_or_invalid : Result Text → Action Text
hashed_or_invalid (ok hash) = done hash
hashed_or_invalid (err e) = fail invalid_reset_token

unfoldable pub hash_reset_token : Codec → Text → Action Text
unfolding hashed_or_invalid
hash_reset_token c token = hashed_or_invalid (get_hashed_token c token)

-- `SetPasswordWithToken`
unfoldable pub set_password_with_token : Codec → Faults → Text → Text → Action (Unit {0})
unfolding upsert_password hash_reset_token
set_password_with_token c io token password = do
  hash ← found (c.bcrypt password) hash_failed
  hashed_token ← hash_reset_token c token
  transact io (do
    row ← query (io 3) (λ db. select_one (is_open_reset hashed_token) db.reset_tokens)
    entry ← found row reset_token_missing
    upsert_password io 4 entry.for_member hash
    statement (io 6) (close_reset entry.id))

-- The loop `trying` of `CreateResetToken`.
unfoldable pub reset_attempts : Codec → (ℕ → Text) → Faults → ℕ → ℕ → ℕ → ℕ → Action Text
reset_attempts c random io creator for_member now zero db = (err out_of_tries, db)
reset_attempts c random io creator for_member now (suc tries) db =
    elim (statement (io (tries + 3)) (insert_reset (c.sha256 (random tries)) creator for_member now)
      db).0 [
        | ok id ↦ (
          ok (random tries),
          (statement (io (tries + 3))
              (insert_reset (c.sha256 (random tries)) creator for_member now) db).1,
        )
        | err unique_violation ↦ reset_attempts c random io creator for_member now tries db
        | err e ↦ (err e, db)
      ]

-- `CreateResetToken`
unfoldable pub create_reset_token : Codec → (ℕ → Text) → Faults → ℕ → ℕ → ℕ → Action Text
create_reset_token c random io creator for_member now = do
  bytes ← transact io (reset_attempts c random io creator for_member now 100)
  done (c.encode bytes)

-- `deleteConsumedResetTokens`
unfoldable pub delete_consumed_resets : Bool → Action (Unit {0})
delete_consumed_resets refused = statement refused (delete_resets (λ t. not t.active))
