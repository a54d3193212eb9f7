-- ===== src/Sqlite/Fallback/Invariant.antt =====
-- roomdb/sqlite/auth_fallback.go keeps the invariant, and fails without a trace.
use go_ssb_room.Base.{ℕ, zero, suc, ◌+◌, refl, Text, Bool, Option, none, some}
use go_ssb_room.Roomdb.{Result, ok, err}
use go_ssb_room.Sqlite.Db.{Faults, Db, PasswordRow, statement}
use go_ssb_room.Sqlite.Schema.{insert_reset}
use go_ssb_room.Sqlite.Tokens.{Codec, get_hashed_token}
use go_ssb_room.Sqlite.Keeps.{
  Keeps, IsAtomic, IsRead, keeping, atomicity, Keeps-statement, Keeps-read, attempts_round,
}
use go_ssb_room.Sqlite.Invariant.{IsWellFormed}
use go_ssb_room.Sqlite.Invariant.Writes.{
  insert_password-Keeps, update_password-Keeps, insert_reset-Keeps, close_reset-Keeps,
  delete_resets-Keeps,
}
use go_ssb_room.Sqlite.Fallback.{
  write_password, upsert_password, hashed_or_invalid, set_password, set_password_with_token,
  hash_reset_token, reset_attempts, create_reset_token, delete_consumed_resets,
}

write_password-Keeps :
    (b : Bool) (member : ℕ) (hash : Text) (row : Option PasswordRow)
    → Keeps IsWellFormed (write_password b member hash row)
unfolding write_password
write_password-Keeps b member hash none = search (keeping, insert_password-Keeps) depth 12
write_password-Keeps b member hash (some p) = search (keeping, update_password-Keeps) depth 12

upsert_password-Keeps :
    (io : Faults) (n member : ℕ) (hash : Text)
    → Keeps IsWellFormed (upsert_password io n member hash)
unfolding upsert_password
upsert_password-Keeps io n member hash = search (keeping, write_password-Keeps) depth 12

hashed_or_invalid-IsRead : (r : Result Text) → IsRead (hashed_or_invalid r)
unfolding hashed_or_invalid
hashed_or_invalid-IsRead (ok hash) = record { apply = λ db. refl }
hashed_or_invalid-IsRead (err e) = record { apply = λ db. refl }

hash_reset_token-IsRead : (c : Codec) (token : Text) → IsRead (hash_reset_token c token)
unfolding hash_reset_token
hash_reset_token-IsRead c token = hashed_or_invalid-IsRead (get_hashed_token c token)

hash_reset_token-Keeps : (c : Codec) (token : Text) → Keeps IsWellFormed (hash_reset_token c token)
hash_reset_token-Keeps c token = Keeps-read _ _ (hash_reset_token-IsRead c token)

attempts_kept :
    (c : Codec) (random : ℕ → Text) (io : Faults) (creator for_member now tries : ℕ) (db : Db)
    → IsWellFormed db
    → IsWellFormed (reset_attempts c random io creator for_member now tries db).1
unfolding reset_attempts
attempts_kept c random io creator for_member now zero db w = w
attempts_kept c random io creator for_member now (suc tries) db w =
    let insert = insert_reset (c.sha256 (random tries)) creator for_member now in
    attempts_round IsWellFormed (statement (io (tries + 3)) insert db) db (random tries)
      (reset_attempts c random io creator for_member now tries db) w
      ((Keeps-statement IsWellFormed (io (tries + 3)) _
          (insert_reset-Keeps (c.sha256 (random tries)) creator for_member now)).apply
        db w)
      (attempts_kept c random io creator for_member now tries db w)

reset_attempts-Keeps :
    (c : Codec) (random : ℕ → Text) (io : Faults) (creator for_member now tries : ℕ)
    → Keeps IsWellFormed (reset_attempts c random io creator for_member now tries)
reset_attempts-Keeps c random io creator for_member now tries = record {
  apply = attempts_kept c random io creator for_member now tries;
}

module _ (c : Codec) (io : Faults) where
  pub set_password-Keeps :
      (member : ℕ) (password : Text) → Keeps IsWellFormed (set_password c io member password)
  unfolding set_password
  set_password-Keeps member password = search (keeping, upsert_password-Keeps) depth 12

  pub set_password-IsAtomic :
      (member : ℕ) (password : Text) → IsAtomic (set_password c io member password)
  unfolding set_password
  set_password-IsAtomic member password = search atomicity

  pub set_password_with_token-Keeps :
      (token password : Text) → Keeps IsWellFormed (set_password_with_token c io token password)
  unfolding set_password_with_token
  set_password_with_token-Keeps token password =
      search (keeping, hash_reset_token-Keeps, upsert_password-Keeps, close_reset-Keeps) depth 20

  pub set_password_with_token-IsAtomic :
      (token password : Text) → IsAtomic (set_password_with_token c io token password)
  unfolding set_password_with_token
  set_password_with_token-IsAtomic token password =
      search (atomicity, hash_reset_token-IsRead) depth 12

  pub create_reset_token-Keeps :
      (random : ℕ → Text) (creator for_member now : ℕ)
      → Keeps IsWellFormed (create_reset_token c random io creator for_member now)
  unfolding create_reset_token
  create_reset_token-Keeps random creator for_member now =
      search (keeping, reset_attempts-Keeps) depth 12

  pub create_reset_token-IsAtomic :
      (random : ℕ → Text) (creator for_member now : ℕ)
      → IsAtomic (create_reset_token c random io creator for_member now)
  unfolding create_reset_token
  create_reset_token-IsAtomic random creator for_member now = search atomicity

pub delete_consumed_resets-Keeps : (b : Bool) → Keeps IsWellFormed (delete_consumed_resets b)
unfolding delete_consumed_resets
delete_consumed_resets-Keeps b = search (keeping, delete_resets-Keeps) depth 12
