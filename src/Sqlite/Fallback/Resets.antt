-- ===== src/Sqlite/Fallback/Resets.antt =====
-- roomdb/sqlite/auth_fallback.go: a reset token sets the password of its member, once.
use go_ssb_room.Base.{
  ℕ, ◌≡◌, refl, Bool, false, Option, none, some, Text, text_eq_iff, arith, Option-cases, inl, inr,
}
use go_ssb_room.Roomdb.{reset_token_missing, ok, err, Result-cases}
use go_ssb_room.Sqlite.Rows.{select_one, exists, select_one-none}
use go_ssb_room.Sqlite.Select.{exists-closed_by_id}
use go_ssb_room.Sqlite.Db.{PasswordRow, ResetRow, Db, Faults, reliable, transact, conclude}
use go_ssb_room.Sqlite.Schema.{insert_password, update_password, close_reset}
use go_ssb_room.Sqlite.Tokens.{Codec, get_hashed_token}
use go_ssb_room.Sqlite.Invariant.{IsWellFormed}
use go_ssb_room.Sqlite.Fallback.{
  of_member, write_password, upsert_password, is_open_reset, hashed_or_invalid, hash_reset_token,
  set_password_with_token,
}
use go_ssb_room.Sqlite.Fallback.Laws.{write_password_effect}

-- The upsert touches passwords only.
write_password_resets :
    (b : Bool) (member : ℕ) (hash : Text) (o : Option PasswordRow) (db : Db)
    → (write_password b member hash o db).1.reset_tokens ≡ db.reset_tokens
unfolding write_password insert_password update_password
write_password_resets b member hash none db = ground arith
write_password_resets b member hash (some p) db = ground arith

-- What a successful SetPasswordWithToken found, and the writes that it made.
with_token_effect :
    (c : Codec) (io : Faults) (token password : Text) (db : Db)
    → (set_password_with_token c io token password db).0 ≡ ok tt
    → (hash : Text) × (hashed : Text) × (entry : ResetRow) × (c.bcrypt password ≡ some hash)
      × (get_hashed_token c token ≡ ok hashed)
      × (select_one (is_open_reset hashed) db.reset_tokens ≡ some entry)
      × ((write_password
            (io 5)
            entry.for_member
            hash
            (select_one (of_member entry.for_member) db.passwords)
            db).0
          ≡ ok tt)
      × ((set_password_with_token c io token password db).1
          ≡ (close_reset entry.id
              (write_password
                (io 5)
                entry.for_member
                hash
                (select_one (of_member entry.for_member) db.passwords)
                db).1).1)
unfolding set_password_with_token hash_reset_token hashed_or_invalid upsert_password transact
    conclude close_reset
with_token_effect c io token password db h = elim (Option-cases (c.bcrypt password)) [
  | inl e ↦ absurd (ground arith)
  | inr (hash, e) ↦ elim (Result-cases (get_hashed_token c token)) [
    | inr (x, e') ↦ absurd (ground arith)
    | inl (hashed, e') ↦ elim (Option-cases (select_one (is_open_reset hashed) db.reset_tokens)) [
      | inl e'' ↦ absurd (ground arith)
      | inr (entry, e'') ↦ (hash, hashed, entry, e, e', e'', ground arith, ground arith)
    ]
  ]
]

with_token_refused :
    (c : Codec) (token other again hashed : Text) (db : Db)
    → c.bcrypt other ≡ some again
    → get_hashed_token c token ≡ ok hashed
    → exists (is_open_reset hashed) db.reset_tokens ≡ false
    → set_password_with_token c reliable token other db ≡ (err reset_token_missing, db)
unfolding set_password_with_token hash_reset_token hashed_or_invalid transact conclude
with_token_refused c token other again hashed db able decoded spent =
    ground (arith, select_one-none (is_open_reset hashed) db.reset_tokens spent)

-- In a well-formed database, a SetPasswordWithToken that succeeds had an open reset token, leaves
-- its member the password given, hashed, and spends the token: where the engine refuses nothing,
-- the token is refused with any password that can be hashed, which changes nothing.
pub set_password_with_token_spends :
    (c : Codec) (io : Faults) (token password other again : Text) (db : Db)
    → IsWellFormed db
    → (set_password_with_token c io token password db).0 ≡ ok tt
    → c.bcrypt other ≡ some again
    → let after = (set_password_with_token c io token password db).1 in
      (hashed : Text) × (entry : ResetRow) × (p : PasswordRow) × (get_hashed_token c token
        ≡ ok hashed)
      × (select_one (is_open_reset hashed) db.reset_tokens ≡ some entry)
      × (select_one (of_member entry.for_member) after.passwords ≡ some p)
      × (c.bcrypt password ≡ some p.password_hash)
      × (set_password_with_token c reliable token other after ≡ (err reset_token_missing, after))
unfolding close_reset
set_password_with_token_spends c io token password other again db w h able =
    let (hash, hashed, entry, made, decoded, chosen, wrote, effect) =
      with_token_effect c io token password db h in
    let (p, row, same, owned) = write_password_effect (io 5) entry.for_member hash db wrote in
    let after : Db = (set_password_with_token c io token password db).1 in
    let kept =
      write_password_resets (io 5) entry.for_member hash
        (select_one (of_member entry.for_member) db.passwords) db in
    let spent : exists (is_open_reset hashed) after.reset_tokens ≡ false = rw effect (
      rw kept (
        exists-closed_by_id (λ (t : ResetRow). t.id) (λ t. t.hashed_token) (is_open_reset hashed)
          (λ t. record t { active = false }) hashed db.reset_tokens entry
          (λ t e. ground (arith, text_eq_iff t.hashed_token hashed)) (λ t. refl) w.resets.keys
          chosen)) in
    (
      hashed,
      entry,
      p,
      decoded,
      chosen,
      rw effect row,
      ground arith,
      with_token_refused c token other again hashed after able decoded spent,
    )
