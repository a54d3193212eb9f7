-- ===== src/Sqlite/Fallback/Laws.antt =====
-- roomdb/sqlite/auth_fallback.go: a password that was set signs its member in.
use go_ssb_room.Base.{
  ℕ, ◌≡◌, refl, Bool, true, false, some, Text, text_eq, if◌then◌else◌, arith, Option-cases, inl,
  inr, ==_refl, ==_iff,
}
use go_ssb_room.Roomdb.{bad_login, ok, err}
use go_ssb_room.Sqlite.Rows.{select_one, exists, select_one-append, select_one-passes}
use go_ssb_room.Sqlite.Select.{select_one-updated}
use go_ssb_room.Sqlite.Db.{PasswordRow, AliasRow, Db, Faults, reliable, transact, conclude}
use go_ssb_room.Sqlite.Schema.{has_key, insert_password, update_password}
use go_ssb_room.Sqlite.Tokens.{Codec}
use go_ssb_room.Sqlite.Fallback.{
  alias_or_key, login_member, of_member, check_login, write_password, upsert_password, set_password,
}

-- The row that the upsert leaves for the member, whether it was there or not.
pub write_password_effect :
    (b : Bool) (member : ℕ) (hash : Text) (db : Db)
    → (write_password b member hash (select_one (of_member member) db.passwords) db).0 ≡ ok tt
    → (p : PasswordRow) × (select_one
          (of_member member)
          (write_password b member hash (select_one (of_member member) db.passwords) db).1.passwords
        ≡ some p)
      × (p.password_hash ≡ hash)
      × (p.member_id ≡ member)
unfolding write_password insert_password update_password
write_password_effect b member hash db h =
    elim (Option-cases (select_one (of_member member) db.passwords)) [
      | inl e ↦
          let row : PasswordRow = record {
            id = db.next_password;
            password_hash = hash;
            member_id = member;
          } in
          let free : exists (of_member member) db.passwords ≡ false = ground arith in
          (
            row,
            ground (
              arith,
              select_one-append (of_member member) db.passwords row free (==_refl member),
            ),
            refl,
            refl,
          )
      | inr (p, e) ↦ (
        record p { password_hash = hash },
        ground (
          arith,
          select_one-updated (λ (q : PasswordRow). q.id) (of_member member)
              (λ q. record q { password_hash = hash }) db.passwords p (λ q. refl) e,
        ),
        refl,
        (==_iff p.member_id member).0 (select_one-passes (of_member member) db.passwords p e),
      )
    ]

-- What a successful SetPassword hashed, and the row that it left.
set_password_effect :
    (c : Codec) (io : Faults) (member : ℕ) (password : Text) (db : Db)
    → (set_password c io member password db).0 ≡ ok tt
    → (p : PasswordRow) × (select_one
          (of_member member)
          (set_password c io member password db).1.passwords
        ≡ some p)
      × (c.bcrypt password ≡ some p.password_hash)
      × (p.member_id ≡ member)
unfolding set_password upsert_password transact conclude
set_password_effect c io member password db h = elim (Option-cases (c.bcrypt password)) [
  | inl e ↦ absurd (ground arith)
  | inr (hash, e) ↦
      let written : (write_password (io 4) member hash (select_one (of_member member) db.passwords)
            db).0
          ≡ ok tt =
        ground arith in
      let (p, chosen, hashed, owned) = write_password_effect (io 4) member hash db written in
      (p, ground arith, ground arith, owned)
]

-- Check, once the login stands for a member who has a password.
check_login_known :
    (c : Codec) (login password : Text) (member : ℕ) (p : PasswordRow) (db : Db)
    → (login_member reliable login db).0 ≡ ok member
    → select_one (of_member member) db.passwords ≡ some p
    → (check_login c reliable login password db).0
      ≡ (if c.matches p.password_hash password then ok p.member_id else err bad_login)
unfolding check_login login_member alias_or_key
check_login_known c login password member p db who e =
    elim (Option-cases (select_one (λ (a : AliasRow). text_eq a.name login) db.aliases)) [
      | inr (a, k) ↦ ground arith
      | inl k ↦ elim (Option-cases (select_one (has_key login) db.members)) [
        | inl l ↦ absurd (ground arith)
        | inr (m, l) ↦ ground arith
      ]
    ]

-- Where comparison accepts every password against its own hash: after a SetPassword that succeeds,
-- a login that stands for the member is accepted with that password, and another password is
-- accepted only if it compares with the hash of that one; the engine refusing nothing in these
-- checks.
pub set_password-check_login :
    (c : Codec) (io : Faults) (member : ℕ) (login password other : Text) (db : Db)
    → ((text hash : Text) → c.bcrypt text ≡ some hash → c.matches hash text ≡ true)
    → (set_password c io member password db).0 ≡ ok tt
    → let after = (set_password c io member password db).1 in
      (login_member reliable login after).0 ≡ ok member
      → ((check_login c reliable login password after).0 ≡ ok member)
        × ((check_login c reliable login other after).0 ≡ ok member
            → (hash : Text) × (c.bcrypt password ≡ some hash) × (c.matches hash other ≡ true))
set_password-check_login c io member login password other db sound h who =
    let (p, chosen, hashed, owned) = set_password_effect c io member password db h in
    let fits = sound password p.password_hash hashed in
    let after = (set_password c io member password db).1 in
    (
      ground (arith, check_login_known c login password member p after who chosen),
      λ passed. (
        p.password_hash,
        hashed,
        ground (arith, check_login_known c login other member p after who chosen),
      ),
    )
